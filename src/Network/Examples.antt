-- ===== src/Network/Examples.antt =====
-- apps/user/udp_demo.c: the checksum of a few bytes.
use egos.Base.{ℕ, ◌+◌, ◌%◌, ◌<◌, ◌≡◌, true, false, List, [], ◌∷◌, arith}
use egos.Network.{checksum}
use egos.Network.Checksum.{checksum-valid, checksum-continues, sum_words}

abbrev bytes : List ℕ
bytes = 69 ∷ 0 ∷ 255 ∷ 255 ∷ []

checksum-valid_example :
    ((checksum 0 bytes true + (0 + sum_words bytes)) % 65535 ≡ 0)
    × (0 < checksum 0 bytes true)
    × (checksum 0 bytes true < 65536)
unfolding sum_words
checksum-valid_example = checksum-valid 0 bytes (omega arith)

two_parts-valid :
    (checksum (checksum 0 bytes false) bytes true + (sum_words bytes + sum_words bytes)) % 65535 ≡ 0
unfolding sum_words
two_parts-valid = checksum-continues bytes bytes (omega arith)
