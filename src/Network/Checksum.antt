-- ===== src/Network/Checksum.antt =====
-- apps/user/udp_demo.c: what `checksum` computes.
use egos.Base.{ℕ, zero, suc, ◌+◌, ◌*◌, ◌%◌, ◌<◌, ◌≡◌, refl, true, false, List, [], ◌∷◌, arith}
use egos.Network.{add_words, fold_carries, complement, checksum}

-- The sum of the 16-bit big-endian words.
unfoldable pub sum_words : List ℕ → ℕ
sum_words [] = 0
sum_words (high ∷ []) = 0
sum_words (high ∷ low ∷ bytes) = high * 256 + low + sum_words bytes

abbrev pub AllBytes : List ℕ → Type 0
AllBytes [] = Unit {0}
AllBytes (b ∷ bytes) = (b < 256) × AllBytes bytes

add_words_lem :
    (r : ℕ) (bytes : List ℕ)
    → r < 4294967296
    → add_words r bytes ≡ (r + sum_words bytes) % 4294967296
unfolding add_words sum_words
add_words_lem r [] h = omega arith
add_words_lem r (high ∷ []) h = omega arith
add_words_lem r (high ∷ low ∷ bytes) h =
    omega (arith, add_words_lem ((r + (high * 256 + low)) % 4294967296) bytes (omega arith))

-- Folding ends below 2^16 within two rounds, and keeps the number modulo 2^16 - 1.
fold_carries_lem :
    (r : ℕ)
    → r < 4294967296
    → (fold_carries 2 r < 65536)
      × (fold_carries 2 r % 65535 ≡ r % 65535)
      × (0 < r → 0 < fold_carries 2 r)
unfolding fold_carries
fold_carries_lem r h = ground arith

-- For a 32-bit sum the loop that folds the carries ends within two rounds: further rounds
-- change nothing.
pub fold_carries-ends :
    (r fuel : ℕ) → r < 4294967296 → fold_carries (suc (suc fuel)) r ≡ fold_carries 2 r
unfolding fold_carries
fold_carries-ends r zero h = refl
fold_carries-ends r (suc fuel) h = ground arith

complement_lem :
    (f : ℕ)
    → f < 65536
    → ((complement f + f) % 65535 ≡ 0) × (0 < complement f) × (complement f < 65536)
unfolding complement
complement_lem f h = ground arith

-- Unless the sum overflows 32 bits, the checksum makes the ones' complement sum of the words
-- and itself zero, and it lies between 1 and 65535, so that it is never the value 0 that
-- stands for no checksum.
pub checksum-valid :
    (r : ℕ) (bytes : List ℕ)
    → r + sum_words bytes < 4294967296
    → ((checksum r bytes true + (r + sum_words bytes)) % 65535 ≡ 0)
      × (0 < checksum r bytes true)
      × (checksum r bytes true < 65536)
unfolding checksum
checksum-valid r bytes fits =
    let total = add_words_lem r bytes (omega arith) in
    let folded = fold_carries_lem (add_words r bytes) (omega (arith, total)) in
    let flipped = complement_lem (fold_carries 2 (add_words r bytes)) folded.0 in
    (omega arith, omega arith, omega arith)

-- A sum that is not complete is the sum of the words modulo 2^16 - 1.
checksum-partial :
    (r : ℕ) (bytes : List ℕ)
    → r + sum_words bytes < 4294967296
    → (checksum r bytes false % 65535 ≡ (r + sum_words bytes) % 65535)
      × (checksum r bytes false < 65536)
unfolding checksum
checksum-partial r bytes fits =
    let total = add_words_lem r bytes (omega arith) in
    let folded = fold_carries_lem (add_words r bytes) (omega (arith, total)) in
    (omega arith, omega arith)

-- Unless the sum overflows 32 bits, a checksum that starts from the partial sum of earlier
-- bytes is valid for both parts together.
pub checksum-continues :
    (bytes rest : List ℕ)
    → sum_words bytes + sum_words rest + 65536 < 4294967296
    → (checksum (checksum 0 bytes false) rest true + (sum_words bytes + sum_words rest)) % 65535 ≡ 0
checksum-continues bytes rest fits =
    let partial = checksum-partial 0 bytes (omega arith) in
    let whole = checksum-valid (checksum 0 bytes false) rest (omega arith) in omega arith
