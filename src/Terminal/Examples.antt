-- ===== src/Terminal/Examples.antt =====
-- library/syscall/servers.c on the keys l, x, backspace, s, enter.
use egos.Base.{refl, [], ◌∷◌, arith}
use egos.Terminal.{term_read}
use egos.Terminal.Line.{edit, Reads, term_read-Reads}

term_read-Reads_example :
    Reads 256 (115 ∷ 108 ∷ []) (term_read 256 (λ i. 7) (108 ∷ 120 ∷ 0x7F ∷ 115 ∷ 0x0D ∷ []))
unfolding edit
term_read-Reads_example =
    term_read-Reads 256 (λ i. 7) (108 ∷ 120 ∷ 0x7F ∷ 115 ∷ 0x0D ∷ []) (omega arith) (omega arith)
      refl
