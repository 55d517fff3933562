-- ===== src/Servers/Terminal/Examples.antt =====
-- apps/system/sys_terminal.c: a line of two characters.
use egos.Base.{◌≡◌, refl, some, [], ◌∷◌, arith}
use egos.Terminal.Line.{edit}
use egos.Servers.Terminal.{AppRead, Tty, app_term_read}
use egos.Servers.Terminal.Calls.{GetsLine, app_term_read-GetsLine}

abbrev tty : Tty
tty = record { keys = 108 ∷ 120 ∷ 0x7F ∷ 115 ∷ 0x0D ∷ []; screen = [] }

app_term_read-GetsLine_example :
    (r : AppRead) × (tty' : Tty) × (app_term_read (λ i. 1) (λ i. 7) 256 tty ≡ some (r, tty'))
    × GetsLine (λ i. 7) (115 ∷ 108 ∷ []) r
unfolding edit
app_term_read-GetsLine_example =
    app_term_read-GetsLine (λ i. 1) (λ i. 7) 256 tty (omega arith) (omega arith) refl
