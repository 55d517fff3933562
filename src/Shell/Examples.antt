-- ===== src/Shell/Examples.antt =====
-- apps/system/sys_shell.c on the line "ls  -l".
use egos.Base.{ℕ, ◌≡◌, List, [], ◌∷◌, some, length, arith}
use egos.Shell.{Request, parse_request}
use egos.Shell.Parse.{split, words, Rows, parse_request-words}
use egos.Shell.Accepts.{parse_request-returns}

abbrev line : List ℕ
line = 108 ∷ 115 ∷ 32 ∷ 32 ∷ 45 ∷ 108 ∷ []

parse_request-returns_example : (r : Request) × (parse_request line ≡ some r)
unfolding words split
parse_request-returns_example =
    parse_request-returns line (omega arith, (omega arith, tt)) (omega arith)

parsed : (r : Request) × (parse_request line ≡ some r)
unfolding words split
parsed = parse_request-returns line (omega arith, (omega arith, tt)) (omega arith)

parse_request-words_example :
    (parsed.0.argc ≡ length (words line)) × Rows 0 (words line) parsed.0.argv
parse_request-words_example = parse_request-words line parsed.0 parsed.1
