-- ===== src/Programs/Examples.antt =====
-- apps/user: cd and ls.
use Prim.Native.Char.{code}
use Prim.Native.String.{String}
use egos.Base.{ℕ, ◌≡◌, refl, some, List, [], ◌∷◌, ◌++◌, arith}
use egos.Servers.Directory.{Entry, entry, listing}
use egos.Programs.{WorkDir, cd, enter_path, last_slash, ls, newline, slash, cat, echo}
use egos.Programs.Cd.{Moves, cd-Moves}
use egos.Programs.Names.{names_only, ls-names_only}

abbrev codes : String → List ℕ
codes String.[] = []
codes (String.◌∷◌ c s) = code c ∷ codes s

-- Every directory is found in inode 3.
abbrev lookup : ℕ → List ℕ → ℕ
lookup ino name = 3

abbrev home : WorkDir
home = record { workdir = codes "/home"; workdir_ino = 1 }

cd-Moves_example :
    Moves lookup (codes "rvr") (codes "home" ∷ []) home (cd lookup (codes "rvr" ∷ []) home)
    × Moves lookup
        (codes "rvr")
        (codes "home" ∷ [])
        home
        (cd lookup ((codes "rvr" ++ slash ∷ []) ∷ []) home)
cd-Moves_example =
    cd-Moves lookup (codes "rvr") (codes "home" ∷ []) home (refl, (refl, (refl, tt))) (omega arith)
      ((refl, (refl, (refl, (refl, tt)))), tt) refl []

-- Up from the directory.
up_again :
    cd lookup (codes ".." ∷ []) home ≡ some (0, record { workdir = codes "/"; workdir_ino = 3 })
unfolding cd enter_path last_slash
up_again = refl

abbrev entries : List Entry
entries = entry (codes "./") 2 ∷ entry (codes "README") 15 ∷ []

ls-names_only_example : ls (λ ino. listing entries) [] 2 ≡ some (names_only entries ++ newline)
ls-names_only_example =
    ls-names_only (λ ino. listing entries) 2 entries
      (
        (refl, refl, (refl, tt)),
        omega arith,
        ((refl, refl, (refl, (refl, (refl, (refl, (refl, tt)))))), omega arith, tt),
      )
      refl

cat_text : cat (λ ino. codes "text") lookup (codes "README" ∷ []) 2 ≡ some (codes "text" ++ newline)
unfolding cat
cat_text = refl

echo_words : echo (codes "a" ∷ codes "b" ∷ []) ≡ codes "a b " ++ newline
unfolding echo
echo_words = refl
