-- ===== src/Programs.antt =====
-- apps/user: the programs cd, ls, cat and echo. `dir_lookup` and `file_read` are arguments, and what
-- a program prints is a result. A string is the list of the characters before its null byte.
pub mod Paths
pub mod Cd
pub mod Names
mod Examples
use egos.Base.{
  ℕ, zero, suc, ◌+◌, ◌-◌, Bool, true, false, not, ◌&&◌, leb, ltb, ◌==◌, if◌then◌else◌, Option, none,
  some, List, [], ◌∷◌, ◌++◌, length,
}
use egos.Kernel.Scheduler.{◌>>=◌}

abbrev pub slash : ℕ
slash = 47

abbrev pub blank : ℕ
blank = 32

-- Character k, or the null byte.
abbrev pub char_at : List ℕ → ℕ → ℕ
char_at [] k = 0
char_at (c ∷ cs) zero = c
char_at (c ∷ cs) (suc k) = char_at cs k

abbrev pub take : ℕ → List ℕ → List ℕ
take zero cs = []
take (suc n) [] = []
take (suc n) (c ∷ cs) = c ∷ take n cs

-- strcmp(a, b) == 0
abbrev pub strings_eq : List ℕ → List ℕ → Bool
strings_eq [] [] = true
strings_eq [] (d ∷ ds) = false
strings_eq (c ∷ cs) [] = false
strings_eq (c ∷ cs) (d ∷ ds) = (c == d) && strings_eq cs ds

-- The result -1 of dir_lookup and of main.
abbrev pub minus_one : ℕ
minus_one = 4294967295

-- `workdir` and `workdir_ino` of app.h, and the result of main.
pub record WorkDir : Type 0 where
  pub workdir : List ℕ
  pub workdir_ino : ℕ

-- if (argv[1][strlen(argv[1]) - 1] != '/') strcat(argv[1], "/"); the shell passes no
-- argument that is empty.
abbrev pub with_slash : List ℕ → List ℕ
with_slash arg = if char_at arg (length arg - 1) == slash then arg else arg ++ slash ∷ []

-- while (workdir[len] != '/') workdir[len--] = 0; `none` leaves the array. What is set to null
-- bytes lies behind the result.
unfoldable pub last_slash : ℕ → List ℕ → Option ℕ
last_slash zero workdir = if char_at workdir 0 == slash then some 0 else none
last_slash (suc len) workdir =
    let rest = last_slash len workdir in
    if char_at workdir (suc len) == slash then some (suc len) else rest

-- if (len) workdir[len] = 0
abbrev pub cut_at : ℕ → List ℕ → List ℕ
cut_at len workdir = if len == 0 then take 1 workdir else take len workdir

abbrev pub home_dir : List ℕ
home_dir = 104 ∷ 111 ∷ 109 ∷ 101 ∷ slash ∷ []

abbrev pub user_dir : List ℕ
user_dir = 121 ∷ 117 ∷ 110 ∷ 104 ∷ 97 ∷ 111 ∷ slash ∷ []

abbrev pub this_dir : List ℕ
this_dir = 46 ∷ slash ∷ []

abbrev pub parent_dir : List ℕ
parent_dir = 46 ∷ 46 ∷ slash ∷ []

-- The path for a directory that has been found.
unfoldable pub enter_path : List ℕ → List ℕ → Option (List ℕ)
enter_path arg workdir =
    if strings_eq parent_dir arg
    then (last_slash (length workdir) workdir >>= λ len. some (cut_at len workdir))
    else some (
        (if ltb 1 (length workdir) then workdir ++ slash ∷ [] else workdir)
        ++ take (length arg - 1) arg)

module _ (dir_lookup : ℕ → List ℕ → ℕ) where
  -- With the arguments behind the name of the program. The result is that of main.
  unfoldable pub cd : List (List ℕ) → WorkDir → Option (ℕ × WorkDir)
  cd [] w = some (
    0,
    record {
      workdir = slash ∷ 104 ∷ 111 ∷ 109 ∷ 101 ∷ slash ∷ 121 ∷ 117 ∷ 110 ∷ 104 ∷ 97 ∷ 111 ∷ [];
      workdir_ino = dir_lookup (dir_lookup 0 home_dir) user_dir;
    },
  )
  cd (arg ∷ args) w =
      let arg = with_slash arg in
      let dir_ino = dir_lookup w.workdir_ino arg in
      if dir_ino == minus_one
      then some (minus_one, w)
      else if strings_eq this_dir arg
      then some (0, record w { workdir_ino = dir_ino })
      else (enter_path arg w.workdir >>= λ path.
          some (0, record { workdir = path; workdir_ino = dir_ino }))

-- The loop that removes the numbers, after the character `before`.
unfoldable pub remove_numbers : ℕ → List ℕ → List ℕ
remove_numbers before [] = []
remove_numbers before (c ∷ cs) =
    let c' = if (before == blank) && (leb 48 c && leb c 57) then blank else c in
    c' ∷ remove_numbers c' cs

-- The loop starts with the second character.
unfoldable pub listed : List ℕ → List ℕ
listed [] = []
listed (c ∷ cs) = c ∷ remove_numbers c cs

abbrev pub newline : List ℕ
newline = 10 ∷ 13 ∷ []

module _ (file_read : ℕ → List ℕ) where
  -- What is printed; `none` is the result -1.
  unfoldable pub ls : List (List ℕ) → ℕ → Option (List ℕ)
  ls [] workdir_ino = some (listed (file_read workdir_ino) ++ newline)
  ls (arg ∷ args) workdir_ino = none

  -- The first block of the file, as the string that starts there. For an empty one the code
  -- looks at the character before the array, which is no newline here.
  unfoldable pub cat : (ℕ → List ℕ → ℕ) → List (List ℕ) → ℕ → Option (List ℕ)
  cat dir_lookup [] workdir_ino = none
  cat dir_lookup (name ∷ (more ∷ args)) workdir_ino = none
  cat dir_lookup (name ∷ []) workdir_ino =
      let file_ino = dir_lookup workdir_ino name in
      if leb 2147483648 file_ino
      then none
      else (let buf = file_read file_ino in
          some (if char_at buf (length buf - 1) == 10 then buf else buf ++ newline))

unfoldable pub echo : List (List ℕ) → List ℕ
echo [] = newline
echo (arg ∷ args) = arg ++ blank ∷ echo args
