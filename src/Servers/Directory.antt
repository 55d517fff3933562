-- ===== src/Servers/Directory.antt =====
-- library/syscall/servers.c and tools/mkfs.c: directories. A directory is a text, each entry of which
-- is a name and the number of its inode; mkfs writes it and `dir_lookup` searches it.
pub mod Numbers
pub mod Lookup
mod Examples
use egos.Base.{
  ℕ, zero, suc, ◌+◌, ◌-◌, ◌*◌, ◌/◌, ◌%◌, Bool, true, false, not, ◌&&◌, ◌||◌, ◌==◌, leb, ltb,
  if◌then◌else◌, Option, none, some, List, [], ◌∷◌, ◌++◌, length,
}

abbrev pub blank : ℕ
blank = 32

abbrev pub is_digit : ℕ → Bool
is_digit c = leb 48 c && leb c 57

-- isspace: the blank, and tab to carriage return.
abbrev pub is_space : ℕ → Bool
is_space c = (c == blank) || (leb 9 c && leb c 13)

-- The digits that follow, after a number so far.
pub digits_from : ℕ → List ℕ → ℕ
digits_from n [] = n
digits_from n (c ∷ cs) =
    let more = digits_from (n * 10 + (c - 48)) cs in if is_digit c then more else n

-- atoi; the directories hold no signs.
pub atoi : List ℕ → ℕ
unfolding digits_from
atoi [] = 0
atoi (c ∷ cs) = let rest = atoi cs in if is_space c then rest else digits_from 0 (c ∷ cs)

-- !strncmp(name, text, strlen(name)) && text[strlen(name)] == ' '
pub matches : List ℕ → List ℕ → Bool
matches [] [] = false
matches [] (c ∷ cs) = c == blank
matches (n ∷ ns) [] = false
matches (n ∷ ns) (c ∷ cs) = (n == c) && matches ns cs

abbrev pub drop : ℕ → List ℕ → List ℕ
drop zero cs = cs
drop (suc n) [] = []
drop (suc n) (c ∷ cs) = drop n cs

abbrev pub not_found : ℕ
not_found = 4294967295

-- The loop at the text that is left. `start` is i == 0 || buf[i - 1] == ' '. It goes on while more
-- characters are left than the name has.
pub scan_names : List ℕ → Bool → List ℕ → ℕ
unfolding matches atoi
scan_names name start [] = not_found
scan_names name start (c ∷ cs) =
    let next = scan_names name (c == blank) cs in
    if not (ltb (length name) (length (c ∷ cs)))
    then not_found
    else if matches name (c ∷ cs) && start
    then atoi (drop (length name) (c ∷ cs))
    else next

-- On the characters of the directory before the null byte. `none` is the search for a name that is
-- longer than the directory, where the bound of the loop wraps and it leaves the buffer.
pub dir_lookup : List ℕ → List ℕ → Option ℕ
unfolding scan_names
dir_lookup buf name =
    if ltb (length buf) (length name) then none else some (scan_names name true buf)

-- sprintf("%d"), with at most so many digits.
pub decimal : ℕ → ℕ → List ℕ
decimal zero n = []
decimal (suc fuel) n =
    let upper = decimal fuel (n / 10) in
    if ltb n 10 then (48 + n) ∷ [] else upper ++ (48 + n % 10) ∷ []

abbrev pub blanks : ℕ → List ℕ → List ℕ
blanks zero cs = cs
blanks (suc n) cs = blank ∷ blanks n cs

-- sprintf("%s%4d ", name, ino); an `int` has at most ten digits.
unfoldable pub dir_entry : List ℕ → ℕ → List ℕ
unfolding decimal
dir_entry name ino =
    let number = decimal 10 ino in name ++ blanks (4 - length number) number ++ blank ∷ []

-- A name and an inode.
pub data Entry : Type 0 where
  entry : List ℕ → ℕ → Entry

-- strcat of the entries.
unfoldable pub listing : List Entry → List ℕ
unfolding dir_entry
listing [] = []
listing (entry name ino ∷ entries) = dir_entry name ino ++ listing entries
