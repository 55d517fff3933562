-- ===== src/Programs/Names.antt =====
-- apps/user/ls.c: what ls prints of a directory that mkfs has written.
use egos.Base.{
  ℕ, ◌+◌, ◌/◌, ◌%◌, ◌<◌, ◌≡◌, refl, ap, ◌∙◌, false, ◌&&◌, ltb, ◌==◌, some, List, [], ◌∷◌, ◌++◌,
  arith, Bool-cases, inl, inr,
}
use mathlib.Core.List.{append_assoc}
use egos.Servers.Directory.{is_digit, blanks, dir_entry, Entry, entry, listing}
use egos.Servers.Directory.Numbers.{
  HasNoBlank, digits, digit_char, decimal-one, decimal-two, decimal-three,
}
use egos.Servers.Directory.Lookup.{AreEntries}
use egos.Programs.{blank, remove_numbers, listed, newline, ls}

-- Each name with five blanks in place of its number.
abbrev pub names_only : List Entry → List ℕ
names_only [] = []
names_only (entry name ino ∷ entries) = name ++ blanks 5 (names_only entries)

remove_numbers-blank :
    (before : ℕ) (cs : List ℕ)
    → remove_numbers before (blank ∷ cs) ≡ blank ∷ remove_numbers blank cs
unfolding remove_numbers
remove_numbers-blank before cs = elim (Bool-cases (before == blank)) [
  | inl after ↦ rw after refl
  | inr within ↦ rw within refl
]

remove_numbers-digit :
    (a : ℕ) (cs : List ℕ)
    → a < 10
    → remove_numbers blank ((48 + a) ∷ cs) ≡ blank ∷ remove_numbers blank cs
unfolding remove_numbers
remove_numbers-digit a cs lt = let digit = digit_char a lt in rw digit refl

-- A number becomes blanks.
remove_numbers-digits :
    (before ino : ℕ) (rest : List ℕ)
    → ino < 1000
    → remove_numbers before (digits ino ++ blank ∷ rest) ≡ blanks 5 (remove_numbers blank rest)
unfolding digits
remove_numbers-digits before ino rest lt = elim (Bool-cases (ltb ino 10)) [
  | inl one ↦
      let units = λ (cs : List ℕ). remove_numbers-digit ino cs (ground arith) in
      rw (decimal-one ino (ground arith)) (simp (remove_numbers-blank, units))
  | inr more ↦ elim (Bool-cases (ltb ino 100)) [
    | inl two ↦
        let tens = λ (cs : List ℕ). remove_numbers-digit (ino / 10) cs (ground arith) in
        let units = λ (cs : List ℕ). remove_numbers-digit (ino % 10) cs (omega arith) in
        rw (decimal-two ino (ground arith) (ground arith))
          (simp (remove_numbers-blank, tens, units))
    | inr three ↦
        let hundreds =
          λ (cs : List ℕ). remove_numbers-digit (ino / 10 / 10) cs (omega (arith, lt)) in
        let tens = λ (cs : List ℕ). remove_numbers-digit (ino / 10 % 10) cs (omega arith) in
        let units = λ (cs : List ℕ). remove_numbers-digit (ino % 10) cs (omega arith) in
        rw (decimal-three ino (ground arith) lt)
          (simp (remove_numbers-blank, hundreds, tens, units))
  ]
]

-- The characters of a name that follow its first.
remove_numbers-word :
    (before : ℕ) (w tail result : List ℕ)
    → (before == blank) ≡ false
    → HasNoBlank w
    → ((b : ℕ) → remove_numbers b tail ≡ result)
    → remove_numbers before (w ++ tail) ≡ w ++ result
unfolding remove_numbers
remove_numbers-word before [] tail result within clean ends = ends before
remove_numbers-word before (c ∷ w) tail result within clean ends =
    rw within (ap (λ cs. c ∷ cs) (remove_numbers-word c w tail result clean.0 clean.1 ends))

remove_numbers-entry :
    (before c : ℕ) (cs : List ℕ) (ino : ℕ) (rest : List ℕ)
    → is_digit c ≡ false
    → (c == blank) ≡ false
    → HasNoBlank cs
    → ino < 1000
    → remove_numbers before ((c ∷ cs) ++ (digits ino ++ blank ∷ rest))
      ≡ (c ∷ cs) ++ blanks 5 (remove_numbers blank rest)
unfolding remove_numbers
remove_numbers-entry before c cs ino rest letter within clean lt =
    let kept : ((before == blank) && is_digit c) ≡ false = ground (arith, letter) in
    rw kept (
      ap (λ cs. c ∷ cs)
        (remove_numbers-word c cs (digits ino ++ blank ∷ rest) _ within clean
          (λ b. remove_numbers-digits b ino rest lt)))

entry_shape :
    (name : List ℕ) (ino : ℕ) (entries : List Entry)
    → dir_entry name ino ++ listing entries ≡ name ++ (digits ino ++ blank ∷ listing entries)
unfolding dir_entry digits
entry_shape name ino entries =
    ap (λ l. l ++ listing entries) (append_assoc name (digits ino) (blank ∷ []))
    ∙ append_assoc name (digits ino ++ blank ∷ []) (listing entries)
    ∙ ap (λ l. name ++ l) (append_assoc (digits ino) (blank ∷ []) (listing entries))

remove_numbers-listing :
    (before : ℕ) (entries : List Entry)
    → AreEntries entries
    → remove_numbers before (listing entries) ≡ names_only entries
unfolding remove_numbers listing
remove_numbers-listing before [] are = refl
remove_numbers-listing before (entry [] ino ∷ entries) are = absurd are.0
remove_numbers-listing before (entry (c ∷ cs) ino ∷ entries) (is_name, lt, are) =
    ap (remove_numbers before) (entry_shape (c ∷ cs) ino entries)
    ∙ remove_numbers-entry before c cs ino (listing entries) is_name.0 is_name.1 is_name.2 lt
    ∙ ap (λ l. (c ∷ cs) ++ blanks 5 l) (remove_numbers-listing blank entries are)

-- The first character is kept, as behind a null byte.
listed-remove_numbers : (cs : List ℕ) → listed cs ≡ remove_numbers 0 cs
unfolding listed remove_numbers
listed-remove_numbers [] = refl
listed-remove_numbers (c ∷ cs) = refl

-- Let the working directory contain what mkfs writes for entries whose names are not empty,
-- start with no digit and have no blank, and whose inodes are below 1000. Then ls without
-- arguments prints the names, each with five blanks in place of its number, and ends the line.
pub ls-names_only :
    (file_read : ℕ → List ℕ) (workdir_ino : ℕ) (entries : List Entry)
    → AreEntries entries
    → file_read workdir_ino ≡ listing entries
    → ls file_read [] workdir_ino ≡ some (names_only entries ++ newline)
unfolding ls
ls-names_only file_read workdir_ino entries are is_dir =
    ap (λ buf. some (listed buf ++ newline)) is_dir
    ∙ ap (λ l. some (l ++ newline))
        (listed-remove_numbers (listing entries) ∙ remove_numbers-listing 0 entries are)
