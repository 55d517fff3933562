-- ===== src/Servers/Directory/Lookup.antt =====
-- library/syscall/servers.c and tools/mkfs.c: `dir_lookup` finds what mkfs has written.
use egos.Base.{
  ℕ, zero, suc, ◌≤◌, ◌<◌, ◌≡◌, refl, sym, ◌∙◌, ap, Bool, true, false, ◌&&◌, ◌==◌, ltb,
  if◌then◌else◌, some, List, [], ◌∷◌, ◌++◌, length, arith, Bool-cases, inl, inr,
}
use mathlib.Core.List.{append_assoc}
use egos.Servers.Directory.{
  blank, is_digit, atoi, matches, drop, not_found, scan_names, dir_lookup, blanks, dir_entry, Entry,
  entry, listing,
}
use egos.Servers.Directory.Numbers.{HasNoBlank, digits, digits-IsNumber}

-- A name is not empty, has no blank, and does not start with a digit.
abbrev pub IsName : List ℕ → Type 0
IsName [] = ⊥
IsName (c ∷ cs) = (is_digit c ≡ false) × ((c == blank) ≡ false) × HasNoBlank cs

-- Inodes have at most three digits, so that a blank comes before the number.
abbrev pub AreEntries : List Entry → Type 0
AreEntries [] = Unit {0}
AreEntries (entry name ino ∷ entries) = IsName name × (ino < 1000) × AreEntries entries

abbrev pub same_name : List ℕ → List ℕ → Bool
same_name [] [] = true
same_name [] (d ∷ ds) = false
same_name (c ∷ cs) [] = false
same_name (c ∷ cs) (d ∷ ds) = (c == d) && same_name cs ds

-- The inode of the first entry with the name, or -1.
unfoldable pub inode_of : List Entry → List ℕ → ℕ
inode_of [] name = not_found
inode_of (entry n ino ∷ entries) name =
    let later = inode_of entries name in if same_name name n then ino else later

-- The loop without the bound.
find : List ℕ → Bool → List ℕ → ℕ
find name start [] = not_found
find name start (c ∷ cs) =
    let next = find name (c == blank) cs in
    if matches name (c ∷ cs) && start then atoi (drop (length name) (c ∷ cs)) else next

matches-short : (name cs : List ℕ) → length cs ≤ length name → matches name cs ≡ false
unfolding matches
matches-short [] [] le = refl
matches-short [] (c ∷ cs) le = absurd (omega (arith, le))
matches-short (n ∷ ns) [] le = refl
matches-short (n ∷ ns) (c ∷ cs) le = ground (arith, matches-short ns cs (omega (arith, le)))

find-short :
    (name : List ℕ) (start : Bool) (cs : List ℕ)
    → length cs ≤ length name
    → find name start cs ≡ not_found
unfolding find
find-short name start [] le = refl
find-short name start (c ∷ cs) le =
    rw (matches-short name (c ∷ cs) le) (find-short name (c == blank) cs (omega (arith, le)))

scan_names-find :
    (name : List ℕ) (start : Bool) (cs : List ℕ) → scan_names name start cs ≡ find name start cs
unfolding scan_names find
scan_names-find name start [] = refl
scan_names-find name start (c ∷ cs) = elim (Bool-cases (ltb (length name) (length (c ∷ cs)))) [
  | inl longer ↦ rw (longer, scan_names-find name (c == blank) cs) refl
  | inr short ↦ rw short (sym (find-short name start (c ∷ cs) (ground arith)))
]

-- Within a word no name starts.
skip_word :
    (name w rest : List ℕ)
    → HasNoBlank w
    → find name false (w ++ blank ∷ rest) ≡ find name true rest
unfolding find
skip_word name [] rest all = ground arith
skip_word name (c ∷ w) rest (ne, all) =
    let never : (matches name (c ∷ w ++ blank ∷ rest) && false) ≡ false = ground arith in
    rw (never, ne) (skip_word name w rest all)

module _ (n : ℕ) (ns : List ℕ) (is_name : IsName (n ∷ ns)) where
  abbrev name : List ℕ
  name = n ∷ ns

  skip_blank : (rest : List ℕ) → find name true (blank ∷ rest) ≡ find name true rest
  unfolding find matches
  skip_blank rest = let ne = is_name.1 in rw ne refl

  skip_blanks : (k : ℕ) (rest : List ℕ) → find name true (blanks k rest) ≡ find name true rest
  skip_blanks zero rest = refl
  skip_blanks (suc k) rest = skip_blank (blanks k rest) ∙ skip_blanks k rest

  -- Another word.
  skip_other :
      (c : ℕ) (w rest : List ℕ)
      → (c == blank) ≡ false
      → HasNoBlank w
      → matches name (c ∷ w ++ blank ∷ rest) ≡ false
      → find name true (c ∷ w ++ blank ∷ rest) ≡ find name true rest
  unfolding find
  skip_other c w rest ne all other = rw (other, ne) (skip_word name w rest all)

matches-same_name :
    (name w rest : List ℕ)
    → HasNoBlank name
    → HasNoBlank w
    → matches name (w ++ blank ∷ rest) ≡ same_name name w
unfolding matches
matches-same_name [] [] rest all all' = refl
matches-same_name [] (c ∷ w) rest all all' = all'.0
matches-same_name (n ∷ ns) [] rest all all' = rw all.0 refl
matches-same_name (n ∷ ns) (c ∷ w) rest all all' =
    ap (λ b. (n == c) && b) (matches-same_name ns w rest all.1 all'.1)

same_name-eq : (xs ys : List ℕ) → same_name xs ys ≡ true → xs ≡ ys
same_name-eq [] [] h = refl
same_name-eq [] (y ∷ ys) h = absurd (ground arith)
same_name-eq (x ∷ xs) [] h = absurd (ground arith)
same_name-eq (x ∷ xs) (y ∷ ys) h =
    let head : x ≡ y = ground arith in
    let tail : same_name xs ys ≡ true = ground arith in rw (head, same_name-eq xs ys tail) refl

blanks-append : (k : ℕ) (xs ys : List ℕ) → blanks k xs ++ ys ≡ blanks k (xs ++ ys)
blanks-append zero xs ys = refl
blanks-append (suc k) xs ys = rw (blanks-append k xs ys) refl

drop-append : (xs ys : List ℕ) → drop (length xs) (xs ++ ys) ≡ ys
drop-append [] ys = refl
drop-append (x ∷ xs) ys = drop-append xs ys

module _ (n : ℕ) (ns : List ℕ) (is_name : IsName (n ∷ ns)) where
  skip_number :
      (ino : ℕ) (rest : List ℕ) (k d : ℕ) (ds : List ℕ)
      → is_digit d ≡ true
      → HasNoBlank ds
      → find (n ∷ ns) true (blanks k (d ∷ ds) ++ blank ∷ rest) ≡ find (n ∷ ns) true rest
  unfolding matches
  skip_number ino rest k d ds digit all =
      let no_digit = is_name.0 in
      let ne : (d == blank) ≡ false = ground arith in
      let other : (n == d) ≡ false = ground arith in
      let no : matches (n ∷ ns) (d ∷ ds ++ blank ∷ rest) ≡ false = rw other refl in
      rw (blanks-append k (d ∷ ds) (blank ∷ rest)) (
        skip_blanks n ns is_name k (d ∷ ds ++ blank ∷ rest)
        ∙ skip_other n ns is_name d ds rest ne all no)

  find-entry :
      (m : ℕ) (ms : List ℕ) (ino : ℕ) (rest : List ℕ)
      → IsName (m ∷ ms)
      → ino < 1000
      → find (n ∷ ns) true ((m ∷ ms) ++ (digits ino ++ blank ∷ rest))
        ≡ (if same_name (n ∷ ns) (m ∷ ms) then ino else find (n ∷ ns) true rest)
  unfolding find
  find-entry m ms ino rest is_name' lt =
      let (k, d, ds, e, digit, all, number) = digits-IsNumber ino lt in
      let tail = blanks k (d ∷ ds) ++ blank ∷ rest in
      let words : digits ino ++ blank ∷ rest ≡ blank ∷ tail = rw e refl in
      let match : matches (n ∷ ns) ((m ∷ ms) ++ blank ∷ tail) ≡ same_name (n ∷ ns) (m ∷ ms) =
        matches-same_name (n ∷ ns) (m ∷ ms) tail (is_name.1, is_name.2) (is_name'.1, is_name'.2) in
      elim (Bool-cases (same_name (n ∷ ns) (m ∷ ms))) [
        | inl same ↦
            let at : length (n ∷ ns) ≡ length (m ∷ ms) =
              ap length (same_name-eq (n ∷ ns) (m ∷ ms) same) in
            let left : drop (length (n ∷ ns)) ((m ∷ ms) ++ blank ∷ tail) ≡ blank ∷ tail =
              ap (λ k. drop k ((m ∷ ms) ++ blank ∷ tail)) at
              ∙ drop-append (m ∷ ms) (blank ∷ tail) in
            rw (words, match, same) (ap atoi left ∙ ap atoi (sym words) ∙ number rest)
        | inr other ↦
            rw (words, other)
              (skip_other n ns is_name m ms tail is_name'.1 is_name'.2 (match ∙ other)
                ∙ skip_number ino rest k d ds digit all)
      ]

  find-listing :
      (entries : List Entry)
      → AreEntries entries
      → find (n ∷ ns) true (listing entries) ≡ inode_of entries (n ∷ ns)
  unfolding listing inode_of dir_entry digits find
  find-listing [] all = refl
  find-listing (entry [] ino ∷ entries) all = absurd all.0
  find-listing (entry (m ∷ ms) ino ∷ entries) all =
      let shape : dir_entry (m ∷ ms) ino ++ listing entries
          ≡ (m ∷ ms) ++ (digits ino ++ blank ∷ listing entries) =
        ap (λ l. l ++ listing entries) (append_assoc (m ∷ ms) (digits ino) (blank ∷ []))
        ∙ append_assoc (m ∷ ms) (digits ino ++ blank ∷ []) (listing entries)
        ∙ ap (λ l. (m ∷ ms) ++ l) (append_assoc (digits ino) (blank ∷ []) (listing entries)) in
      let rest = find-listing entries all.2 in
      ap (λ l. find (n ∷ ns) true l) shape
      ∙ find-entry m ms ino (listing entries) all.0 all.1
      ∙ ap (λ i. if same_name (n ∷ ns) (m ∷ ms) then ino else i) rest

-- `dir_lookup` of a name in a directory that mkfs has written returns the inode of the first
-- entry with that name, and -1 if there is none. The name, which is not longer than the
-- directory, and those of the entries are not empty, have no blank, and do not start with a
-- digit; the inodes have at most three digits.
pub dir_lookup-inode_of :
    (name : List ℕ) (entries : List Entry)
    → IsName name
    → AreEntries entries
    → length name ≤ length (listing entries)
    → dir_lookup (listing entries) name ≡ some (inode_of entries name)
unfolding dir_lookup
dir_lookup-inode_of [] entries is_name all le = absurd is_name
dir_lookup-inode_of (n ∷ ns) entries is_name all le =
    let fits : ltb (length (listing entries)) (length (n ∷ ns)) ≡ false = ground arith in
    rw
      (fits, scan_names-find (n ∷ ns) true (listing entries), find-listing n ns is_name entries all)
      refl
