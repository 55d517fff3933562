-- ===== src/Programs/Cd.antt =====
-- apps/user/cd.c: where cd leads.
use egos.Base.{
  ℕ, ◌<◌, ◌≡◌, refl, ap, ◌∙◌, true, false, ◌&&◌, ◌==◌, if◌then◌else◌, Option, some, List, [], ◌∷◌,
  ◌++◌, length, arith, Bool-cases, inl, inr,
}
use egos.Programs.{slash, strings_eq, minus_one, WorkDir, with_slash, parent_dir, enter_path, cd}
use egos.Programs.Paths.{path, parent, HasNoSlash, AreNames, up, down, with_slash-name}

strings_eq-slash :
    (xs ys : List ℕ)
    → HasNoSlash xs
    → HasNoSlash ys
    → strings_eq (xs ++ slash ∷ []) (ys ++ slash ∷ []) ≡ strings_eq xs ys
strings_eq-slash [] [] clean clean' = refl
strings_eq-slash [] (y ∷ ys) clean clean' = ground (arith, clean'.0)
strings_eq-slash (x ∷ []) [] clean clean' = ground (arith, clean.0)
strings_eq-slash (x ∷ (x' ∷ xs)) [] clean clean' = ground (arith, clean.0)
strings_eq-slash (x ∷ xs) (y ∷ ys) clean clean' =
    ap (λ b. (x == y) && b) (strings_eq-slash xs ys clean.1 clean'.1)

-- Where a name leads: . stays, .. goes to the parent.
unfoldable pub moved : List ℕ → List (List ℕ) → List (List ℕ)
moved name names =
    if strings_eq (46 ∷ []) name
    then names
    else if strings_eq (46 ∷ 46 ∷ []) name
    then parent names
    else name ∷ names

-- The inode of the directory that the name leads to from the working directory.
abbrev pub destination : (ℕ → List ℕ → ℕ) → List ℕ → WorkDir → ℕ
destination dir_lookup name w = dir_lookup w.workdir_ino (name ++ slash ∷ [])

-- The result of cd: -1 and nothing else if there is no such directory.
abbrev pub Moves :
    (ℕ → List ℕ → ℕ) → List ℕ → List (List ℕ) → WorkDir → Option (ℕ × WorkDir) → Type 0
Moves dir_lookup name names w result =
    let ino = destination dir_lookup name w in
    result
    ≡ some (
        if ino == minus_one
        then (minus_one, w)
        else (0, record { workdir = path (moved name names); workdir_ino = ino }))

module _ (dir_lookup : ℕ → List ℕ → ℕ) (name : List ℕ) (names : List (List ℕ)) (w : WorkDir)
    (clean : HasNoSlash name) (some_name : 0 < length name) (are : AreNames names)
    (at : w.workdir ≡ path names) where
  abbrev ino : ℕ
  ino = destination dir_lookup name w

  abbrev Result : Option (ℕ × WorkDir) → Type 0
  Result result = Moves dir_lookup name names w result

  enter_path-moved :
      strings_eq (46 ∷ []) name ≡ false
      → enter_path (name ++ slash ∷ []) (path names) ≡ some (path (moved name names))
  unfolding enter_path moved
  enter_path-moved not_this =
      let same = strings_eq-slash (46 ∷ 46 ∷ []) name (refl, (refl, tt)) clean in
      elim (Bool-cases (strings_eq (46 ∷ 46 ∷ []) name)) [
        | inl goes_up ↦
            let test : strings_eq parent_dir (name ++ slash ∷ []) ≡ true = same ∙ goes_up in
            rw (test, not_this, goes_up) (up names are)
        | inr goes_down ↦ down name names (same ∙ goes_down) are ∙ rw (not_this, goes_down) refl
      ]

  stays_lem :
      strings_eq (46 ∷ []) name ≡ true
      → ◌≡◌ {A = Option (ℕ × WorkDir)}
          (some (0, record w { workdir_ino = ino }))
          (some (0, record { workdir = path (moved name names); workdir_ino = ino }))
  unfolding moved
  stays_lem stays =
      rw stays (ap (λ (p : List ℕ). some (0, record { workdir = p; workdir_ino = ino })) at)

  -- The argument ends with a slash by now.
  moves :
      (arg : List ℕ) (args : List (List ℕ))
      → with_slash arg ≡ name ++ slash ∷ []
      → Result (cd dir_lookup (arg ∷ args) w)
  unfolding cd
  moves arg args e = rw e (elim (Bool-cases (ino == minus_one)) [
    | inl missing ↦ rw missing refl
    | inr found ↦
        let this = strings_eq-slash (46 ∷ []) name (refl, tt) clean in
        elim (Bool-cases (strings_eq (46 ∷ []) name)) [
          | inl stays ↦ rw (found, this ∙ stays) (stays_lem stays)
          | inr goes ↦
              let entered = ap (enter_path (name ++ slash ∷ [])) at ∙ enter_path-moved goes in
              rw (found, this ∙ goes, entered) refl
        ]
  ])

  -- Let the working directory be the path of a list of names that are not empty and have no
  -- slash. Then cd to such a name, with or without a slash behind it, returns. If `dir_lookup`
  -- does not find the directory, the result is -1 and nothing changes. Otherwise the result is
  -- 0, the inode is the one found, and the path is that of the list of names in which .
  -- changes nothing, .. removes the last name (if there is one), and any other name is added.
  pub cd-Moves :
      (args : List (List ℕ))
      → Result (cd dir_lookup (name ∷ args) w)
        × Result (cd dir_lookup ((name ++ slash ∷ []) ∷ args) w)
  cd-Moves args =
      let (e, e') = with_slash-name name (clean, some_name) in
      (moves name args e, moves (name ++ slash ∷ []) args e')
