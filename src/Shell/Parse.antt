-- ===== src/Shell/Parse.antt =====
-- apps/system/sys_shell.c: `parse_request` splits the line into words.
use egos.Base.{
  ℕ, zero, suc, ◌+◌, ◌<◌, ◌≡◌, refl, ◌∙◌, true, false, some, List, [], ◌∷◌, ◌++◌, leb, ◌==◌,
  if◌then◌else◌, update, arith, fun_ext, ==_refl, Bool-cases, inl, inr, length, length-append,
  eq_of_some, not_none,
}
use egos.Shell.{Argv, Request, cmd_nargs, cmd_arg_len, space, set_char, parse_loop, parse_request}

-- The words of a line, with the characters `cur` of a word that has begun.
unfoldable pub split : List ℕ → List ℕ → List (List ℕ)
split [] [] = []
split (a ∷ cur) [] = (a ∷ cur) ∷ []
split [] (c ∷ buf) = if c == space then split [] buf else split (c ∷ []) buf
split (a ∷ cur) (c ∷ buf) =
    if c == space then (a ∷ cur) ∷ split [] buf else split ((a ∷ cur) ++ c ∷ []) buf

unfoldable pub words : List ℕ → List (List ℕ)
words buf = split [] buf

-- A word as the row of argv that holds it, with null bytes behind it.
pub row : List ℕ → ℕ → ℕ
row [] j = 0
row (c ∷ w) zero = c
row (c ∷ w) (suc j) = row w j

-- Rows from `nargs` on hold the words.
abbrev pub Rows : ℕ → List (List ℕ) → Argv → Type 0
Rows nargs [] argv = Unit {0}
Rows nargs (w ∷ ws) argv = (argv nargs ≡ row w) × Rows (suc nargs) ws argv

row-snoc_at : (cur : List ℕ) (c j : ℕ) → update (row cur) (length cur) c j ≡ row (cur ++ c ∷ []) j
unfolding row
row-snoc_at [] c zero = refl
row-snoc_at [] c (suc j) = ground arith
row-snoc_at (a ∷ cur) c zero = ground arith
row-snoc_at (a ∷ cur) c (suc j) = ground (arith, row-snoc_at cur c j)

row_end_at : (cur : List ℕ) (j : ℕ) → update (row cur) (length cur) 0 j ≡ row cur j
unfolding row
row_end_at [] j = ground arith
row_end_at (a ∷ cur) zero = ground arith
row_end_at (a ∷ cur) (suc j) = ground (arith, row_end_at cur j)

pub split-char :
    (cur : List ℕ) (c : ℕ) (buf : List ℕ)
    → (c == space) ≡ false
    → split cur (c ∷ buf) ≡ split (cur ++ c ∷ []) buf
unfolding split
split-char [] c buf other = rw other refl
split-char (a ∷ cur) c buf other = rw other refl

-- What the loop returns from row `nargs` on, with the characters `cur` in that row.
record Parsed (nargs : ℕ) (ws : List (List ℕ)) (argv : Argv) (r : Request) : Type 0 where
  count : r.argc ≡ nargs + length ws
  rows : Rows nargs ws r.argv
  kept : (n : ℕ) → n < nargs → r.argv n ≡ argv n

-- A character goes to the end of the word that has begun.
set_char-row :
    (cur : List ℕ) (idx nargs c : ℕ) (argv : Argv)
    → idx ≡ length cur
    → argv nargs ≡ row cur
    → set_char argv nargs idx c nargs ≡ row (cur ++ c ∷ [])
set_char-row cur idx nargs c argv at here =
    rw (==_refl nargs, here, at) (fun_ext (row-snoc_at cur c))

Parsed-char :
    (cur : List ℕ) (idx nargs c : ℕ) (buf : List ℕ) (argv : Argv) (r : Request)
    → (c == space) ≡ false
    → Parsed nargs (split (cur ++ c ∷ []) buf) (set_char argv nargs idx c) r
    → Parsed nargs (split cur (c ∷ buf)) argv r
Parsed-char cur idx nargs c buf argv r other p =
    rw (split-char cur c buf other)
      (record { count = p.count; rows = p.rows; kept = λ n lt. ground (arith, p.kept n lt) })

-- A space ends the word.
Parsed-word :
    (cur : List ℕ) (idx nargs : ℕ) (buf : List ℕ) (argv : Argv) (r : Request)
    → idx ≡ length cur
    → argv nargs ≡ row cur
    → Parsed (suc nargs) (split [] buf) (set_char argv nargs idx 0) r
    → Parsed nargs (cur ∷ split [] buf) argv r
Parsed-word cur idx nargs buf argv r at here p = record {
  count = omega (arith, p.count);
  rows = (
    p.kept nargs (omega arith) ∙ rw (==_refl nargs, here, at) (fun_ext (row_end_at cur)),
    p.rows,
  );
  kept = λ n lt. ground (arith, p.kept n);
}

parse_loop-Parsed :
    (buf cur : List ℕ) (idx nargs : ℕ) (argv : Argv) (r : Request)
    → idx ≡ length cur
    → argv nargs ≡ row cur
    → ((n : ℕ) → nargs < n → argv n ≡ row [])
    → parse_loop idx nargs argv buf ≡ some r
    → Parsed nargs (split cur buf) argv r
unfolding parse_loop split
parse_loop-Parsed [] [] idx nargs argv r at here later e =
    let empty : (idx == 0) ≡ true = ground arith in
    rw (← eq_of_some (rw empty at e))
      (record { count = omega arith; rows = tt; kept = λ n lt. refl })
parse_loop-Parsed [] (a ∷ cur) idx nargs argv r at here later e =
    let begun : (idx == 0) ≡ false = ground arith in
    rw (← eq_of_some (rw begun at e))
      (record { count = omega arith; rows = (here, tt); kept = λ n lt. refl })
parse_loop-Parsed (c ∷ buf) [] idx nargs argv r at here later e = elim (Bool-cases (c == space)) [
  | inl blank ↦
      let empty : (idx == 0) ≡ true = ground arith in
      rw blank (parse_loop-Parsed buf [] idx nargs argv r at here later (rw (blank, empty) at e))
  | inr other ↦ elim (Bool-cases (leb cmd_arg_len (suc idx))) [
    | inl long ↦ absurd (not_none (rw (other, long) at e))
    | inr fits ↦ Parsed-char [] idx nargs c buf argv r other (
        parse_loop-Parsed buf (c ∷ []) (suc idx) nargs (set_char argv nargs idx c) r (omega arith)
          (set_char-row [] idx nargs c argv at here) (λ n lt. ground (arith, later n lt))
          (rw (other, fits) at e))
  ]
]
parse_loop-Parsed (c ∷ buf) (a ∷ cur) idx nargs argv r at here later e =
    elim (Bool-cases (c == space)) [
      | inl blank ↦
          let begun : (idx == 0) ≡ false = ground arith in
          elim (Bool-cases (leb cmd_nargs (suc nargs))) [
            | inl full ↦ absurd (not_none (rw (blank, begun, full) at e))
            | inr room ↦ rw blank (
                Parsed-word (a ∷ cur) idx nargs buf argv r at here (
                  parse_loop-Parsed buf [] 0 (suc nargs) (set_char argv nargs idx 0) r refl
                    (ground (arith, later (suc nargs))) (λ n lt. ground (arith, later n))
                    (rw (blank, begun, room) at e)))
          ]
      | inr other ↦ elim (Bool-cases (leb cmd_arg_len (suc idx))) [
        | inl long ↦ absurd (not_none (rw (other, long) at e))
        | inr fits ↦ Parsed-char (a ∷ cur) idx nargs c buf argv r other (
            parse_loop-Parsed buf ((a ∷ cur) ++ c ∷ []) (suc idx) nargs (set_char argv nargs idx c)
              r (omega (arith, length-append cur (c ∷ [])))
              (set_char-row (a ∷ cur) idx nargs c argv at here) (λ n lt. ground (arith, later n lt))
              (rw (other, fits) at e))
      ]
    ]

-- A line that `parse_request` accepts has been split at its spaces: argc is the number of its
-- words, and row i of argv holds word i with null bytes behind it.
pub parse_request-words :
    (buf : List ℕ) (r : Request)
    → parse_request buf ≡ some r
    → (r.argc ≡ length (words buf)) × Rows 0 (words buf) r.argv
unfolding parse_request words row
parse_request-words buf r e =
    let p =
      parse_loop-Parsed buf [] 0 0 (λ i j. 0) r refl (fun_ext (λ j. refl))
        (λ n lt. fun_ext (λ j. refl)) e in
    (omega (arith, p.count), p.rows)
