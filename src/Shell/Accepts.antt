-- ===== src/Shell/Accepts.antt =====
-- apps/system/sys_shell.c: which lines `parse_request` accepts.
use egos.Base.{
  ℕ, suc, ◌+◌, ◌<◌, ◌≡◌, refl, true, false, some, List, [], ◌∷◌, ◌++◌, ◌==◌, arith, Bool-cases, inl,
  inr, length, length-append, lt→leb,
}
use egos.Shell.{Argv, Request, cmd_nargs, cmd_arg_len, space, set_char, parse_loop, parse_request}
use egos.Shell.Parse.{split, words}

-- Every word leaves room for a null byte in its row.
abbrev pub AllShort : List (List ℕ) → Type 0
AllShort [] = Unit {0}
AllShort (w ∷ ws) = (length w < cmd_arg_len) × AllShort ws

split-length :
    (buf : List ℕ) (a : ℕ) (cur : List ℕ)
    → AllShort (split (a ∷ cur) buf)
    → length (a ∷ cur) < cmd_arg_len
unfolding split
split-length [] a cur short = short.0
split-length (c ∷ buf) a cur short = elim (Bool-cases (c == space)) [
  | inl blank ↦ (rw blank at short).0
  | inr other ↦
      let longer = split-length buf a (cur ++ c ∷ []) (rw other at short) in
      omega (arith, longer, length-append cur (c ∷ []))
]

-- The line's words from here on fit into argv.
parse_loop-returns :
    (buf cur : List ℕ) (idx nargs : ℕ) (argv : Argv)
    → idx ≡ length cur
    → AllShort (split cur buf)
    → nargs + length (split cur buf) < cmd_nargs
    → (r : Request) × (parse_loop idx nargs argv buf ≡ some r)
unfolding parse_loop split
parse_loop-returns [] cur idx nargs argv at short few = (_, refl)
parse_loop-returns (c ∷ buf) [] idx nargs argv at short few = elim (Bool-cases (c == space)) [
  | inl blank ↦
      let empty : (idx == 0) ≡ true = ground arith in
      let p = parse_loop-returns buf [] idx nargs argv at (rw blank at short) (rw blank at few) in
      rw (blank, empty) p
  | inr other ↦
      let longer = split-length buf c [] (rw other at short) in
      let fits = lt→leb cmd_arg_len (suc idx) (omega (arith, longer)) in
      let p =
        parse_loop-returns buf (c ∷ []) (suc idx) nargs (set_char argv nargs idx c) (omega arith)
          (rw other at short) (rw other at few) in
      rw (other, fits) p
]
parse_loop-returns (c ∷ buf) (a ∷ cur) idx nargs argv at short few =
    elim (Bool-cases (c == space)) [
      | inl blank ↦
          let begun : (idx == 0) ≡ false = ground arith in
          let now : nargs + suc (length (split [] buf)) < cmd_nargs = rw blank at few in
          let room = lt→leb cmd_nargs (suc nargs) (omega (arith, now)) in
          let p =
            parse_loop-returns buf [] 0 (suc nargs) (set_char argv nargs idx 0) refl
              (rw blank at short).1 (omega (arith, now)) in
          rw (blank, begun, room) p
      | inr other ↦
          let longer = split-length buf a (cur ++ c ∷ []) (rw other at short) in
          let size = length-append cur (c ∷ []) in
          let fits = lt→leb cmd_arg_len (suc idx) (omega (arith, longer, size)) in
          let p =
            parse_loop-returns buf ((a ∷ cur) ++ c ∷ []) (suc idx) nargs (set_char argv nargs idx c)
              (omega (arith, size)) (rw other at short) (rw other at few) in
          rw (other, fits) p
    ]

-- `parse_request` accepts every line of fewer than 16 words with fewer than 32 characters
-- each.
pub parse_request-returns :
    (buf : List ℕ)
    → AllShort (words buf)
    → length (words buf) < cmd_nargs
    → (r : Request) × (parse_request buf ≡ some r)
unfolding parse_request words
parse_request-returns buf short few =
    parse_loop-returns buf [] 0 0 (λ i j. 0) refl short (omega (arith, few))
