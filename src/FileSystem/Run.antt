-- ===== src/FileSystem/Run.antt =====
-- Commands over a state S: a C function of the file system returns a value, returns -1 to its
-- caller, or panics. The state that it leaves behind comes with each outcome.

pub data Run (S A : Type 0) : Type 0 where
  ok : A → S → Run S A
  fail : S → Run S A
  panic : S → Run S A

abbrev pub Cmd : Type 0 → Type 0 → Type 0
Cmd S A = S → Run S A

abbrev pub pure : {S A : Type 0} → A → Cmd S A
pure a s = ok a s

abbrev pub failed : {S A : Type 0} → Cmd S A
failed s = fail s

abbrev pub panicked : {S A : Type 0} → Cmd S A
panicked s = panic s

module _ {S A B : Type 0} where
  abbrev pub and_then : Run S A → (A → Cmd S B) → Run S B
  and_then (ok a s) k = k a s
  and_then (fail s) k = fail s
  and_then (panic s) k = panic s

  infixl 5 ◌>>=◌ ◌>>◌
  abbrev pub ◌>>=◌ : Cmd S A → (A → Cmd S B) → Cmd S B
  m >>= k = λ s. and_then (m s) k

  abbrev pub ◌>>◌ : Cmd S A → Cmd S B → Cmd S B
  m >> k = m >>= λ _. k

-- `if (f() < 0) panic(...)`: a callee's error becomes a panic.
abbrev pub or_panic : {S A : Type 0} → Cmd S A → Cmd S A
or_panic m s = elim (m s) [ ok a t ↦ ok a t | fail t ↦ panic t | panic t ↦ panic t ]

-- The command returns, and its result and the state that it leaves satisfy P.
pub data Returns {S A : Type 0} (P : A → S → Type 0) : Run S A → Type 0 where
  returns : {a : A} {s : S} → P a s → Returns P (ok a s)

module _ {S A : Type 0} {P : A → S → Type 0} where
  pub Returns-and_then :
      {B : Type 0} {Q : B → S → Type 0} {r : Run S A} (k : A → Cmd S B)
      → Returns P r
      → ((a : A) (s : S) → P a s → Returns Q (k a s))
      → Returns Q (and_then r k)
  Returns-and_then k (returns p) next = next _ _ p

  pub Returns-weaken :
      {Q : A → S → Type 0} {r : Run S A}
      → Returns P r
      → ((a : A) (s : S) → P a s → Q a s)
      → Returns Q r
  Returns-weaken (returns p) weaken = returns (weaken _ _ p)

  -- The state in which it returns.
  abbrev pub state_of : {r : Run S A} → Returns P r → S
  state_of (returns {a} {s} p) = s

  abbrev pub result_of : {r : Run S A} → Returns P r → A
  result_of (returns {a} {s} p) = a

  pub state_of_lem : {r : Run S A} (h : Returns P r) → P (result_of h) (state_of h)
  state_of_lem (returns p) = p
