-- ===== src/Servers/Directory/Numbers.antt =====
-- library/syscall/servers.c and tools/mkfs.c: `atoi` reads the numbers that mkfs prints.
use egos.Base.{
  ℕ, zero, suc, ◌+◌, ◌-◌, ◌*◌, ◌/◌, ◌%◌, ◌≤◌, ◌<◌, ◌≡◌, refl, ◌∙◌, ap, true, false, ◌==◌, ltb, List,
  [], ◌∷◌, ◌++◌, length, arith, Bool-cases, inl, inr,
}
use egos.Servers.Directory.{blank, is_digit, is_space, digits_from, atoi, decimal, blanks}

abbrev pub HasNoBlank : List ℕ → Type 0
HasNoBlank [] = Unit {0}
HasNoBlank (c ∷ cs) = ((c == blank) ≡ false) × HasNoBlank cs

-- Numbers of at most three digits.
unfoldable pub digits : ℕ → List ℕ
digits ino = blanks (4 - length (decimal 10 ino)) (decimal 10 ino)

abbrev pub IsNumber : ℕ → List ℕ → Type 0
IsNumber ino cs =
    (k : ℕ) × (d : ℕ) × (ds : List ℕ) × (cs ≡ blank ∷ blanks k (d ∷ ds))
    × (is_digit d ≡ true)
    × HasNoBlank ds
    × ((rest : List ℕ) → atoi (cs ++ blank ∷ rest) ≡ ino)

not_blank : (a : ℕ) → a < 10 → (48 + a == blank) ≡ false
not_blank a lt = ground arith

pub digit_char : (a : ℕ) → a < 10 → is_digit (48 + a) ≡ true
digit_char a lt = ground arith

digits_from-digit :
    (m a : ℕ) (cs : List ℕ) → a < 10 → digits_from m ((48 + a) ∷ cs) ≡ digits_from (m * 10 + a) cs
unfolding digits_from
digits_from-digit m a cs lt =
    let same : m * 10 + (48 + a - 48) ≡ m * 10 + a = omega arith in rw (digit_char a lt, same) refl

digits_from-blank : (m : ℕ) (rest : List ℕ) → digits_from m (blank ∷ rest) ≡ m
unfolding digits_from
digits_from-blank m rest = refl

atoi-digit : (a : ℕ) (cs : List ℕ) → a < 10 → atoi ((48 + a) ∷ cs) ≡ digits_from a cs
unfolding atoi
atoi-digit a cs lt =
    let graphic : is_space (48 + a) ≡ false = ground arith in
    rw graphic (digits_from-digit 0 a cs lt ∙ ap (λ m. digits_from m cs) (omega arith))

atoi-blanks : (k : ℕ) (cs : List ℕ) → atoi (blanks k cs) ≡ atoi cs
unfolding atoi
atoi-blanks zero cs = refl
atoi-blanks (suc k) cs = atoi-blanks k cs

pub decimal-one : (a : ℕ) → a < 10 → decimal 10 a ≡ (48 + a) ∷ []
unfolding decimal
decimal-one a lt = let small : ltb a 10 ≡ true = ground arith in rw small refl

pub decimal-two : (n : ℕ) → 10 ≤ n → n < 100 → decimal 10 n ≡ (48 + n / 10) ∷ (48 + n % 10) ∷ []
unfolding decimal
decimal-two n le lt =
    let large : ltb n 10 ≡ false = ground arith in
    let small : ltb (n / 10) 10 ≡ true = ground arith in rw (large, small) refl

pub decimal-three :
    (n : ℕ)
    → 100 ≤ n
    → n < 1000
    → decimal 10 n ≡ (48 + n / 10 / 10) ∷ (48 + n / 10 % 10) ∷ (48 + n % 10) ∷ []
unfolding decimal
decimal-three n le lt =
    let large : ltb n 10 ≡ false = ground arith in
    let large' : ltb (n / 10) 10 ≡ false = ground arith in
    let small : ltb (n / 10 / 10) 10 ≡ true = ground arith in rw (large, large', small) refl

pub digits-IsNumber : (ino : ℕ) → ino < 1000 → IsNumber ino (digits ino)
unfolding digits
digits-IsNumber ino lt = elim (Bool-cases (ltb ino 10)) [
  | inl one ↦
      let small : ino < 10 = ground arith in
      rw (decimal-one ino small) (
        2,
        48 + ino,
        [],
        refl,
        digit_char ino small,
        tt,
        λ rest. atoi-blanks 3 _ ∙ atoi-digit ino _ small ∙ digits_from-blank ino rest,
      )
  | inr more ↦ elim (Bool-cases (ltb ino 100)) [
    | inl two ↦
        let le : 10 ≤ ino = ground arith in
        let small : ino < 100 = ground arith in
        let sum : ino / 10 * 10 + ino % 10 ≡ ino = omega arith in
        rw (decimal-two ino le small) (
          1,
          48 + ino / 10,
          (48 + ino % 10) ∷ [],
          refl,
          digit_char (ino / 10) (omega arith),
          (not_blank (ino % 10) (omega arith), tt),
          λ rest.
              atoi-blanks 2 _
              ∙ atoi-digit (ino / 10) _ (omega arith)
              ∙ digits_from-digit (ino / 10) (ino % 10) _ (omega arith)
              ∙ digits_from-blank _ rest
              ∙ sum,
        )
    | inr three ↦
        let le : 100 ≤ ino = ground arith in
        let sum : (ino / 10 / 10 * 10 + ino / 10 % 10) * 10 + ino % 10 ≡ ino = omega arith in
        rw (decimal-three ino le lt) (
          0,
          48 + ino / 10 / 10,
          (48 + ino / 10 % 10) ∷ (48 + ino % 10) ∷ [],
          refl,
          digit_char (ino / 10 / 10) (omega arith),
          (not_blank (ino / 10 % 10) (omega arith), (not_blank (ino % 10) (omega arith), tt)),
          λ rest.
              atoi-blanks 1 _
              ∙ atoi-digit (ino / 10 / 10) _ (omega arith)
              ∙ digits_from-digit (ino / 10 / 10) (ino / 10 % 10) _ (omega arith)
              ∙ digits_from-digit _ (ino % 10) _ (omega arith)
              ∙ digits_from-blank _ rest
              ∙ sum,
        )
  ]
]
