-- ===== src/Programs/Paths.antt =====
-- apps/user/cd.c: the working directory is a path, and cd goes down to a directory or up to the
-- parent.
use egos.Base.{
  ℕ, zero, suc, ◌+◌, ◌-◌, ◌<◌, ◌≡◌, refl, sym, ap, ◌∙◌, true, false, ltb, ◌==◌, if◌then◌else◌, some,
  List, [], ◌∷◌, ◌++◌, length, length-append, arith,
}
use mathlib.Core.List.{append_assoc}
use egos.Kernel.Scheduler.{◌>>=◌}
use egos.Programs.{
  slash, char_at, take, strings_eq, with_slash, last_slash, cut_at, parent_dir, enter_path,
}

-- The directories below the root, the last one first, each behind a slash.
abbrev pub below_root : List (List ℕ) → List ℕ
below_root [] = []
below_root (name ∷ names) = below_root names ++ slash ∷ name

abbrev pub path : List (List ℕ) → List ℕ
path [] = slash ∷ []
path (name ∷ names) = below_root (name ∷ names)

abbrev pub parent : List (List ℕ) → List (List ℕ)
parent [] = []
parent (name ∷ names) = names

abbrev pub HasNoSlash : List ℕ → Type 0
HasNoSlash [] = Unit {0}
HasNoSlash (c ∷ cs) = ((c == slash) ≡ false) × HasNoSlash cs

-- Names are not empty and have no slash.
abbrev pub AreNames : List (List ℕ) → Type 0
AreNames [] = Unit {0}
AreNames ([] ∷ names) = ⊥
AreNames ((c ∷ cs) ∷ names) = HasNoSlash (c ∷ cs) × AreNames names

char_at-append : (xs ys : List ℕ) (k : ℕ) → char_at (xs ++ ys) (length xs + k) ≡ char_at ys k
char_at-append [] ys k = let e : 0 + k ≡ k = omega arith in ap (char_at ys) e
char_at-append (x ∷ xs) ys k =
    let e : suc (length xs) + k ≡ suc (length xs + k) = omega arith in
    ap (char_at (x ∷ xs ++ ys)) e ∙ char_at-append xs ys k

take-append : (xs ys : List ℕ) → take (length xs) (xs ++ ys) ≡ xs
take-append [] ys = refl
take-append (x ∷ xs) ys = ap (λ l. x ∷ l) (take-append xs ys)

pub char_at-HasNoSlash : (cs : List ℕ) (k : ℕ) → HasNoSlash cs → (char_at cs k == slash) ≡ false
char_at-HasNoSlash [] k none = refl
char_at-HasNoSlash (c ∷ cs) zero none = none.0
char_at-HasNoSlash (c ∷ cs) (suc k) none = char_at-HasNoSlash cs k none.1

last_slash-here : (k : ℕ) (w : List ℕ) → (char_at w k == slash) ≡ true → last_slash k w ≡ some k
unfolding last_slash
last_slash-here zero w here = rw here refl
last_slash-here (suc k) w here = rw here refl

last_slash-down :
    (k : ℕ) (w : List ℕ)
    → (char_at w (suc k) == slash) ≡ false
    → last_slash (suc k) w ≡ last_slash k w
unfolding last_slash
last_slash-down k w other = rw other refl

-- The search goes back to the slash before the last name.
last_slash-name :
    (before name : List ℕ) (n : ℕ)
    → HasNoSlash name
    → last_slash (length before + n) (before ++ slash ∷ name) ≡ some (length before)
last_slash-name before name zero clean =
    let e : length before + 0 ≡ length before = omega arith in
    let here = ap (λ c. c == slash) (char_at-append before (slash ∷ name) 0) in
    ap (λ k. last_slash k (before ++ slash ∷ name)) e
    ∙ last_slash-here (length before) _
        (ap (λ k. char_at (before ++ slash ∷ name) k == slash) (sym e) ∙ here)
last_slash-name before name (suc n) clean =
    let e : length before + suc n ≡ suc (length before + n) = omega arith in
    let at = ap (λ c. c == slash) (char_at-append before (slash ∷ name) (suc n)) in
    let other = at ∙ char_at-HasNoSlash name n clean in
    ap (λ k. last_slash k (before ++ slash ∷ name)) e
    ∙ last_slash-down (length before + n) _
        (ap (λ k. char_at (before ++ slash ∷ name) k == slash) (sym e) ∙ other)
    ∙ last_slash-name before name n clean

last_slash-path :
    (before name : List ℕ)
    → HasNoSlash name
    → last_slash (length (before ++ slash ∷ name)) (before ++ slash ∷ name) ≡ some (length before)
last_slash-path before name clean =
    ap (λ k. last_slash k (before ++ slash ∷ name)) (length-append before (slash ∷ name))
    ∙ last_slash-name before name (suc (length name)) clean

-- Going up takes the last name away.
pub up :
    (names : List (List ℕ))
    → AreNames names
    → (last_slash (length (path names)) (path names) >>= λ len. some (cut_at len (path names)))
      ≡ some (path (parent names))
up [] are = ap (λ o. o >>= λ len. some (cut_at len (slash ∷ []))) (last_slash-path [] [] tt)
up ([] ∷ names) are = absurd are
up ((c ∷ cs) ∷ []) are =
    ap (λ o. o >>= λ len. some (cut_at len (path ((c ∷ cs) ∷ []))))
      (last_slash-path [] (c ∷ cs) are.0)
up ((c ∷ cs) ∷ ((d ∷ ds) ∷ names)) are =
    let before = below_root ((d ∷ ds) ∷ names) in
    let size = length-append (below_root names) (slash ∷ d ∷ ds) in
    let below : (length before == 0) ≡ false = ground (arith, size) in
    ap (λ o. o >>= λ len. some (cut_at len (path ((c ∷ cs) ∷ ((d ∷ ds) ∷ names)))))
      (last_slash-path before (c ∷ cs) are.0)
    ∙ rw below (ap some (take-append before (slash ∷ c ∷ cs)))
up ((c ∷ cs) ∷ ([] ∷ names)) are = absurd are.1

-- An argument, without the slash at its end.
abbrev pub IsDirName : List ℕ → Type 0
IsDirName name = HasNoSlash name × (0 < length name)

char_at-last :
    (c : ℕ) (cs : List ℕ) → HasNoSlash (c ∷ cs) → (char_at (c ∷ cs) (length cs) == slash) ≡ false
char_at-last c cs clean = char_at-HasNoSlash (c ∷ cs) (length cs) clean

-- With or without a slash at the end, the argument ends with one.
pub with_slash-name :
    (name : List ℕ)
    → IsDirName name
    → (with_slash name ≡ name ++ slash ∷ [])
      × (with_slash (name ++ slash ∷ []) ≡ name ++ slash ∷ [])
with_slash-name [] is = absurd (omega (arith, is.1))
with_slash-name (c ∷ cs) is =
    let size = length-append (c ∷ cs) (slash ∷ []) in
    let last : length ((c ∷ cs) ++ slash ∷ []) - 1 ≡ length (c ∷ cs) + 0 = omega (arith, size) in
    let ends : (char_at ((c ∷ cs) ++ slash ∷ []) (length ((c ∷ cs) ++ slash ∷ []) - 1) == slash)
        ≡ true =
      ap (λ k. char_at ((c ∷ cs) ++ slash ∷ []) k == slash) last
      ∙ ap (λ c. c == slash) (char_at-append (c ∷ cs) (slash ∷ []) 0) in
    let e : suc (length cs) - 1 ≡ length cs = omega arith in
    let open_ended : (char_at (c ∷ cs) (length (c ∷ cs) - 1) == slash) ≡ false =
      ap (λ k. char_at (c ∷ cs) k == slash) e ∙ char_at-last c cs is.0 in
    (rw open_ended refl, rw ends refl)

joined :
    (name : List ℕ) (names : List (List ℕ))
    → AreNames names
    → (if ltb 1 (length (path names)) then path names ++ slash ∷ [] else path names) ++ name
      ≡ path (name ∷ names)
joined name [] are = refl
joined name ([] ∷ names) are = absurd are
joined name ((c ∷ cs) ∷ names) are =
    let size = length-append (below_root names) (slash ∷ c ∷ cs) in
    let long : ltb 1 (length (below_root names ++ slash ∷ c ∷ cs)) ≡ true = ground (arith, size) in
    rw long (append_assoc (below_root names ++ slash ∷ c ∷ cs) (slash ∷ []) name)

-- Going down adds the name.
pub down :
    (name : List ℕ) (names : List (List ℕ))
    → strings_eq parent_dir (name ++ slash ∷ []) ≡ false
    → AreNames names
    → enter_path (name ++ slash ∷ []) (path names) ≡ some (path (name ∷ names))
unfolding enter_path
down name names other are =
    let size = length-append name (slash ∷ []) in
    let less : length (name ++ slash ∷ []) - 1 ≡ length name = omega (arith, size) in
    let word : take (length (name ++ slash ∷ []) - 1) (name ++ slash ∷ []) ≡ name =
      ap (λ k. take k (name ++ slash ∷ [])) less ∙ take-append name (slash ∷ []) in
    rw other (
      ap some (
        ap
          (λ n. (if ltb 1 (length (path names)) then path names ++ slash ∷ [] else path names) ++ n)
          word
        ∙ joined name names are))
