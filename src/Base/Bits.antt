-- ===== src/Base/Bits.antt =====
-- The bitwise or of numbers whose digits do not meet.
use egos.Base.{ℕ, zero, suc, ◌+◌, ◌*◌, ◌/◌, ◌%◌, ◌≤◌, ◌<◌, ◌≡◌, refl, arith, bit_or, subst, ◌∙◌}
use Prim.Native.Nat.{max, digits, bit_or-bitwise}

-- Any two counts of digits that are large enough give the same.
enough_digits :
    (n m a b : ℕ) → a ≤ n → a ≤ m → digits (λ y. y) max n a b ≡ digits (λ y. y) max m a b
enough_digits zero zero a b h h' = refl
enough_digits zero (suc m) zero b h h' = refl
enough_digits zero (suc m) (suc a) b h h' = absurd (omega arith)
enough_digits (suc n) zero zero b h h' = refl
enough_digits (suc n) zero (suc a) b h h' = absurd (omega arith)
enough_digits (suc n) (suc m) zero b h h' = refl
enough_digits (suc n) (suc m) (suc a) b h h' =
    omega (arith, enough_digits n m (suc a / 2) (b / 2) (omega arith) (omega arith))

bit_or_first : (a b : ℕ) → bit_or a b ≡ bit_or (a / 2) (b / 2) * 2 + max (a % 2) (b % 2)
bit_or_first zero b = omega (arith, bit_or-bitwise 0 b, bit_or-bitwise 0 (b / 2))
bit_or_first (suc a) b =
    let fuel = enough_digits a (suc a / 2) (suc a / 2) (b / 2) (omega arith) (omega arith) in
    omega (arith, bit_or-bitwise (suc a) b, bit_or-bitwise (suc a / 2) (b / 2), fuel)

or_zero_below : (n a : ℕ) → a < n → bit_or a 0 ≡ a
or_zero_below zero a h = absurd (omega arith)
or_zero_below (suc n) zero h = bit_or-bitwise 0 0
or_zero_below (suc n) (suc a) h =
    omega (arith, bit_or_first (suc a) 0, or_zero_below n (suc a / 2) (omega arith))

-- A factor of a power of two moves the digits of the first number up.
double : (a b : ℕ) → bit_or (a * 2) b ≡ bit_or a (b / 2) * 2 + b % 2
double a b =
    let half : a * 2 / 2 ≡ a = omega arith in
    let first : bit_or (a * 2) b ≡ bit_or a (b / 2) * 2 + max (a * 2 % 2) (b % 2) =
      subst (λ h. bit_or (a * 2) b ≡ bit_or h (b / 2) * 2 + max (a * 2 % 2) (b % 2)) half
        (bit_or_first (a * 2) b) in
    omega (arith, first)

times_32 : (a b : ℕ) → bit_or (a * 32) b ≡ bit_or a (b / 32) * 32 + b % 32
times_32 a b =
    let e : a * 32 ≡ a * 2 * 2 * 2 * 2 * 2 = omega arith in
    let e' : b / 32 ≡ b / 2 / 2 / 2 / 2 / 2 = omega arith in
    rw (e, e')
      (omega (
        arith,
        double (a * 2 * 2 * 2 * 2) b,
        double (a * 2 * 2 * 2) (b / 2),
        double (a * 2 * 2) (b / 2 / 2),
        double (a * 2) (b / 2 / 2 / 2),
        double a (b / 2 / 2 / 2 / 2),
      ))

-- The low ten digits of the first number are 0, and the second has no others.
pub bit_or-disjoint : (k f : ℕ) → f < 1024 → bit_or (k * 1024) f ≡ k * 1024 + f
bit_or-disjoint k f h =
    let e : k * 1024 ≡ k * 32 * 32 = omega arith in
    let e' : f / 32 / 32 ≡ 0 = omega arith in
    let upper : bit_or (k * 32) (f / 32) ≡ k * 32 + f / 32 % 32 =
      times_32 k (f / 32) ∙ rw (e', or_zero_below (suc k) k (omega arith)) refl in
    rw (e, times_32 (k * 32) f, upper) (omega arith)
