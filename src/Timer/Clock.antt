-- ===== src/Timer/Clock.antt =====
-- earth/cpu_intr.c: what a read of the clock returns, and what the comparator of a core goes
-- through while it is set.
use egos.Platform.{Platform}
use egos.Base.{
  ℕ, ◌+◌, ◌*◌, ◌/◌, ◌%◌, ◌≤◌, ◌<◌, ◌≡◌, ◌≢◌, refl, Option, some, List, [], ◌∷◌, update, ◌==◌, arith,
  Bool-cases, inl, inr, true, false,
}
use egos.Timer.{
  word_mod, time_mod, quantum, Registers, mtime_get, mtimecmp, write_regs, mtimecmp_set,
  timer_reset,
}

-- The clock does not go back.
abbrev pub Advances : (ℕ → ℕ) → Type 0
Advances clock = (i j : ℕ) → i ≤ j → clock i ≤ clock j

-- A time that the clock had between two reads.
abbrev pub ReadBetween : (ℕ → ℕ) → ℕ → ℕ → Option (ℕ × ℕ) → Type 0
ReadBetween clock from to r =
    (time : ℕ) × (t : ℕ) × (r ≡ some (time, t))
    × (clock from ≤ time)
    × (time ≤ clock to)
    × (t ≤ to + 1)

-- With one high word before and after, the low word belongs to it.
whole_read :
    (a b c : ℕ)
    → a ≤ b
    → b ≤ c
    → (c / word_mod == a / word_mod) ≡ true
    → a / word_mod * word_mod + b % word_mod ≡ b
whole_read a b c le le' same = ground arith

-- The high word changes at most once in 2^32 ticks.
one_carry :
    (a c d f : ℕ)
    → a ≤ c
    → c ≤ d
    → d ≤ f
    → f < a + word_mod
    → (c / word_mod == a / word_mod) ≡ false
    → (f / word_mod == d / word_mod) ≡ true
one_carry a c d f le le' le'' near carry = ground arith

-- On a clock that does not go back, and advances by less than 2^32 over six reads, `mtime_get`
-- returns within two rounds, and its result is a time that the clock had in between, although
-- its halves are read apart.
pub mtime_get-ReadBetween :
    (clock : ℕ → ℕ) (t : ℕ)
    → Advances clock
    → clock (t + 5) < clock t + word_mod
    → ReadBetween clock t (t + 5) (mtime_get 2 clock t)
unfolding mtime_get
mtime_get-ReadBetween clock t adv near =
    elim (Bool-cases (clock (t + 2) / word_mod == clock t / word_mod)) [
      | inl same ↦
          let read =
            whole_read (clock t) (clock (t + 1)) (clock (t + 2)) (adv t (t + 1) (omega arith))
              (adv (t + 1) (t + 2) (omega arith)) same in
          rw (same, read)
            (
              _,
              _,
              refl,
              adv t (t + 1) (omega arith),
              adv (t + 1) (t + 5) (omega arith),
              omega arith,
            )
      | inr carry ↦
          let last : t + 5 ≡ t + 3 + 2 = omega arith in
          let settled =
            one_carry (clock t) (clock (t + 2)) (clock (t + 3)) (clock (t + 3 + 2))
              (adv t (t + 2) (omega arith)) (adv (t + 2) (t + 3) (omega arith))
              (adv (t + 3) (t + 3 + 2) (omega arith)) (rw last at near) carry in
          let read =
            whole_read (clock (t + 3)) (clock (t + 3 + 1)) (clock (t + 3 + 2))
              (adv (t + 3) (t + 3 + 1) (omega arith)) (adv (t + 3 + 1) (t + 3 + 2) (omega arith))
              settled in
          rw (carry, settled, read)
            (
              _,
              _,
              refl,
              adv t (t + 3 + 1) (omega arith),
              adv (t + 3 + 1) (t + 5) (omega arith),
              omega arith,
            )
    ]

-- The comparator of the core is above `now`.
abbrev pub Quiet : ℕ → ℕ → Registers → Type 0
Quiet now core_id regs = now < mtimecmp core_id regs

-- The comparator is above `now` before each write and after the last.
abbrev pub StaysQuiet : ℕ → ℕ → List (ℕ × ℕ) → Registers → Type 0
StaysQuiet now core_id [] regs = Quiet now core_id regs
StaysQuiet now core_id ((n, word) ∷ writes) regs =
    Quiet now core_id regs × StaysQuiet now core_id writes (update regs n word)

-- Let the comparator of a core be above `now`, with a high word of 32 bits, and be set to a
-- time above `now` and below 2^64. Then it is above `now` after each of the writes of
-- `mtimecmp_set`, so that no interrupt is raised in between. After the last it is the time,
-- and the comparator of another core is as it was.
pub mtimecmp_set-StaysQuiet :
    (now time core_id other : ℕ) (regs : Registers)
    → now < time
    → time < time_mod
    → Quiet now core_id regs
    → regs (2 * core_id + 1) < word_mod
    → other ≢ core_id
    → StaysQuiet now core_id (mtimecmp_set time core_id) regs
      × (mtimecmp core_id (write_regs (mtimecmp_set time core_id) regs) ≡ time)
      × (mtimecmp other (write_regs (mtimecmp_set time core_id) regs) ≡ mtimecmp other regs)
unfolding mtimecmp_set
mtimecmp_set-StaysQuiet now time core_id other regs before small quiet word ne =
    ((quiet, (ground arith, (ground arith, ground arith))), ground arith, ground arith)

-- What `timer_reset` leaves: the comparator is a quantum behind a time of the clock between the
-- first and the last read.
abbrev pub Resets : Platform → (ℕ → ℕ) → ℕ → ℕ → Option (Registers × ℕ) → Type 0
Resets platform clock t core_id r =
    (regs : Registers) × (t' : ℕ) × (r ≡ some (regs, t'))
    × (clock t + quantum platform ≤ mtimecmp core_id regs)
    × (mtimecmp core_id regs ≤ clock (t + 5) + quantum platform)

mtimecmp_set-time :
    (time core_id : ℕ) (regs : Registers)
    → time < time_mod
    → mtimecmp core_id (write_regs (mtimecmp_set time core_id) regs) ≡ time
unfolding mtimecmp_set
mtimecmp_set-time time core_id regs small = ground arith

-- On a clock that does not go back, and advances by less than 2^32 over six reads,
-- `timer_reset` ends within two rounds of reading and sets the core's comparator to a quantum
-- behind a time that the clock had between the first and the last of these reads, if that does
-- not pass 2^64.
pub timer_reset-Resets :
    (platform : Platform) (clock : ℕ → ℕ) (t core_id : ℕ) (regs : Registers)
    → Advances clock
    → clock (t + 5) < clock t + word_mod
    → clock (t + 5) + quantum platform < time_mod
    → Resets platform clock t core_id (timer_reset platform 2 clock t core_id regs)
unfolding timer_reset
timer_reset-Resets platform clock t core_id regs adv near small =
    let (time, t', gives, low, high, count) = mtime_get-ReadBetween clock t adv near in
    let whole : (time + quantum platform) % time_mod ≡ time + quantum platform = omega arith in
    let at = mtimecmp_set-time (time + quantum platform) core_id regs (omega arith) in
    rw (gives, timer_reset, whole)
      (_, _, refl, rw at (omega (arith, low)), rw at (omega (arith, high)))
