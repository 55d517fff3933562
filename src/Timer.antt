-- ===== src/Timer.antt =====
-- earth/cpu_intr.c: reading the clock and setting the comparators of the cores.
pub mod Clock
mod Examples
use egos.Platform.{Platform, arty, qemu}
use egos.Base.{
  ℕ, zero, suc, ◌+◌, ◌*◌, ◌/◌, ◌%◌, Option, none, some, List, [], ◌∷◌, ◌==◌, if◌then◌else◌, update,
}

-- The modulus of a register, and that of the clock.
abbrev pub word_mod : ℕ
word_mod = 4294967296

abbrev pub time_mod : ℕ
time_mod = 18446744073709551616

abbrev pub quantum : Platform → ℕ
quantum qemu = 100000
quantum arty = 50000000

-- mtime_get: `clock n` is the clock's value when the program makes its n-th read of a half of it,
-- and t the number of reads so far. The result comes with the number of reads after it.
pub mtime_get : ℕ → (ℕ → ℕ) → ℕ → Option (ℕ × ℕ)
mtime_get zero clock t = none
mtime_get (suc fuel) clock t =
    let again = mtime_get fuel clock (t + 3) in
    let high = clock t / word_mod in
    let low = clock (t + 1) % word_mod in
    if clock (t + 2) / word_mod == high then some (high * word_mod + low, t + 3) else again

-- The registers at MTIMECMP_BASE by the number of the word; those of a core are 2 * core_id, the
-- low one, and 2 * core_id + 1.
abbrev pub Registers : Type 0
Registers = ℕ → ℕ

abbrev pub mtimecmp : ℕ → Registers → ℕ
mtimecmp core_id regs = regs (2 * core_id + 1) * word_mod + regs (2 * core_id)

-- mtimecmp_set: the writes that it makes, in order, each the number of the word and the word.
pub mtimecmp_set : ℕ → ℕ → List (ℕ × ℕ)
mtimecmp_set time core_id =
    (2 * core_id + 1, 4294967295)
    ∷ (2 * core_id, time % word_mod)
    ∷ (2 * core_id + 1, time / word_mod % word_mod)
    ∷ []

-- The registers after some writes.
abbrev pub write_regs : List (ℕ × ℕ) → Registers → Registers
write_regs [] regs = regs
write_regs ((n, word) ∷ writes) regs = write_regs writes (update regs n word)

pub timer_reset : Platform → ℕ → (ℕ → ℕ) → ℕ → ℕ → Registers → Option (Registers × ℕ)
unfolding mtime_get mtimecmp_set
timer_reset platform fuel clock t core_id regs = elim (mtime_get fuel clock t) [
  | none ↦ none
  | some (time, t') ↦
      some (write_regs (mtimecmp_set ((time + quantum platform) % time_mod) core_id) regs, t')
]
