-- ===== src/Timer/Examples.antt =====
-- earth/cpu_intr.c on a clock whose low word overflows between two reads.
use egos.Platform.{qemu}
use egos.Base.{ℕ, ◌+◌, ◌*◌, ◌≡◌, arith}
use egos.Timer.{Registers, mtimecmp, mtime_get, mtimecmp_set, write_regs, timer_reset}
use egos.Timer.Clock.{
  Advances, ReadBetween, StaysQuiet, Resets, mtime_get-ReadBetween, mtimecmp_set-StaysQuiet,
  timer_reset-Resets,
}

abbrev clock : ℕ → ℕ
clock n = 4294967292 + 3 * n

clock-Advances : Advances clock
clock-Advances i j le = omega arith

abbrev regs : Registers
regs i = 4294967295

mtime_get-ReadBetween_example : ReadBetween clock 1 6 (mtime_get 2 clock 1)
mtime_get-ReadBetween_example = mtime_get-ReadBetween clock 1 clock-Advances (omega arith)

mtimecmp_set-StaysQuiet_example :
    StaysQuiet 5 1 (mtimecmp_set 4294967300 1) regs
    × (mtimecmp 1 (write_regs (mtimecmp_set 4294967300 1) regs) ≡ 4294967300)
    × (mtimecmp 2 (write_regs (mtimecmp_set 4294967300 1) regs) ≡ mtimecmp 2 regs)
mtimecmp_set-StaysQuiet_example =
    mtimecmp_set-StaysQuiet 5 4294967300 1 2 regs (omega arith) (omega arith) (omega arith)
      (omega arith) (omega arith)

timer_reset-Resets_example : Resets qemu clock 1 1 (timer_reset qemu 2 clock 1 1 regs)
timer_reset-Resets_example =
    timer_reset-Resets qemu clock 1 1 regs clock-Advances (omega arith) (omega arith)
