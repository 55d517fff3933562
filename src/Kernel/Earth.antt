-- ===== src/Kernel/Earth.antt =====
-- library/egos.h: the part of `struct earth` that the kernel calls, as an interface over the
-- memory M of the machine. Physical addresses are numbers.
use egos.Base.{ℕ}
use egos.Kernel.Process.{Syscall}

-- earth/cpu_mmu.c implements the first four and earth/cpu_intr.c the last; `load` and `store` are
-- the kernel's `memcpy` of a `struct syscall` from and to a physical address.
pub record Earth (M : Type 0) : Type 0 where
  pub mmu_translate : ℕ → ℕ → M → ℕ × M
  pub mmu_switch : ℕ → M → M
  pub mmu_flush_cache : M → M
  pub load : ℕ → M → Syscall
  pub store : ℕ → Syscall → M → M
  pub timer_reset : ℕ → M → M
