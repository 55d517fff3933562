-- ===== src/Kernel/Scheduler.antt =====
-- grass/kernel.c: the trap handlers and `proc_yield`. `none` is FATAL, which stops the kernel.
pub mod RoundRobin
pub mod Quiet
pub mod Running
pub mod Yield
pub mod Traps
pub mod Timer
use egos.Base.{
  ℕ, zero, suc, ◌+◌, ◌%◌, ◌<◌, Bool, true, false, not, ◌&&◌, Option, none, some, leb, ltb, ◌==◌,
  if◌then◌else◌, update,
}
use egos.Kernel.Process.{
  Process, Table, max_nprocess, is_running, is_pending, is_ready, can_run, pending,
  proc_set_runnable, proc_set_running, proc_set_pending,
}
use egos.Kernel.Earth.{Earth}
use egos.Kernel.Messages.{syscall_arg, proc_try_syscall}

abbrev pub apps_arg : ℕ
apps_arg = 0x80600000

abbrev pub apps_entry : ℕ
apps_entry = 0x80400000

abbrev pub intr_id_timer : ℕ
intr_id_timer = 7

abbrev pub excp_id_ecall_u : ℕ
excp_id_ecall_u = 8

abbrev pub excp_id_ecall_m : ℕ
excp_id_ecall_m = 11

-- The globals of kernel.c, and the memory of the machine.
pub record Kernel (M : Type 0) : Type 0 where
  pub core_in_kernel : ℕ
  pub core_to_proc_idx : ℕ → ℕ
  pub proc_set : Table
  pub memory : M

-- The registers of the hart that `kernel_entry` reads and writes: mepc, and those that the trap
-- entry has saved at SAVED_REGISTER_ADDR.
pub record Context : Type 0 where
  pub mepc : ℕ
  pub registers : ℕ → ℕ

infixl 5 ◌>>=◌
abbrev pub ◌>>=◌ {ℓ κ} : {A : Type ℓ} {B : Type κ} → Option A → (A → Option B) → Option B
none >>= f = none
some a >>= f = f a

module _ {M : Type 0} where
  abbrev pub curr_proc_idx : Kernel M → ℕ
  curr_proc_idx k = k.core_to_proc_idx k.core_in_kernel

  abbrev pub curr_proc : Kernel M → Process
  curr_proc k = k.proc_set (curr_proc_idx k)

  abbrev pub set_curr_proc_idx : ℕ → Kernel M → Kernel M
  set_curr_proc_idx idx k = record k {
    core_to_proc_idx = update k.core_to_proc_idx k.core_in_kernel idx;
  }

  abbrev pub set_proc_set : Table → Kernel M → Kernel M
  set_proc_set procs k = record k { proc_set = procs }

  abbrev pub set_curr_proc : Process → Kernel M → Kernel M
  set_curr_proc p k = set_proc_set (update k.proc_set (curr_proc_idx k) p) k

  -- core_set_idle
  pub core_set_idle : ℕ → Kernel M → Kernel M
  core_set_idle core k = record k { core_to_proc_idx = update k.core_to_proc_idx core max_nprocess }

  -- if (curr_status == PROC_RUNNING) proc_set_runnable(curr_pid)
  pub preempt : Kernel M → Kernel M
  preempt k =
      if is_running (curr_proc k).status
      then set_proc_set (proc_set_runnable (curr_proc k).pid k.proc_set) k
      else k

  -- The context of a process that runs for the first time.
  pub enter : Kernel M → Kernel M
  enter k =
      if is_ready (curr_proc k).status
      then set_curr_proc
          (record (curr_proc k) {
            mepc = apps_entry;
            saved_registers =
                update (update (curr_proc k).saved_registers 0 apps_arg) 1 (apps_arg + 4);
          })
          k
      else k

  -- The context of the process that the trap has interrupted.
  pub save_context : Context → Kernel M → Kernel M
  save_context context k =
      set_curr_proc
        (record (curr_proc k) { mepc = context.mepc; saved_registers = context.registers }) k

module _ {M : Type 0} (earth : Earth M) where
  open earth use {mmu_translate, mmu_switch, mmu_flush_cache, load, timer_reset}

  pub try_syscall : ℕ → Kernel M → Option (Kernel M)
  try_syscall idx k = do
    (procs, memory) ← proc_try_syscall earth idx k.proc_set k.memory
    some (record k { proc_set = procs; memory = memory })

  -- if (p->status == PROC_PENDING_SYSCALL) proc_try_syscall(p)
  pub retry : ℕ → Kernel M → Option (Kernel M)
  retry idx k = if is_pending (k.proc_set idx).status then try_syscall idx k else some k

  -- The loop of `proc_yield` from round i on: the kernel after it, and next_idx.
  pub find_next : ℕ → ℕ → Kernel M → Option (Kernel M × ℕ)
  find_next zero i k = some (k, max_nprocess)
  find_next (suc rounds) i k = do
    let idx = (curr_proc_idx k + i) % max_nprocess
    k' ← retry idx k
    let later = find_next rounds (suc i) k'
    if can_run (k'.proc_set idx).status then some (k', idx) else later

  -- curr_proc_idx = next_idx, and the switch to the memory of the process.
  pub choose : ℕ → Kernel M → Kernel M
  choose next_idx k =
      let chosen = set_curr_proc_idx next_idx k in
      record chosen { memory = mmu_flush_cache (mmu_switch (curr_proc chosen).pid chosen.memory) }

  -- From the choice of the next process to the end of `proc_yield`.
  pub switch_to : ℕ → Kernel M → Kernel M
  switch_to next_idx k =
      let entered = enter (choose next_idx k) in
      record entered {
        proc_set = proc_set_running (curr_proc entered).pid entered.proc_set;
        memory = timer_reset entered.core_in_kernel entered.memory;
      }

  pub proc_yield : Kernel M → Option (Kernel M)
  proc_yield k = do
    (found, next_idx) ← find_next max_nprocess 1 (preempt k)
    if ltb next_idx max_nprocess then some (switch_to next_idx found) else none

  -- The system call of the current process, copied from its memory, with mepc after the ecall.
  pub take_syscall : Kernel M → Kernel M
  take_syscall k =
      let (paddr, memory) = mmu_translate (curr_proc k).pid syscall_arg k.memory in
      let call = load paddr memory in
      let taken =
        set_curr_proc (record (curr_proc k) { syscall = record call { delivery = pending } })
          (record k { memory = memory }) in
      let waiting = set_proc_set (proc_set_pending (curr_proc taken).pid taken.proc_set) taken in
      set_curr_proc
        (record (curr_proc waiting) { mepc = ((curr_proc waiting).mepc + 4) % 4294967296 }) waiting

  pub excp_entry : ℕ → Kernel M → Option (Kernel M)
  excp_entry id k =
      if leb excp_id_ecall_u id && leb id excp_id_ecall_m
      then (do tried ← try_syscall (curr_proc_idx k) (take_syscall k); proc_yield tried)
      else none

  pub intr_entry : ℕ → Kernel M → Option (Kernel M)
  intr_entry id k = if not (id == intr_id_timer) then none else proc_yield k

  -- mcause & (1 << 31) tells interrupts from exceptions; mcause & 0x3FF is the interrupt.
  pub handle : ℕ → Kernel M → Option (Kernel M)
  handle mcause k =
      if leb 2147483648 mcause then intr_entry (mcause % 1024) k else excp_entry mcause k

  pub kernel_entry : ℕ → ℕ → Context → Kernel M → Option (Kernel M × Context)
  kernel_entry core mcause context k = do
    handled ← handle mcause (save_context context (record k { core_in_kernel = core }))
    some (
      handled,
      record { mepc = (curr_proc handled).mepc; registers = (curr_proc handled).saved_registers },
    )
