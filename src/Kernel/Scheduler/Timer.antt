-- ===== src/Kernel/Scheduler/Timer.antt =====
-- grass/kernel.c: a timer interrupt always gets back to a process.
use egos.Base.{ℕ, ◌%◌, ◌≤◌, ◌≡◌, refl, some, le→leb, arith}
use egos.Kernel.Earth.{Earth}
use egos.Kernel.Scheduler.{
  Kernel, Context, intr_id_timer, save_context, proc_yield, intr_entry, handle, kernel_entry,
}
use egos.Kernel.Scheduler.Quiet.{IsScheduled}
use egos.Kernel.Scheduler.RoundRobin.{AllWaiting, proc_yield-round_robin}
use egos.Kernel.Scheduler.Traps.{save_context-IsScheduled}

save_context-AllWaiting :
    {M : Type 0} (context : Context) (k : Kernel M)
    → AllWaiting k.proc_set
    → AllWaiting (save_context context k).proc_set
unfolding save_context
save_context-AllWaiting context k w = λ j lt waits. ground (arith, w j lt)

module _ {M : Type 0} (earth : Earth M) where
  handle-timer :
      (mcause : ℕ) (k : Kernel M)
      → 2147483648 ≤ mcause
      → mcause % 1024 ≡ intr_id_timer
      → handle earth mcause k ≡ proc_yield earth k
  unfolding handle intr_entry
  handle-timer mcause k interrupt timer = rw (le→leb _ _ interrupt, timer) refl

  -- From a state with one running process, the current one, while every process with a pending
  -- system call waits for a message that has not come, `kernel_entry` returns from a timer
  -- interrupt.
  pub kernel_entry-timer :
      (last_pid core mcause : ℕ) (context : Context) (k : Kernel M)
      → IsScheduled last_pid (record k { core_in_kernel = core })
      → AllWaiting k.proc_set
      → 2147483648 ≤ mcause
      → mcause % 1024 ≡ intr_id_timer
      → (r : Kernel M × Context) × (kernel_entry earth core mcause context k ≡ some r)
  unfolding kernel_entry
  kernel_entry-timer last_pid core mcause context k s w interrupt timer =
      let entered = record k { core_in_kernel = core } in
      let saved = save_context context entered in
      let yields =
        proc_yield-round_robin earth last_pid saved
          (save_context-IsScheduled last_pid context entered s)
          (save_context-AllWaiting context entered w) in
      rw (handle-timer mcause saved interrupt timer, yields.5) (_, refl)
