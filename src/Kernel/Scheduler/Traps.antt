-- ===== src/Kernel/Scheduler/Traps.antt =====
-- grass/kernel.c: the two trap handlers and `kernel_entry` keep one process running.
use mathlib.Core.Bool.{false≢true}
use egos.Base.{
  ℕ, ◌+◌, ◌%◌, ◌<◌, ◌≡◌, refl, sym, ◌∙◌, true, some, ◌==◌, leb, ◌&&◌, update, arith, ==_refl,
  Bool-cases, Option-cases, eq_of_some, not_none, inl, inr,
}
use egos.Kernel.Process.{
  Table, Syscall, pending, pending_syscall, max_nprocess, is_running, done, proc_set_status,
}
use egos.Kernel.Process.Table.{IsTable, proc_set_status_lem}
use egos.Kernel.Earth.{Earth}
use egos.Kernel.Messages.{syscall_arg}
use egos.Kernel.Scheduler.Quiet.{IsQuiet, IsScheduled, IsTrapped, used_of_running}
use egos.Kernel.Scheduler.Running.{Tried, try_syscall-Tried}
use egos.Kernel.Scheduler.Yield.{proc_yield-IsScheduled}
use egos.Kernel.Scheduler.{
  Kernel, Context, curr_proc, curr_proc_idx, try_syscall, take_syscall, excp_entry, intr_entry,
  save_context, handle, kernel_entry, intr_id_timer, excp_id_ecall_u, excp_id_ecall_m,
}

-- The table after `take_syscall`: entry c, with pid p, waits in the call.
abbrev waiting : ℕ → Syscall → Table → Table
waiting c call procs =
    let asked =
      update procs c (record (procs c) { syscall = record call { delivery = pending } }) in
    let marked = proc_set_status (asked c).pid pending_syscall asked in
    update marked c (record (marked c) { mepc = ((marked c).mepc + 4) % 4294967296 })

waiting-IsQuiet :
    (last_pid c : ℕ) (call : Syscall) (procs : Table)
    → c < max_nprocess
    → IsTable last_pid procs
    → ((j : ℕ)
        → j < max_nprocess
        → (procs j).syscall.delivery ≡ done
        → 0 < (procs j).syscall.sender)
    → ((j : ℕ) → j < max_nprocess → is_running (procs j).status ≡ true → j ≡ c)
    → 0 < (procs c).pid
    → IsQuiet last_pid (waiting c call procs)
waiting-IsQuiet last_pid c call procs lt v senders alone pos =
    let asked : Table =
      update procs c (record (procs c) { syscall = record call { delivery = pending } }) in
    let at = proc_set_status_lem (asked c).pid pending_syscall asked in
    record {
      table = record {
        given = λ j lt. ground (arith, at j, v.given j lt);
        in_use = λ j lt used. ground (arith, at j, v.in_use j lt);
        distinct = λ i j lt lt' pos' e. ground (arith, at i, at j, v.distinct i j lt lt');
      };
      senders = λ j lt e. ground (arith, at j, senders j lt);
      quiet = λ j lt. ground (arith, at j, alone j lt);
    }

waiting_pos :
    (c : ℕ) (call : Syscall) (procs : Table) → 0 < (procs c).pid → 0 < (waiting c call procs c).pid
waiting_pos c call procs pos =
    let asked : Table =
      update procs c (record (procs c) { syscall = record call { delivery = pending } }) in
    ground (arith, proc_set_status_lem (asked c).pid pending_syscall asked c)

pid_pos :
    {M : Type 0} (last_pid : ℕ) (k : Kernel M) → IsScheduled last_pid k → 0 < (curr_proc k).pid
pid_pos last_pid k s =
    s.table.in_use (curr_proc_idx k) s.current (used_of_running (curr_proc k).status s.runs)

-- On a quiet table nothing runs.
IsQuiet-IsTrapped :
    {M : Type 0} (last_pid : ℕ) (k : Kernel M)
    → curr_proc_idx k < max_nprocess
    → IsQuiet last_pid k.proc_set
    → IsTrapped last_pid k
IsQuiet-IsTrapped last_pid k lt q = record {
  table = q.table;
  senders = q.senders;
  current = lt;
  alone = λ j lt' runs. absurd (false≢true (sym (q.quiet j lt') ∙ runs));
}

pub save_context-IsScheduled :
    {M : Type 0} (last_pid : ℕ) (context : Context) (k : Kernel M)
    → IsScheduled last_pid k
    → IsScheduled last_pid (save_context context k)
unfolding save_context
save_context-IsScheduled last_pid context k s = record {
  table = record {
    given = λ j lt. ground (arith, s.table.given j lt);
    in_use = λ j lt used. ground (arith, s.table.in_use j lt);
    distinct = λ i j lt lt' pos' e. ground (arith, s.table.distinct i j lt lt');
  };
  senders = λ j lt e. ground (arith, s.senders j lt);
  current = s.current;
  runs = rw (==_refl (curr_proc_idx k)) s.runs;
  alone = λ j lt e. ground (arith, s.alone j lt);
}

module _ {M : Type 0} (earth : Earth M) where
  take_syscall-IsQuiet :
      (last_pid : ℕ) (k : Kernel M)
      → IsScheduled last_pid k
      → IsQuiet last_pid (take_syscall earth k).proc_set
  unfolding take_syscall
  take_syscall-IsQuiet last_pid k s =
      let translated = earth.mmu_translate (curr_proc k).pid syscall_arg k.memory in
      waiting-IsQuiet last_pid (curr_proc_idx k) (earth.load translated.0 translated.1) k.proc_set
        s.current s.table s.senders s.alone (pid_pos last_pid k s)

  take_syscall-pid :
      (last_pid : ℕ) (k : Kernel M)
      → IsScheduled last_pid k
      → 0 < ((take_syscall earth k).proc_set (curr_proc_idx k)).pid
  unfolding take_syscall
  take_syscall-pid last_pid k s =
      let translated = earth.mmu_translate (curr_proc k).pid syscall_arg k.memory in
      waiting_pos (curr_proc_idx k) (earth.load translated.0 translated.1) k.proc_set
        (pid_pos last_pid k s)

  -- The current process is the same after `take_syscall`.
  take_syscall-curr : (k : Kernel M) → curr_proc_idx (take_syscall earth k) ≡ curr_proc_idx k
  unfolding take_syscall
  take_syscall-curr k = refl

  Tried-curr_proc_idx :
      {last_pid : ℕ} (k tried : Kernel M)
      → Tried earth last_pid (take_syscall earth k) tried
      → curr_proc_idx k < max_nprocess
      → curr_proc_idx tried < max_nprocess
  Tried-curr_proc_idx k tried t lt = rw (t.core, t.indices) (rw (take_syscall-curr k) lt)

  excp_entry-IsScheduled :
      (last_pid id : ℕ) (k k' : Kernel M)
      → IsScheduled last_pid k
      → excp_entry earth id k ≡ some k'
      → IsScheduled last_pid k'
  unfolding excp_entry
  excp_entry-IsScheduled last_pid id k k' s e =
      elim (Bool-cases (leb excp_id_ecall_u id && leb id excp_id_ecall_m)) [
        | inr fault ↦ absurd (not_none (rw fault at e))
        | inl call ↦
            elim (Option-cases (try_syscall earth (curr_proc_idx k) (take_syscall earth k))) [
              | inl fails ↦ absurd (not_none (rw (call, fails) at e))
              | inr (tried, gives) ↦
                  let q = take_syscall-IsQuiet last_pid k s in
                  let t =
                    try_syscall-Tried earth last_pid (curr_proc_idx k) (take_syscall earth k) tried
                      s.current (take_syscall-pid last_pid k s) q gives in
                  proc_yield-IsScheduled earth last_pid tried k'
                    (IsQuiet-IsTrapped last_pid tried (Tried-curr_proc_idx k tried t s.current)
                      t.still)
                    (rw (call, gives) at e)
            ]
      ]

  intr_entry-IsScheduled :
      (last_pid id : ℕ) (k k' : Kernel M)
      → IsScheduled last_pid k
      → intr_entry earth id k ≡ some k'
      → IsScheduled last_pid k'
  unfolding intr_entry
  intr_entry-IsScheduled last_pid id k k' s e = elim (Bool-cases (id == intr_id_timer)) [
    | inl timer ↦
        proc_yield-IsScheduled earth last_pid k k'
          (record { table = s.table; senders = s.senders; current = s.current; alone = s.alone })
          (rw timer at e)
    | inr other ↦ absurd (not_none (rw other at e))
  ]

  handle-IsScheduled :
      (last_pid mcause : ℕ) (k k' : Kernel M)
      → IsScheduled last_pid k
      → handle earth mcause k ≡ some k'
      → IsScheduled last_pid k'
  unfolding handle
  handle-IsScheduled last_pid mcause k k' s e = elim (Bool-cases (leb 2147483648 mcause)) [
    | inl interrupt ↦ intr_entry-IsScheduled last_pid (mcause % 1024) k k' s (rw interrupt at e)
    | inr exception ↦ excp_entry-IsScheduled last_pid mcause k k' s (rw exception at e)
  ]

  -- Let the table of processes have distinct pids, the current process of the core be the only
  -- one that runs, and every message that was received name a sender. If `kernel_entry`
  -- returns from a trap, whatever its cause, then this holds again, and the core goes on with
  -- the saved mepc and registers of the process that is then current.
  pub kernel_entry-IsScheduled :
      (last_pid core mcause : ℕ) (context : Context) (k : Kernel M) (r : Kernel M × Context)
      → IsScheduled last_pid (record k { core_in_kernel = core })
      → kernel_entry earth core mcause context k ≡ some r
      → IsScheduled last_pid r.0
        × (r.1.mepc ≡ (curr_proc r.0).mepc)
        × (r.1.registers ≡ (curr_proc r.0).saved_registers)
  unfolding kernel_entry
  kernel_entry-IsScheduled last_pid core mcause context k r s e =
      let saved = save_context context (record k { core_in_kernel = core }) in
      elim (Option-cases (handle earth mcause saved)) [
        | inl fails ↦ absurd (not_none (rw fails at e))
        | inr (handled, gives) ↦ rw (← eq_of_some (rw gives at e)) (
          handle-IsScheduled last_pid mcause saved handled
              (save_context-IsScheduled last_pid context (record k { core_in_kernel = core }) s)
              gives,
          refl,
          refl,
        )
      ]
