-- ===== src/Kernel/Scheduler/Quiet.antt =====
-- grass/kernel.c: the process table between the trap and the choice of the next process, when no
-- process is running.
use mathlib.Core.Bool.{false≢true}
use egos.Base.{
  ℕ, ◌<◌, ◌≡◌, refl, sym, ap, subst, ◌∙◌, true, false, arith, Bool-cases, ◌⊎◌, inl, inr,
}
use egos.Kernel.Process.{
  Process, Table, Status, runnable, max_nprocess, is_unused, is_running, is_pending, is_ready,
  can_run, Delivery, pending, done, proc_set_status,
}
use egos.Kernel.Process.Table.{IsTable, proc_set_status_lem, proc_set_status-IsTable}
use egos.Kernel.Messages.{is_taking}
use egos.Kernel.Messages.Rendezvous.{sent}
use egos.Kernel.Scheduler.{Kernel, curr_proc, curr_proc_idx, preempt, enter}

-- No process is running, and a message that was received names a process that was given out.
pub record IsQuiet (last_pid : ℕ) (procs : Table) : Type 0 where
  pub table : IsTable last_pid procs
  pub senders :
      (j : ℕ) → j < max_nprocess → (procs j).syscall.delivery ≡ done → 0 < (procs j).syscall.sender
  pub quiet : (j : ℕ) → j < max_nprocess → is_running (procs j).status ≡ false

pub used_of_pending : (s : Status) → is_pending s ≡ true → is_unused s ≡ false
used_of_pending s h = ground arith

pub used_of_running : (s : Status) → is_running s ≡ true → is_unused s ≡ false
used_of_running s h = ground arith

pub used_of_can_run : (s : Status) → can_run s ≡ true → is_unused s ≡ false
used_of_can_run s h = ground arith

-- Process p and p' differ in their registers alone.
abbrev pub SameProcess : Process → Process → Type 0
SameProcess p p' = (p'.pid ≡ p.pid) × (p'.syscall ≡ p.syscall) × (p'.status ≡ p.status)

-- The current process is the one that runs, and no other does.
pub record IsScheduled {M : Type 0} (last_pid : ℕ) (k : Kernel M) : Type 0 where
  pub table : IsTable last_pid k.proc_set
  pub senders :
      (j : ℕ)
      → j < max_nprocess
      → (k.proc_set j).syscall.delivery ≡ done
      → 0 < (k.proc_set j).syscall.sender
  pub current : curr_proc_idx k < max_nprocess
  pub runs : is_running (curr_proc k).status ≡ true
  pub alone :
      (j : ℕ) → j < max_nprocess → is_running (k.proc_set j).status ≡ true → j ≡ curr_proc_idx k

-- A trap has been taken: the current process may have left its running state.
pub record IsTrapped {M : Type 0} (last_pid : ℕ) (k : Kernel M) : Type 0 where
  pub table : IsTable last_pid k.proc_set
  pub senders :
      (j : ℕ)
      → j < max_nprocess
      → (k.proc_set j).syscall.delivery ≡ done
      → 0 < (k.proc_set j).syscall.sender
  pub current : curr_proc_idx k < max_nprocess
  pub alone :
      (j : ℕ) → j < max_nprocess → is_running (k.proc_set j).status ≡ true → j ≡ curr_proc_idx k

module _ {M : Type 0} where
  pub preempt-IsQuiet :
      (last_pid : ℕ) (k : Kernel M) → IsTrapped last_pid k → IsQuiet last_pid (preempt k).proc_set
  unfolding preempt
  preempt-IsQuiet last_pid k t = elim (Bool-cases (is_running (curr_proc k).status)) [
    | inl runs ↦ rw runs (record {
      table =
          proc_set_status-IsTable last_pid _ runnable k.proc_set
            (t.table.in_use _ t.current (used_of_running (curr_proc k).status runs)) t.table;
      senders = λ j lt e.
          ground
            (arith, proc_set_status_lem (curr_proc k).pid runnable k.proc_set j, t.senders j lt);
      quiet = λ j lt. elim (Bool-cases (is_running (k.proc_set j).status)) [
        | inl also ↦
            let same : (k.proc_set j).pid ≡ (curr_proc k).pid =
              ap (λ i. (k.proc_set i).pid) (t.alone j lt also) in
            ground (arith, proc_set_status_lem (curr_proc k).pid runnable k.proc_set j)
        | inr not_running ↦
            ground (arith, proc_set_status_lem (curr_proc k).pid runnable k.proc_set j)
      ];
    })
    | inr stopped ↦ rw stopped (record {
      table = t.table;
      senders = t.senders;
      quiet = λ j lt. elim (Bool-cases (is_running (k.proc_set j).status)) [
        | inl also ↦ absurd (
            false≢true (
              sym stopped
              ∙ subst (λ i. is_running (k.proc_set i).status ≡ true) (t.alone j lt also) also))
        | inr not_running ↦ not_running
      ];
    })
  ]

  pub enter-SameProcess :
      (k : Kernel M) (j : ℕ)
      → SameProcess (k.proc_set j) ((enter k).proc_set j)
        × ((enter k).core_in_kernel ≡ k.core_in_kernel)
        × ((enter k).core_to_proc_idx ≡ k.core_to_proc_idx)
  unfolding enter
  enter-SameProcess k j = elim (Bool-cases (is_ready (curr_proc k).status)) [
    | inl fresh ↦ rw fresh (ground arith, ground arith, ground arith)
    | inr old ↦ rw old ((refl, refl, refl), refl, refl)
  ]

  pub preempt-core :
      (k : Kernel M)
      → ((preempt k).core_in_kernel ≡ k.core_in_kernel)
        × ((preempt k).core_to_proc_idx ≡ k.core_to_proc_idx)
  unfolding preempt
  preempt-core k = elim (Bool-cases (is_running (curr_proc k).status)) [
    | inl runs ↦ rw runs (refl, refl)
    | inr stopped ↦ rw stopped (refl, refl)
  ]

pub sent-IsQuiet :
    (last_pid i : ℕ) (sender : Process) (procs : Table)
    → 0 < sender.pid
    → IsQuiet last_pid procs
    → IsQuiet last_pid (sent i sender procs)
sent-IsQuiet last_pid i sender procs pos q = elim (Bool-cases (is_taking sender (procs i))) [
  | inr refuses ↦ rw refuses q
  | inl takes ↦ rw takes (record {
    table = record {
      given = λ j lt. ground (arith, q.table.given j lt);
      in_use = λ j lt used. ground (arith, q.table.in_use j lt);
      distinct = λ a b lt lt' pos' e. ground (arith, q.table.distinct a b lt lt');
    };
    senders = λ j lt e. ground (arith, q.senders j lt);
    quiet = λ j lt. ground (arith, q.quiet j lt);
  })
]

pub set_runnable-IsQuiet :
    (last_pid pid : ℕ) (procs : Table)
    → 0 < pid
    → IsQuiet last_pid procs
    → IsQuiet last_pid (proc_set_status pid runnable procs)
set_runnable-IsQuiet last_pid pid procs pos q = record {
  table = proc_set_status-IsTable last_pid pid runnable procs pos q.table;
  senders = λ j lt e. ground (arith, proc_set_status_lem pid runnable procs j, q.senders j lt);
  quiet = λ j lt. ground (arith, proc_set_status_lem pid runnable procs j, q.quiet j lt);
}

pub Delivery-cases : (d : Delivery) → (d ≡ pending) ⊎ (d ≡ done)
Delivery-cases pending = inl refl
Delivery-cases done = inr refl
