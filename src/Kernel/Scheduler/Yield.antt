-- ===== src/Kernel/Scheduler/Yield.antt =====
-- grass/kernel.c: after `proc_yield` one process runs, and it is the current one.
use egos.Base.{
  ℕ, ◌<◌, ◌≡◌, refl, sym, subst, true, some, ltb, ltb→lt, arith, ==_refl, Bool-cases, Option-cases,
  eq_of_some, not_none, inl, inr,
}
use egos.Kernel.Process.{Process, Table, running, max_nprocess, can_run, proc_set_status}
use egos.Kernel.Process.Table.{proc_set_status_lem, proc_set_status-IsTable}
use egos.Kernel.Earth.{Earth}
use egos.Kernel.Scheduler.Quiet.{
  IsQuiet, IsScheduled, IsTrapped, SameProcess, preempt-IsQuiet, enter-SameProcess, used_of_can_run,
}
use egos.Kernel.Scheduler.Running.{find_next-Found}
use egos.Kernel.Scheduler.{
  Kernel, curr_proc, curr_proc_idx, preempt, enter, find_next, choose, switch_to, proc_yield,
}

SameProcess-IsQuiet :
    (last_pid : ℕ) (procs procs' : Table)
    → ((j : ℕ) → SameProcess (procs j) (procs' j))
    → IsQuiet last_pid procs
    → IsQuiet last_pid procs'
SameProcess-IsQuiet last_pid procs procs' same q = record {
  table = record {
    given = λ j lt. ground (arith, same j, q.table.given j lt);
    in_use = λ j lt used. ground (arith, same j, q.table.in_use j lt);
    distinct = λ i j lt lt' pos e. ground (arith, same i, same j, q.table.distinct i j lt lt');
  };
  senders = λ j lt e. ground (arith, same j, q.senders j lt);
  quiet = λ j lt. ground (arith, same j, q.quiet j lt);
}

can_run-SameProcess :
    (p p' : Process) → SameProcess p p' → can_run p.status ≡ true → can_run p'.status ≡ true
can_run-SameProcess p p' same runs = rw same.2 runs

can_run_at :
    {M : Type 0} (k : Kernel M) (idx : ℕ)
    → curr_proc_idx k ≡ idx
    → can_run (k.proc_set idx).status ≡ true
    → can_run (curr_proc k).status ≡ true
can_run_at k idx at runs = subst (λ i. can_run (k.proc_set i).status ≡ true) (sym at) runs

module _ {M : Type 0} where
  -- The current process, which can run, is set running.
  set_running-IsScheduled :
      (last_pid : ℕ) (k : Kernel M) (memory : M)
      → curr_proc_idx k < max_nprocess
      → IsQuiet last_pid k.proc_set
      → can_run (curr_proc k).status ≡ true
      → IsScheduled last_pid (record k {
        proc_set = proc_set_status (curr_proc k).pid running k.proc_set;
        memory = memory;
      })
  set_running-IsScheduled last_pid k memory lt q runs =
      let idx = curr_proc_idx k in
      let pid = (curr_proc k).pid in
      let pos = q.table.in_use idx lt (used_of_can_run (curr_proc k).status runs) in
      record {
        table = proc_set_status-IsTable last_pid pid running k.proc_set pos q.table;
        senders = λ j lt' e.
            ground (arith, proc_set_status_lem pid running k.proc_set j, q.senders j lt');
        current = lt;
        runs = ground (arith, proc_set_status_lem pid running k.proc_set idx);
        alone = λ j lt' e. ground (
          arith,
          proc_set_status_lem pid running k.proc_set j,
          q.quiet j lt',
          q.table.distinct idx j lt lt',
        );
      }

module _ {M : Type 0} (earth : Earth M) where
  choose-at :
      (next_idx : ℕ) (k k' : Kernel M)
      → k'.core_in_kernel ≡ (choose earth next_idx k).core_in_kernel
      → k'.core_to_proc_idx ≡ (choose earth next_idx k).core_to_proc_idx
      → curr_proc_idx k' ≡ next_idx
  unfolding choose
  choose-at next_idx k k' e e' = rw (e, e') (rw (==_refl k.core_in_kernel) refl)

  switch_to-IsScheduled :
      (last_pid next_idx : ℕ) (k : Kernel M)
      → next_idx < max_nprocess
      → IsQuiet last_pid k.proc_set
      → can_run (k.proc_set next_idx).status ≡ true
      → IsScheduled last_pid (switch_to earth next_idx k)
  unfolding switch_to choose
  switch_to-IsScheduled last_pid next_idx k lt q runs =
      let chosen = choose earth next_idx k in
      let same = enter-SameProcess chosen in
      let at : curr_proc_idx (enter chosen) ≡ next_idx =
        choose-at next_idx k (enter chosen) (same 0).1 (same 0).2 in
      set_running-IsScheduled last_pid (enter chosen) _ (rw at lt)
        (SameProcess-IsQuiet last_pid k.proc_set (enter chosen).proc_set (λ j. (same j).0) q)
        (can_run_at (enter chosen) next_idx at (
          can_run-SameProcess (k.proc_set next_idx) ((enter chosen).proc_set next_idx)
            (same next_idx).0 runs))

  -- From a trap, `proc_yield` stops the kernel or leaves one running process, the current one.
  pub proc_yield-IsScheduled :
      (last_pid : ℕ) (k k' : Kernel M)
      → IsTrapped last_pid k
      → proc_yield earth k ≡ some k'
      → IsScheduled last_pid k'
  unfolding proc_yield
  proc_yield-IsScheduled last_pid k k' t e =
      elim (Option-cases (find_next earth max_nprocess 1 (preempt k))) [
        | inl fails ↦ absurd (not_none (rw fails at e))
        | inr ((found, next_idx), gives) ↦
            let f =
              find_next-Found earth 16 1 last_pid (preempt k) (found, next_idx)
                (preempt-IsQuiet last_pid k t) gives in
            elim (Bool-cases (ltb next_idx max_nprocess)) [
              | inl runs ↦
                  let lt = ltb→lt next_idx max_nprocess runs in
                  rw (← eq_of_some (rw (gives, runs) at e))
                    (switch_to-IsScheduled last_pid next_idx found lt f.tried.still (f.choice lt))
              | inr idle ↦ absurd (not_none (rw (gives, idle) at e))
            ]
      ]
