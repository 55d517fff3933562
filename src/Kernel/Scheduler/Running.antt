-- ===== src/Kernel/Scheduler/Running.antt =====
-- grass/kernel.c: system calls that are tried again, and the search for the next process, keep the
-- table quiet.
use egos.Base.{
  ℕ, zero, suc, ◌+◌, ◌%◌, ◌<◌, ◌≡◌, refl, ◌∙◌, true, some, arith, Bool-cases, Option-cases,
  eq_of_some, not_none, inl, inr,
}
use egos.Kernel.Process.{Table, max_nprocess, is_pending, can_run}
use egos.Kernel.Earth.{Earth}
use egos.Kernel.Messages.{proc_try_send, proc_try_recv}
use egos.Kernel.Messages.Calls.{proc_try_syscall-Tries}
use egos.Kernel.Messages.Rendezvous.{sent, proc_try_send-Sends}
use egos.Kernel.Scheduler.Quiet.{
  IsQuiet, sent-IsQuiet, set_runnable-IsQuiet, used_of_pending, Delivery-cases,
}
use egos.Kernel.Scheduler.{Kernel, curr_proc_idx, try_syscall, retry, find_next}

module _ {M : Type 0} (earth : Earth M) where
  recv-IsQuiet :
      (last_pid idx : ℕ) (procs : Table) (memory : M)
      → idx < max_nprocess
      → 0 < (procs idx).pid
      → IsQuiet last_pid procs
      → IsQuiet last_pid (proc_try_recv earth idx procs memory).0
  unfolding proc_try_recv
  recv-IsQuiet last_pid idx procs memory lt pos q =
      elim (Delivery-cases (procs idx).syscall.delivery) [
        | inl waits ↦ rw waits q
        | inr over ↦ rw over (
            set_runnable-IsQuiet last_pid _ _ (q.senders idx lt over)
              (set_runnable-IsQuiet last_pid _ procs pos q))
      ]

  -- What a try of a system call keeps.
  pub record Tried (last_pid : ℕ) (k k' : Kernel M) : Type 0 where
    pub still : IsQuiet last_pid k'.proc_set
    pub core : k'.core_in_kernel ≡ k.core_in_kernel
    pub indices : k'.core_to_proc_idx ≡ k.core_to_proc_idx

  send-IsQuiet :
      (last_pid idx : ℕ) (procs procs' : Table)
      → 0 < (procs idx).pid
      → IsQuiet last_pid procs
      → proc_try_send idx procs ≡ some procs'
      → IsQuiet last_pid procs'
  send-IsQuiet last_pid idx procs procs' pos q e = elim (proc_try_send-Sends idx procs) [
    | inl (fails, none_there) ↦ cc
    | inr (i, le, lt, hit, before, gives) ↦
        let same : procs' ≡ sent i (procs idx) procs = cc in
        rw same (sent-IsQuiet last_pid i (procs idx) procs pos q)
  ]

  pub try_syscall-Tried :
      (last_pid idx : ℕ) (k k' : Kernel M)
      → idx < max_nprocess
      → 0 < (k.proc_set idx).pid
      → IsQuiet last_pid k.proc_set
      → try_syscall earth idx k ≡ some k'
      → Tried last_pid k k'
  unfolding try_syscall
  try_syscall-Tried last_pid idx k k' lt pos q e =
      elim (proc_try_syscall-Tries earth idx k.proc_set k.memory) [
        | inl recv ↦
            let same = eq_of_some (rw recv at e) in
            rw (← same) (record {
              still = recv-IsQuiet last_pid idx k.proc_set k.memory lt pos q;
              core = refl;
              indices = refl;
            })
        | inr (inl (procs', gives, send)) ↦
            let same = eq_of_some (rw send at e) in
            rw (← same) (record {
              still = send-IsQuiet last_pid idx k.proc_set procs' pos q gives;
              core = refl;
              indices = refl;
            })
        | inr (inr fails) ↦ absurd (not_none (rw fails at e))
      ]

  retry-Tried :
      (last_pid idx : ℕ) (k k' : Kernel M)
      → idx < max_nprocess
      → IsQuiet last_pid k.proc_set
      → retry earth idx k ≡ some k'
      → Tried last_pid k k'
  unfolding retry
  retry-Tried last_pid idx k k' lt q e = elim (Bool-cases (is_pending (k.proc_set idx).status)) [
    | inl waits ↦
        try_syscall-Tried last_pid idx k k' lt
          (q.table.in_use idx lt (used_of_pending (k.proc_set idx).status waits)) q (rw waits at e)
    | inr not_waiting ↦
        let same = eq_of_some (rw not_waiting at e) in
        rw (← same) (record { still = q; core = refl; indices = refl })
  ]

  -- What the search for the next process leaves, and what it finds.
  pub record Found (last_pid : ℕ) (k : Kernel M) (r : Kernel M × ℕ) : Type 0 where
    pub tried : Tried last_pid k r.0
    pub choice : r.1 < max_nprocess → can_run (r.0.proc_set r.1).status ≡ true

  pub find_next-Found :
      (rounds i last_pid : ℕ) (k : Kernel M) (r : Kernel M × ℕ)
      → IsQuiet last_pid k.proc_set
      → find_next earth rounds i k ≡ some r
      → Found last_pid k r
  unfolding find_next
  find_next-Found zero i last_pid k r q e = rw (← eq_of_some e) (record {
    tried = record { still = q; core = refl; indices = refl };
    choice = λ lt. absurd (omega arith);
  })
  find_next-Found (suc rounds) i last_pid k r q e =
      let idx = (curr_proc_idx k + i) % max_nprocess in
      elim (Option-cases (retry earth idx k)) [
        | inl fails ↦ absurd (not_none (rw fails at e))
        | inr (k', gives) ↦
            let t = retry-Tried last_pid idx k k' (omega arith) q gives in
            elim (Bool-cases (can_run (k'.proc_set idx).status)) [
              | inl runs ↦
                  rw (← eq_of_some (rw (gives, runs) at e))
                    (record { tried = t; choice = λ lt. runs })
              | inr idle ↦
                  let f =
                    find_next-Found rounds (suc i) last_pid k' r t.still (rw (gives, idle) at e) in
                  record {
                    tried = record {
                      still = f.tried.still;
                      core = f.tried.core ∙ t.core;
                      indices = f.tried.indices ∙ t.indices;
                    };
                    choice = f.choice;
                  }
            ]
      ]
