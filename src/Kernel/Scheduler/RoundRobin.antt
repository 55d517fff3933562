-- ===== src/Kernel/Scheduler/RoundRobin.antt =====
-- grass/kernel.c: the scheduler is round robin. The processes are looked at from the one behind
-- the current process on, and the current one comes last.
use mathlib.Core.Bool.{false≢true}
use egos.Base.{
  ℕ, zero, suc, ◌+◌, ◌%◌, ◌≤◌, ◌<◌, ◌≡◌, refl, sym, ap, subst, ◌∙◌, true, false, some, ◌==◌, ltb,
  lt→ltb, arith, ==_iff, Bool-cases, inl, inr, ◌⊎◌,
}
use egos.Kernel.Process.{
  Table, runnable, max_nprocess, is_running, is_pending, can_run, pending, sys_recv,
}
use egos.Kernel.Process.Table.{proc_set_status_lem}
use egos.Kernel.Earth.{Earth}
use egos.Kernel.Messages.Calls.{proc_try_syscall-waits}
use egos.Kernel.Scheduler.Quiet.{IsScheduled}
use egos.Kernel.Scheduler.{
  Kernel, curr_proc, curr_proc_idx, preempt, try_syscall, retry, find_next, switch_to, proc_yield,
}

-- Every process with a system call waits for a message that is not there yet.
abbrev pub AllWaiting : Table → Type 0
AllWaiting procs =
    (j : ℕ)
    → j < max_nprocess
    → is_pending (procs j).status ≡ true
    → ((procs j).syscall.type ≡ sys_recv) × ((procs j).syscall.delivery ≡ pending)

-- None of the processes at places lo to hi - 1 behind entry c can run.
abbrev pub NoneRuns : ℕ → ℕ → ℕ → Table → Type 0
NoneRuns c lo hi procs =
    (i : ℕ) → lo ≤ i → i < hi → can_run (procs ((c + i) % max_nprocess)).status ≡ false

-- The choice is the first process behind entry c that can run, or none can.
abbrev pub Picks : ℕ → ℕ → ℕ → Table → ℕ → Type 0
Picks c lo hi procs next_idx =
    ((next_idx ≡ max_nprocess) × NoneRuns c lo hi procs)
    ⊎ ((i : ℕ) × (lo ≤ i)
        × (i < hi)
        × (next_idx ≡ (c + i) % max_nprocess)
        × (can_run (procs next_idx).status ≡ true)
        × NoneRuns c lo i procs)

NoneRuns-cons :
    (c lo hi : ℕ) (procs : Table)
    → can_run (procs ((c + lo) % max_nprocess)).status ≡ false
    → NoneRuns c (suc lo) hi procs
    → NoneRuns c lo hi procs
NoneRuns-cons c lo hi procs here rest i le lt = elim (Bool-cases (lo == i)) [
  | inl same ↦
      subst (λ a. can_run (procs ((c + a) % max_nprocess)).status ≡ false) ((==_iff lo i).0 same)
        here
  | inr other ↦ rest i (ground arith) lt
]

module _ {M : Type 0} (earth : Earth M) where
  retry-waits :
      (idx : ℕ) (k : Kernel M)
      → idx < max_nprocess
      → AllWaiting k.proc_set
      → retry earth idx k ≡ some k
  unfolding retry try_syscall
  retry-waits idx k lt w = elim (Bool-cases (is_pending (k.proc_set idx).status)) [
    | inl waits ↦
        let (recv, undone) = w idx lt waits in
        rw (waits, proc_try_syscall-waits earth idx k.proc_set k.memory recv undone)
    | inr other ↦ rw other
  ]

  find_next-Picks :
      (rounds i hi : ℕ) (k : Kernel M)
      → hi ≡ i + rounds
      → AllWaiting k.proc_set
      → (next_idx : ℕ) × (find_next earth rounds i k ≡ some (k, next_idx))
        × Picks (curr_proc_idx k) i hi k.proc_set next_idx
  unfolding find_next
  find_next-Picks zero i hi k e w = (16, refl, inl (refl, λ j le lt. absurd (omega arith)))
  find_next-Picks (suc rounds) i hi k e w =
      let idx = (curr_proc_idx k + i) % max_nprocess in
      let same = retry-waits idx k (omega arith) w in
      elim (Bool-cases (can_run (k.proc_set idx).status)) [
        | inl runs ↦ (
          idx,
          rw (same, runs) refl,
          inr (i, omega arith, omega arith, refl, runs, λ j le lt. absurd (omega arith)),
        )
        | inr idle ↦
            let (next_idx, gives, picks) = find_next-Picks rounds (suc i) hi k (omega arith) w in
            (
              next_idx,
              rw (same, idle) gives,
              elim picks [
                | inl (no_one, none_runs) ↦
                    inl (no_one, NoneRuns-cons (curr_proc_idx k) i hi k.proc_set idle none_runs)
                | inr (j, le, lt, at, runs, before) ↦ inr (
                  j,
                  omega arith,
                  lt,
                  at,
                  runs,
                  NoneRuns-cons (curr_proc_idx k) i j k.proc_set idle before,
                )
              ],
            )
      ]

preempt-AllWaiting :
    {M : Type 0} (k : Kernel M) → AllWaiting k.proc_set → AllWaiting (preempt k).proc_set
unfolding preempt
preempt-AllWaiting k w = elim (Bool-cases (is_running (curr_proc k).status)) [
  | inl runs ↦ rw runs (λ j lt waits.
      ground (arith, proc_set_status_lem (curr_proc k).pid runnable k.proc_set j, w j lt))
  | inr stopped ↦ rw stopped w
]

preempt-runnable :
    {M : Type 0} (last_pid : ℕ) (k : Kernel M)
    → IsScheduled last_pid k
    → (curr_proc_idx (preempt k) ≡ curr_proc_idx k)
      × (can_run ((preempt k).proc_set (curr_proc_idx k)).status ≡ true)
unfolding preempt
preempt-runnable last_pid k s = rw s.runs (
  refl,
  ground (
    arith,
    s.current,
    proc_set_status_lem (curr_proc k).pid runnable k.proc_set (curr_proc_idx k),
  ),
)

module _ {M : Type 0} (earth : Earth M) where
  -- `proc_yield` goes on with the process at the first place behind entry c that can run.
  abbrev pub Yields : Kernel M → ℕ → Type 0
  Yields k c =
      (i : ℕ) × (1 ≤ i)
      × (i ≤ max_nprocess)
      × (can_run ((preempt k).proc_set ((c + i) % max_nprocess)).status ≡ true)
      × NoneRuns c 1 i (preempt k).proc_set
      × (proc_yield earth k ≡ some (switch_to earth ((c + i) % max_nprocess) (preempt k)))

  Picks-Yields :
      (k : Kernel M) (c next_idx : ℕ)
      → c < max_nprocess
      → can_run ((preempt k).proc_set c).status ≡ true
      → find_next earth 16 1 (preempt k) ≡ some (preempt k, next_idx)
      → Picks c 1 17 (preempt k).proc_set next_idx
      → Yields k c
  unfolding proc_yield
  Picks-Yields k c next_idx lt runs gives (inl (no_one, none_runs)) =
      let same : (c + 16) % max_nprocess ≡ c = omega arith in
      absurd (
        false≢true (
          sym (none_runs 16 (omega arith) (omega arith))
          ∙ subst (λ a. can_run ((preempt k).proc_set a).status ≡ true) (sym same) runs))
  Picks-Yields k c next_idx lt runs gives (inr (i, le, lt', at, can, before)) =
      let chosen : ltb next_idx max_nprocess ≡ true = lt→ltb _ _ (omega arith) in
      (
        i,
        le,
        omega arith,
        subst (λ a. can_run ((preempt k).proc_set a).status ≡ true) at can,
        before,
        rw (gives, chosen) (ap (λ a. some (switch_to earth a (preempt k))) at),
      )

  -- From a state with one running process, the current one, while every process with a pending
  -- system call waits for a message that has not come, `proc_yield` never stops the kernel: it
  -- switches to the first process that can run, counted from the entry behind the current one
  -- round to the current one itself.
  pub proc_yield-round_robin :
      (last_pid : ℕ) (k : Kernel M)
      → IsScheduled last_pid k
      → AllWaiting k.proc_set
      → Yields k (curr_proc_idx k)
  proc_yield-round_robin last_pid k s w =
      let (at, runs) = preempt-runnable last_pid k s in
      let (next_idx, gives, picks) =
        find_next-Picks earth 16 1 17 (preempt k) (omega arith) (preempt-AllWaiting k w) in
      Picks-Yields k (curr_proc_idx k) next_idx s.current runs gives
        (subst (λ c. Picks c 1 17 (preempt k).proc_set next_idx) at picks)
