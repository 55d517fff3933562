-- ===== src/Kernel/Process/Table.antt =====
-- grass/process.c: what the loops over the process table do to each entry, and the invariant that
-- no two entries have the same pid.
use egos.Base.{
  ℕ, zero, suc, ◌+◌, ◌%◌, ◌≤◌, ◌<◌, ◌≡◌, refl, ◌∙◌, true, false, not, ◌&&◌, Option, none, some, ltb,
  leb, ◌==◌, if◌then◌else◌, update, arith, ==_iff, Bool-cases, ◌⊎◌, inl, inr,
}
use egos.Kernel.Process.{
  Table, Status, unused, loading, Allocated, max_nprocess, is_unused, is_user, gpid_all,
  set_status_from, proc_set_status, alloc_from, proc_alloc, free_user, free_users_from, proc_free,
}

set_status_from_lem :
    (rounds i pid : ℕ) (status : Status) (procs : Table) (j : ℕ)
    → set_status_from rounds i pid status procs j ≡ (
        if leb i j && ltb j (i + rounds) && ((procs j).pid == pid)
        then record (procs j) { status = status }
        else procs j)
unfolding set_status_from
set_status_from_lem zero i pid status procs j = ground arith
set_status_from_lem (suc rounds) i pid status procs j =
    rw
      (set_status_from_lem rounds (suc i) pid status
        (if (procs i).pid == pid
          then update procs i (record (procs i) { status = status })
          else procs)
        j)
      (ground arith)

-- `proc_set_status` sets the status of the entries with the pid, and nothing else.
pub proc_set_status_lem :
    (pid : ℕ) (status : Status) (procs : Table) (j : ℕ)
    → proc_set_status pid status procs j ≡ (
        if ltb j max_nprocess && ((procs j).pid == pid)
        then record (procs j) { status = status }
        else procs j)
unfolding proc_set_status
proc_set_status_lem pid status procs j = set_status_from_lem 16 0 pid status procs j ∙ ground arith

-- The entry that `proc_alloc` hands out, as it leaves it.
abbrev pub allocated : ℕ → ℕ → Table → Allocated
allocated last_pid slot procs = record {
  pid = (last_pid + 1) % 4294967296;
  procs =
      update procs slot
        (record (procs slot) { pid = (last_pid + 1) % 4294967296; status = loading });
  last_pid = (last_pid + 1) % 4294967296;
}

-- Entries from `lo` up to `hi` are all in use.
abbrev pub AllUsed : ℕ → ℕ → Table → Type 0
AllUsed lo hi procs = (j : ℕ) → lo ≤ j → j < hi → is_unused (procs j).status ≡ false

-- The first entry that is not in use is taken, or there is none.
abbrev pub Allocates : ℕ → ℕ → ℕ → Table → Option Allocated → Type 0
Allocates lo hi last_pid procs r =
    ((r ≡ none) × AllUsed lo hi procs)
    ⊎ ((slot : ℕ) × (lo ≤ slot)
        × (slot < hi)
        × (is_unused (procs slot).status ≡ true)
        × AllUsed lo slot procs
        × (r ≡ some (allocated last_pid slot procs)))

AllUsed-cons :
    (lo hi : ℕ) (procs : Table)
    → is_unused (procs lo).status ≡ false
    → AllUsed (suc lo) hi procs
    → AllUsed lo hi procs
AllUsed-cons lo hi procs used rest j le lt = elim (Bool-cases (lo == j)) [
  | inl here ↦ rw (← (==_iff lo j).0 here) used
  | inr there ↦ rest j (ground arith) lt
]

alloc_from-Allocates :
    (rounds i hi last_pid : ℕ) (procs : Table)
    → hi ≡ i + rounds
    → Allocates i hi last_pid procs (alloc_from rounds i last_pid procs)
unfolding alloc_from
alloc_from-Allocates zero i hi last_pid procs e = inl (refl, λ j le lt. absurd (omega arith))
alloc_from-Allocates (suc rounds) i hi last_pid procs e =
    elim (Bool-cases (is_unused (procs i).status)) [
      | inl free ↦ inr (i, omega arith, omega arith, free, λ j le lt. absurd (omega arith), rw free)
      | inr used ↦
          rw used (elim (alloc_from-Allocates rounds (suc i) hi last_pid procs (omega arith)) [
            | inl (fails, all) ↦ inl (fails, AllUsed-cons i hi procs used all)
            | inr (slot, le, lt, free, all, gives) ↦
                inr (slot, omega arith, lt, free, AllUsed-cons i slot procs used all, gives)
          ])
    ]

-- `proc_alloc` hands out the first of the 16 entries that is unused, with the next pid and in
-- status LOADING, and fails exactly if all are in use.
pub proc_alloc-Allocates :
    (last_pid : ℕ) (procs : Table)
    → Allocates 0 max_nprocess last_pid procs (proc_alloc last_pid procs)
unfolding proc_alloc
proc_alloc-Allocates last_pid procs = alloc_from-Allocates 16 0 16 last_pid procs (omega arith)

-- Entry j has a pid that was given out, and shares it with no other entry. Pid 0 marks an entry
-- that was never used.
pub record IsTable (last_pid : ℕ) (procs : Table) : Type 0 where
  pub given : (j : ℕ) → j < max_nprocess → (procs j).pid ≤ last_pid
  pub in_use : (j : ℕ) → j < max_nprocess → is_unused (procs j).status ≡ false → 0 < (procs j).pid
  pub distinct :
      (i j : ℕ)
      → i < max_nprocess
      → j < max_nprocess
      → 0 < (procs i).pid
      → (procs i).pid ≡ (procs j).pid
      → i ≡ j

allocated-IsTable :
    (last_pid pid slot : ℕ) (procs : Table)
    → pid ≡ last_pid + 1
    → IsTable last_pid procs
    → IsTable pid (update procs slot (record (procs slot) { pid = pid; status = loading }))
allocated-IsTable last_pid pid slot procs e v = record {
  given = λ j lt. ground (arith, v.given j lt);
  in_use = λ j lt used. ground (arith, v.in_use j lt);
  distinct =
      λ i j lt lt' pos e'. ground (arith, v.distinct i j lt lt', v.given i lt, v.given j lt');
}

-- In a table with distinct pids up to `last_pid`, and before the counter wraps, the pid that
-- `proc_alloc` returns is larger than all before, and the table has distinct pids again.
pub proc_alloc-IsTable :
    (last_pid : ℕ) (procs : Table) (r : Allocated)
    → IsTable last_pid procs
    → last_pid + 1 < 4294967296
    → proc_alloc last_pid procs ≡ some r
    → IsTable r.last_pid r.procs × (last_pid < r.pid) × (r.pid ≡ r.last_pid)
proc_alloc-IsTable last_pid procs r v small e = elim (proc_alloc-Allocates last_pid procs) [
  | inl (fails, all) ↦ cc
  | inr (slot, le, lt, free, all, gives) ↦
      let same : r ≡ allocated last_pid slot procs = cc in
      rw same (allocated-IsTable last_pid _ slot procs (omega arith) v, omega arith, refl)
]

-- A change of the status of the processes with a positive pid keeps a table with distinct
-- pids.
pub proc_set_status-IsTable :
    (last_pid pid : ℕ) (status : Status) (procs : Table)
    → 0 < pid
    → IsTable last_pid procs
    → IsTable last_pid (proc_set_status pid status procs)
proc_set_status-IsTable last_pid pid status procs pos v = record {
  given = λ j lt. ground (arith, proc_set_status_lem pid status procs j, v.given j lt);
  in_use = λ j lt used. ground (arith, proc_set_status_lem pid status procs j, v.in_use j lt);
  distinct = λ i j lt lt' pos' e. ground (
    arith,
    proc_set_status_lem pid status procs i,
    proc_set_status_lem pid status procs j,
    v.distinct i j lt lt',
  );
}

module _ {M : Type 0} (mmu_free : ℕ → M → M) where
  free_user_lem :
      (i : ℕ) (state : Table × M) (j : ℕ)
      → (free_user mmu_free i state).0 j ≡ (
          if (i == j) && (is_user (state.0 j).pid && not (is_unused (state.0 j).status))
          then record (state.0 j) { status = unused }
          else state.0 j)
  unfolding free_user
  free_user_lem i (procs, memory) j = ground arith

  free_users_from_lem :
      (rounds i : ℕ) (state : Table × M) (j : ℕ)
      → (free_users_from mmu_free rounds i state).0 j ≡ (
          if leb i j
            && ltb j (i + rounds)
            && (is_user (state.0 j).pid && not (is_unused (state.0 j).status))
          then record (state.0 j) { status = unused }
          else state.0 j)
  unfolding free_users_from
  free_users_from_lem zero i state j = ground arith
  free_users_from_lem (suc rounds) i state j =
      rw (free_users_from_lem rounds (suc i) (free_user mmu_free i state) j)
        (ground (arith, free_user_lem i state j))

  -- `proc_free` marks as unused the entries with the pid and no others; with GPID_ALL, the
  -- entries of all user processes that are in use, and no others.
  pub proc_free_lem :
      (pid : ℕ) (procs : Table) (memory : M) (j : ℕ)
      → (proc_free mmu_free pid (procs, memory)).0 j ≡ (
          if ltb j max_nprocess
            && (if pid == gpid_all
                then is_user (procs j).pid && not (is_unused (procs j).status)
                else ((procs j).pid == pid))
          then record (procs j) { status = unused }
          else procs j)
  unfolding proc_free
  proc_free_lem pid procs memory j = elim (Bool-cases (pid == gpid_all)) [
    | inl all ↦ rw (all, proc_free) (free_users_from_lem 16 0 (procs, memory) j ∙ ground arith)
    | inr one ↦ rw (one, proc_free) (proc_set_status_lem pid unused procs j)
  ]
