-- ===== src/Kernel/Messages/Rendezvous.antt =====
-- grass/kernel.c: which entry a send concerns, and what a receive does.
use mathlib.Core.Bool.{false≢true}
use egos.Base.{
  ℕ, zero, suc, ◌+◌, ◌≤◌, ◌<◌, ◌≡◌, refl, sym, subst, ◌∙◌, true, false, Option, none, some, ◌==◌,
  ltb, ◌&&◌, ◌||◌, if◌then◌else◌, update, arith, ==_iff, Bool-cases, ◌⊎◌, inl, inr,
}
use egos.Kernel.Process.{Process, Table, proc_set_status, pending, runnable, max_nprocess, done}
use egos.Kernel.Process.Table.{IsTable, proc_set_status_lem}
use egos.Kernel.Earth.{Earth}
use egos.Kernel.Messages.{
  is_receiver, is_taking, deliver, try_send_from, proc_try_send, proc_try_recv,
}

-- No entry from lo up to hi is the receiver.
abbrev pub NoReceiver : ℕ → ℕ → Process → Table → Type 0
NoReceiver lo hi sender procs = (j : ℕ) → lo ≤ j → j < hi → is_receiver sender (procs j) ≡ false

-- What a send leaves of the table when entry i is the receiver.
abbrev pub sent : ℕ → Process → Table → Table
sent i sender procs =
    if is_taking sender (procs i) then update procs i (deliver sender (procs i)) else procs

-- The first receiver is the only one that the send looks at.
abbrev pub Sends : ℕ → ℕ → Process → Table → Option Table → Type 0
Sends lo hi sender procs r =
    ((r ≡ none) × NoReceiver lo hi sender procs)
    ⊎ ((i : ℕ) × (lo ≤ i)
        × (i < hi)
        × (is_receiver sender (procs i) ≡ true)
        × NoReceiver lo i sender procs
        × (r ≡ some (sent i sender procs)))

NoReceiver-cons :
    (lo hi : ℕ) (sender : Process) (procs : Table)
    → is_receiver sender (procs lo) ≡ false
    → NoReceiver (suc lo) hi sender procs
    → NoReceiver lo hi sender procs
NoReceiver-cons lo hi sender procs here rest j le lt = elim (Bool-cases (lo == j)) [
  | inl same ↦ subst (λ k. is_receiver sender (procs k) ≡ false) ((==_iff lo j).0 same) here
  | inr other ↦ rest j (ground arith) lt
]

try_send_from-Sends :
    (rounds i hi : ℕ) (sender : Process) (procs : Table)
    → hi ≡ i + rounds
    → Sends i hi sender procs (try_send_from rounds i sender procs)
unfolding try_send_from
try_send_from-Sends zero i hi sender procs e = inl (refl, λ j le lt. absurd (omega arith))
try_send_from-Sends (suc rounds) i hi sender procs e =
    elim (Bool-cases (is_receiver sender (procs i))) [
      | inl hit ↦
          inr (
            i,
            omega arith,
            omega arith,
            hit,
            λ j le lt. absurd (omega arith),
            rw hit (ground arith),
          )
      | inr miss ↦
          rw miss (elim (try_send_from-Sends rounds (suc i) hi sender procs (omega arith)) [
            | inl (fails, none_there) ↦
                inl (fails, NoReceiver-cons i hi sender procs miss none_there)
            | inr (k, le, lt, hit, before, gives) ↦
                inr (k, omega arith, lt, hit, NoReceiver-cons i k sender procs miss before, gives)
          ])
    ]

pub proc_try_send-Sends :
    (idx : ℕ) (procs : Table) → Sends 0 max_nprocess (procs idx) procs (proc_try_send idx procs)
unfolding proc_try_send
proc_try_send-Sends idx procs = try_send_from-Sends 16 0 16 (procs idx) procs (omega arith)

-- With distinct pids only one entry can be the receiver.
pub proc_try_send-sent :
    (last_pid idx i : ℕ) (procs : Table)
    → IsTable last_pid procs
    → i < max_nprocess
    → is_receiver (procs idx) (procs i) ≡ true
    → proc_try_send idx procs ≡ some (sent i (procs idx) procs)
proc_try_send-sent last_pid idx i procs v lt hit = elim (proc_try_send-Sends idx procs) [
  | inl (fails, none_there) ↦ absurd (false≢true (sym (none_there i (omega arith) lt) ∙ hit))
  | inr (k, le, lt', hit', before, gives) ↦
      let same : k ≡ i = ground (arith, v.distinct k i lt' lt, v.in_use k lt') in rw same at gives
]

-- Without such a process the kernel stops.
pub proc_try_send-unknown :
    (idx : ℕ) (procs : Table)
    → NoReceiver 0 max_nprocess (procs idx) procs
    → proc_try_send idx procs ≡ none
proc_try_send-unknown idx procs no_one = elim (proc_try_send-Sends idx procs) [
  | inl (fails, none_there) ↦ fails
  | inr (k, le, lt, hit, before, gives) ↦
      absurd (false≢true (sym (no_one k (omega arith) lt) ∙ hit))
]

module _ {M : Type 0} (earth : Earth M) where
  open earth use {mmu_translate, store}

  -- A receive that is not done yet changes nothing.
  pub proc_try_recv-pending :
      (idx : ℕ) (procs : Table) (memory : M)
      → (procs idx).syscall.delivery ≡ pending
      → proc_try_recv earth idx procs memory ≡ (procs, memory)
  unfolding proc_try_recv
  proc_try_recv-pending idx procs memory e = rw e

  -- A receive that is done makes the receiver and the sender runnable and leaves all else.
  pub proc_try_recv-done :
      (idx j : ℕ) (procs : Table) (memory : M)
      → (procs idx).syscall.delivery ≡ done
      → (proc_try_recv earth idx procs memory).0 j ≡ (
          if ltb j max_nprocess
            && (((procs j).pid == (procs idx).pid) || ((procs j).pid == (procs idx).syscall.sender))
          then record (procs j) { status = runnable }
          else procs j)
  unfolding proc_try_recv
  proc_try_recv-done idx j procs memory e = rw e (
      ground (
        arith,
        proc_set_status_lem (procs idx).syscall.sender runnable
            (proc_set_status (procs idx).pid runnable procs) j,
        proc_set_status_lem (procs idx).pid runnable procs j,
      ))
