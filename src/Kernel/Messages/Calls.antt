-- ===== src/Kernel/Messages/Calls.antt =====
-- grass/kernel.c: what `proc_try_syscall` comes down to.
use egos.Base.{
  ℕ, ◌≡◌, ap, true, Option, none, some, ◌==◌, arith, Bool-cases, Option-cases, ◌⊎◌, inl, inr,
}
use egos.Kernel.Process.{Table, pending, sys_recv, sys_send}
use egos.Kernel.Earth.{Earth}
use egos.Kernel.Messages.{proc_try_send, proc_try_recv, proc_try_syscall}
use egos.Kernel.Messages.Rendezvous.{proc_try_recv-pending}

module _ {M : Type 0} (earth : Earth M) where
  -- A try of a system call is a receive, a send that finds a receiver, or FATAL.
  abbrev pub Tries : ℕ → Table → M → Option (Table × M) → Type 0
  Tries idx procs memory r =
      (r ≡ some (proc_try_recv earth idx procs memory))
      ⊎ ((procs' : Table) × (proc_try_send idx procs ≡ some procs') × (r ≡ some (procs', memory)))
      ⊎ (r ≡ none)

  pub proc_try_syscall-Tries :
      (idx : ℕ) (procs : Table) (memory : M)
      → Tries idx procs memory (proc_try_syscall earth idx procs memory)
  unfolding proc_try_syscall
  proc_try_syscall-Tries idx procs memory =
      elim (Bool-cases ((procs idx).syscall.type == sys_recv)) [
        | inl recv ↦ inl (rw recv)
        | inr other ↦ elim (Bool-cases ((procs idx).syscall.type == sys_send)) [
          | inl send ↦ elim (Option-cases (proc_try_send idx procs)) [
            | inl fails ↦ inr (inr (rw (other, send, fails)))
            | inr (procs', gives) ↦ inr (inl (procs', gives, rw (other, send, gives)))
          ]
          | inr neither ↦ inr (inr (rw (other, neither)))
        ]
      ]

  -- A receive that waits has no effect.
  pub proc_try_syscall-waits :
      (idx : ℕ) (procs : Table) (memory : M)
      → (procs idx).syscall.type ≡ sys_recv
      → (procs idx).syscall.delivery ≡ pending
      → proc_try_syscall earth idx procs memory ≡ some (procs, memory)
  unfolding proc_try_syscall
  proc_try_syscall-waits idx procs memory recv waits =
      let is : ((procs idx).syscall.type == sys_recv) ≡ true = ground arith in
      rw is (ap some (proc_try_recv-pending earth idx procs memory waits))
