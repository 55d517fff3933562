-- ===== src/Kernel/Messages.antt =====
-- grass/kernel.c: `proc_try_send`, `proc_try_recv` and `proc_try_syscall`. A process is passed by
-- its index in the process table. `none` is FATAL, which stops the kernel.
pub mod Rendezvous
pub mod Calls
pub mod Delivery
use egos.Base.{
  ℕ, zero, suc, Bool, true, false, not, ◌&&◌, ◌||◌, Option, none, some, ◌==◌, if◌then◌else◌, update,
}
use egos.Kernel.Process.{
  Process, Syscall, Table, sys_recv, sys_send, gpid_all, max_nprocess, is_unused, is_pending_call,
  done, proc_set_runnable,
}
use egos.Kernel.Earth.{Earth}

abbrev pub syscall_arg : ℕ
syscall_arg = 0x80601000

-- dst->pid == sender->syscall.receiver && dst->status != PROC_UNUSED
abbrev pub is_receiver : Process → Process → Bool
is_receiver sender dst = (dst.pid == sender.syscall.receiver) && not (is_unused dst.status)

-- dst waits in SYS_RECV, for any process or for this sender.
abbrev pub is_taking : Process → Process → Bool
is_taking sender dst =
    ((dst.syscall.type == sys_recv) && is_pending_call dst.syscall.delivery)
    && ((dst.syscall.sender == gpid_all) || (dst.syscall.sender == sender.pid))

-- The receiver with the message in its system call.
abbrev pub deliver : Process → Process → Process
deliver sender dst = record dst {
  syscall = record (dst.syscall) {
    delivery = done;
    sender = sender.pid;
    content = sender.syscall.content;
  };
}

pub try_send_from : ℕ → ℕ → Process → Table → Option Table
try_send_from zero i sender procs = none
try_send_from (suc rounds) i sender procs =
    let later = try_send_from rounds (suc i) sender procs in
    if is_receiver sender (procs i)
    then (if is_taking sender (procs i)
        then some (update procs i (deliver sender (procs i)))
        else some procs)
    else later

pub proc_try_send : ℕ → Table → Option Table
unfolding try_send_from
proc_try_send idx procs = try_send_from max_nprocess 0 (procs idx) procs

module _ {M : Type 0} (earth : Earth M) where
  open earth use {mmu_translate, store}

  -- A call that is not done waits; else it is copied to the receiver's memory, and the receiver
  -- and the sender are runnable again.
  unfoldable pub proc_try_recv : ℕ → Table → M → Table × M
  proc_try_recv idx procs memory =
      let receiver = procs idx in
      let translated = mmu_translate receiver.pid syscall_arg memory in
      if is_pending_call receiver.syscall.delivery then (procs, memory) else (
        proc_set_runnable receiver.syscall.sender (proc_set_runnable receiver.pid procs),
        store translated.0 receiver.syscall translated.1,
      )

  pub proc_try_syscall : ℕ → Table → M → Option (Table × M)
  proc_try_syscall idx procs memory =
      if (procs idx).syscall.type == sys_recv
      then some (proc_try_recv idx procs memory)
      else if (procs idx).syscall.type == sys_send
      then elim (proc_try_send idx procs) [ none ↦ none | some procs' ↦ some (procs', memory) ]
      else none
