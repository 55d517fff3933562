-- ===== src/Kernel/Examples.antt =====
-- grass/process.c and grass/kernel.c on a table of two processes.
use mathlib.Core.Bool.{false≢true}
use egos.Base.{
  ℕ, ◌+◌, ◌≡◌, ◌≢◌, ◌⊎◌, refl, sym, subst, [], ◌∷◌, some, ◌==◌, if◌then◌else◌, update, arith, inl,
  inr,
}
use egos.Kernel.Process.{
  Process, Syscall, Table, Status, unused, running, runnable, pending_syscall, pending, done,
  sys_recv, sys_send, gpid_all, proc_set_status, proc_alloc, proc_free,
}
use egos.Kernel.Process.Table.{
  IsTable, allocated, proc_alloc-Allocates, proc_free_lem, proc_set_status_lem,
}
use egos.Kernel.Messages.{proc_try_send, proc_try_recv}
use egos.Kernel.Messages.Delivery.{
  Waits, received, proc_try_send-delivers, rendezvous, proc_try_recv-revives,
}
use egos.Kernel.Scheduler.Traps.{kernel_entry-IsScheduled}
use egos.Kernel.Scheduler.Timer.{kernel_entry-timer}
use egos.Kernel.Earth.{Earth}
use egos.Kernel.Scheduler.{Kernel, Context, curr_proc, kernel_entry}
use egos.Kernel.Scheduler.Quiet.{IsScheduled}
use egos.Kernel.Scheduler.RoundRobin.{AllWaiting, Yields, proc_yield-round_robin}

-- A memory that holds one system call at each address, without virtual addresses.
abbrev Ram : Type 0
Ram = ℕ → Syscall

abbrev flat : Earth Ram
flat = record {
  mmu_translate = λ pid vaddr ram. (vaddr + pid, ram);
  mmu_switch = λ pid ram. ram;
  mmu_flush_cache = λ ram. ram;
  load = λ paddr ram. ram paddr;
  store = λ paddr call ram. update ram paddr call;
  timer_reset = λ core ram. ram;
}

abbrev no_call : Syscall
no_call = record { type = 0; sender = 0; receiver = 0; content = []; delivery = pending }

-- Process 2 sends to process 1.
abbrev sending : Syscall
sending = record { type = sys_send; sender = 0; receiver = 1; content = 7 ∷ []; delivery = pending }

-- Process 1 waits for process 2.
abbrev receiving : Syscall
receiving = record { type = sys_recv; sender = 2; receiver = 0; content = []; delivery = pending }

abbrev process : ℕ → Syscall → Status → Process
process pid call status = record {
  pid = pid;
  syscall = call;
  status = status;
  mepc = 0;
  saved_registers = λ i. 0;
}

-- Entry 0 holds process 1 and entry 1 process 2.
abbrev two : Process → Process → Table
two p q j = if j == 0 then p else if j == 1 then q else process 0 no_call unused

abbrev procs : Table
procs = two (process 1 receiving pending_syscall) (process 2 sending running)

procs-IsTable : IsTable 2 procs
procs-IsTable = record {
  given = λ j lt. ground arith;
  in_use = λ j lt used. ground arith;
  distinct = λ i j lt lt' pos e. ground arith;
}

abbrev kernel : Kernel Ram
kernel = record {
  core_in_kernel = 0;
  core_to_proc_idx = λ core. 1;
  proc_set = procs;
  memory = λ paddr. no_call;
}

kernel-IsScheduled : IsScheduled 2 kernel
kernel-IsScheduled = record {
  table = procs-IsTable;
  senders = λ j lt e. ground arith;
  current = omega arith;
  runs = refl;
  alone = λ j lt e. ground arith;
}

kernel-AllWaiting : AllWaiting kernel.proc_set
kernel-AllWaiting j lt waits = ground arith

abbrev context : Context
context = record { mepc = 4; registers = λ i. i }

proc_free_lem_example :
    (proc_free (λ pid (ram : Ram). ram) 2 (procs, kernel.memory)).0 1
    ≡ record (procs 1) { status = unused }
proc_free_lem_example = proc_free_lem (λ pid (ram : Ram). ram) 2 procs kernel.memory 1

proc_set_status_lem_example :
    proc_set_status 1 runnable procs 0 ≡ record (procs 0) { status = runnable }
proc_set_status_lem_example = proc_set_status_lem 1 runnable procs 0

allocates : proc_alloc 2 procs ≡ some (allocated 2 2 procs)
allocates = elim (proc_alloc-Allocates 2 procs) [
  | inl (fails, all) ↦ absurd (false≢true (sym (all 2 (omega arith) (omega arith))))
  | inr (slot, le, lt, free, before, gives) ↦
      let third : slot ≡ 2 = ground (arith, before 2) in
      subst (λ i. proc_alloc 2 procs ≡ some (allocated 2 i procs)) third gives
]

two-Waits : Waits 2 (procs 0)
two-Waits = (refl, refl, inr refl)

proc_try_send-delivers_example :
    (Waits 2 (procs 0)
      × (proc_try_send 1 procs ≡ some (update procs 0 (received 2 (7 ∷ []) (procs 0)))))
    ⊎ (¬ Waits 2 (procs 0) × (proc_try_send 1 procs ≡ some procs))
proc_try_send-delivers_example =
    proc_try_send-delivers 2 1 0 procs procs-IsTable (omega arith) (refl, refl)

rendezvous_example :
    (procs' : Table) × (proc_try_send 1 procs ≡ some procs')
    × (let (after, memory) = proc_try_recv flat 0 procs' kernel.memory in
        ((after 1).status ≡ runnable)
        × ((after 0).status ≡ runnable)
        × ((j : ℕ) → j ≢ 1 → j ≢ 0 → after j ≡ procs j)
        × (memory
            ≡ update kernel.memory 0x80601001 (record {
              type = sys_recv;
              sender = 2;
              receiver = 0;
              content = 7 ∷ [];
              delivery = done;
            })))
rendezvous_example =
    rendezvous flat 2 1 0 procs kernel.memory procs-IsTable (omega arith) (omega arith) refl
      (refl, refl) two-Waits

-- User process 7 sends to server 3, which takes messages of all.
abbrev served : Table
served =
    two
      (process 3
        (record {
          type = sys_recv;
          sender = gpid_all;
          receiver = 0;
          content = [];
          delivery = pending;
        })
        pending_syscall)
      (process 7 (record sending { receiver = 3 }) pending_syscall)

served-IsTable : IsTable 7 served
served-IsTable = record {
  given = λ j lt. ground arith;
  in_use = λ j lt used. ground arith;
  distinct = λ i j lt lt' pos e. ground arith;
}

proc_try_recv-revives_example :
    (procs' : Table) × (proc_try_send 1 served ≡ some procs')
    × (let (freed, memory) = proc_free (λ pid (ram : Ram). ram) gpid_all (procs', kernel.memory) in
        ((freed 1).status ≡ unused) × (((proc_try_recv flat 0 freed memory).0 1).status ≡ runnable))
proc_try_recv-revives_example =
    proc_try_recv-revives flat 7 1 0 served kernel.memory served-IsTable (omega arith) (omega arith)
      refl (refl, refl) (refl, refl, inl refl) (λ pid (ram : Ram). ram) refl refl

proc_yield-round_robin_example : Yields flat kernel 1
proc_yield-round_robin_example =
    proc_yield-round_robin flat 2 kernel kernel-IsScheduled kernel-AllWaiting

kernel_entry-timer_example :
    (r : Kernel Ram × Context) × (kernel_entry flat 0 0x80000007 context kernel ≡ some r)
kernel_entry-timer_example =
    kernel_entry-timer flat 2 0 0x80000007 context kernel kernel-IsScheduled kernel-AllWaiting
      (omega arith) (omega arith)

-- What the kernel returns to after the interrupt.
returned : (r : Kernel Ram × Context) × (kernel_entry flat 0 0x80000007 context kernel ≡ some r)
returned =
    kernel_entry-timer flat 2 0 0x80000007 context kernel kernel-IsScheduled kernel-AllWaiting
      (omega arith) (omega arith)

kernel_entry-IsScheduled_example :
    IsScheduled 2 returned.0.0
    × (returned.0.1.mepc ≡ (curr_proc returned.0.0).mepc)
    × (returned.0.1.registers ≡ (curr_proc returned.0.0).saved_registers)
kernel_entry-IsScheduled_example =
    kernel_entry-IsScheduled flat 2 0 0x80000007 context kernel returned.0 kernel-IsScheduled
      returned.1
