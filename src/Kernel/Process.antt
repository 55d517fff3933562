-- ===== src/Kernel/Process.antt =====
-- grass/process.h and grass/process.c: the process control blocks and the functions that manage
-- them, with library/syscall/syscall.h. A pid is an `int`, held as its 32-bit pattern.
pub mod Table
use egos.Base.{
  ℕ, zero, suc, ◌+◌, ◌%◌, Bool, true, false, not, ◌&&◌, Option, none, some, List, [], ltb, leb,
  ◌==◌, if◌then◌else◌, update,
}

abbrev pub max_nprocess : ℕ
max_nprocess = 16

-- enum grass_servers, from library/syscall/servers.h. GPID_ALL is -1.
abbrev pub gpid_all : ℕ
gpid_all = 4294967295

abbrev pub gpid_process : ℕ
gpid_process = 1

abbrev pub gpid_file : ℕ
gpid_file = 3

abbrev pub gpid_user_start : ℕ
gpid_user_start = 5

-- pid >= GPID_USER_START, an order of signed numbers.
abbrev pub is_user : ℕ → Bool
is_user pid = leb gpid_user_start pid && ltb pid 2147483648

pub data Status : Type 0 where
  unused loading ready running runnable pending_syscall : Status

abbrev pub is_unused : Status → Bool
is_unused unused = true
is_unused _ = false

abbrev pub is_running : Status → Bool
is_running running = true
is_running _ = false

abbrev pub is_pending : Status → Bool
is_pending pending_syscall = true
is_pending _ = false

abbrev pub is_ready : Status → Bool
is_ready ready = true
is_ready _ = false

-- status == PROC_READY || status == PROC_RUNNABLE
abbrev pub can_run : Status → Bool
can_run ready = true
can_run runnable = true
can_run _ = false

-- enum { PENDING, DONE } of struct syscall.
pub data Delivery : Type 0 where
  pending done : Delivery

abbrev pub is_pending_call : Delivery → Bool
is_pending_call pending = true
is_pending_call done = false

abbrev pub sys_recv : ℕ
sys_recv = 1

abbrev pub sys_send : ℕ
sys_send = 2

-- `type` is a word that a user program writes, so it can be any number.
pub record Syscall : Type 0 where
  pub type : ℕ
  pub sender : ℕ
  pub receiver : ℕ
  pub content : List ℕ
  pub delivery : Delivery

pub record Process : Type 0 where
  pub pid : ℕ
  pub syscall : Syscall
  pub status : Status
  pub mepc : ℕ
  pub saved_registers : ℕ → ℕ

-- proc_set: entries 0 to 15, and 16 as the place holder of idle cores.
abbrev pub Table : Type 0
Table = ℕ → Process

-- The loop of `proc_set_status`, with `rounds` entries to go from entry i.
pub set_status_from : ℕ → ℕ → ℕ → Status → Table → Table
set_status_from zero i pid status procs = procs
set_status_from (suc rounds) i pid status procs =
    set_status_from rounds (suc i) pid status (
      if (procs i).pid == pid then update procs i (record (procs i) { status = status }) else procs)

pub proc_set_status : ℕ → Status → Table → Table
unfolding set_status_from
proc_set_status pid status procs = set_status_from max_nprocess 0 pid status procs

abbrev pub proc_set_ready : ℕ → Table → Table
proc_set_ready pid = proc_set_status pid ready

abbrev pub proc_set_running : ℕ → Table → Table
proc_set_running pid = proc_set_status pid running

abbrev pub proc_set_runnable : ℕ → Table → Table
proc_set_runnable pid = proc_set_status pid runnable

abbrev pub proc_set_pending : ℕ → Table → Table
proc_set_pending pid = proc_set_status pid pending_syscall

-- What `proc_alloc` returns, with the table and the static counter that it leaves.
pub record Allocated : Type 0 where
  pub pid : ℕ
  pub procs : Table
  pub last_pid : ℕ

-- `none` is FATAL: the limit of processes is reached.
unfoldable pub alloc_from : ℕ → ℕ → ℕ → Table → Option Allocated
alloc_from zero i last_pid procs = none
alloc_from (suc rounds) i last_pid procs =
    let later = alloc_from rounds (suc i) last_pid procs in
    let pid = (last_pid + 1) % 4294967296 in
    if is_unused (procs i).status
    then some (record {
      pid = pid;
      procs = update procs i (record (procs i) { pid = pid; status = loading });
      last_pid = pid;
    })
    else later

unfoldable pub proc_alloc : ℕ → Table → Option Allocated
unfolding alloc_from
proc_alloc last_pid procs = alloc_from max_nprocess 0 last_pid procs

-- `proc_free`: `mmu_free` acts on the memory M.
module _ {M : Type 0} (mmu_free : ℕ → M → M) where
  pub free_user : ℕ → Table × M → Table × M
  free_user i (procs, memory) =
      if is_user (procs i).pid && not (is_unused (procs i).status)
      then (update procs i (record (procs i) { status = unused }), mmu_free (procs i).pid memory)
      else (procs, memory)

  pub free_users_from : ℕ → ℕ → Table × M → Table × M
  free_users_from zero i state = state
  free_users_from (suc rounds) i state = free_users_from rounds (suc i) (free_user i state)

  pub proc_free : ℕ → Table × M → Table × M
  unfolding free_users_from free_user
  proc_free pid (procs, memory) =
      if not (pid == gpid_all)
      then (proc_set_status pid unused procs, mmu_free pid memory)
      else free_users_from max_nprocess 0 (procs, memory)
