-- ===== src/Servers/Process.antt =====
-- apps/system/sys_proc.c: the process server, one request at a time, and what the shell
-- (apps/system/sys_shell.c) waits for.
pub mod Replies
pub mod Invariant
mod Examples
use egos.Base.{
  ℕ, zero, suc, ◌+◌, ◌-◌, Bool, true, false, not, ◌&&◌, ◌==◌, leb, if◌then◌else◌, Option, none,
  some, List, [], ◌∷◌, ◌++◌,
}
use egos.Kernel.Process.{Table, Allocated, proc_alloc, proc_free, proc_set_ready, gpid_all}
use egos.Kernel.Scheduler.{◌>>=◌}
use egos.Shell.{Argv, Request}

abbrev pub proc_spawn : ℕ
proc_spawn = 0

abbrev pub proc_exit : ℕ
proc_exit = 1

abbrev pub proc_killall : ℕ
proc_killall = 2

abbrev pub cmd_ok : ℕ
cmd_ok = 0

abbrev pub cmd_error : ℕ
cmd_error = 1

abbrev pub ampersand : ℕ
ampersand = 38

-- The static variables and locals of sys_proc.c, the process table and the memory that the kernel
-- and the earth layer keep, and the messages to GPID_SHELL so far, each a word `type`.
pub record ProcServer (M : Type 0) : Type 0 where
  pub app_ino : ℕ
  pub app_pid : ℕ
  pub shell_waiting : Bool
  pub procs : Table
  pub last_pid : ℕ
  pub memory : M
  pub replies : List ℕ

-- struct proc_request, after its type.
pub record ProcRequest : Type 0 where
  pub type : ℕ
  pub request : Request

-- req->argv[req->argc - 1][0] == '&'. There is no such argument if argc is 0.
unfoldable pub in_background : Request → Option Bool
in_background req = if req.argc == 0 then none else some (req.argv (req.argc - 1) 0 == ampersand)

-- A negative `int`.
abbrev pub is_negative : ℕ → Bool
is_negative n = leb 2147483648 n

module _ {M : Type 0} (mmu_free : ℕ → M → M)
    -- dir_lookup, on the first argument in "bin/".
    (lookup_bin : (ℕ → ℕ) → M → ℕ)
    -- elf_load of the inode into the process, with the arguments.
    (elf_load : ℕ → ℕ → ℕ → Argv → M → M) where
  -- `none` is FATAL, or an argument that does not exist.
  pub app_spawn : Request → ProcServer M → Option (ℕ × ProcServer M)
  unfolding in_background
  app_spawn req s =
      let ino = lookup_bin (req.argv 0) s.memory in
      let found = record s { app_ino = ino } in
      if is_negative ino then some (cmd_error, found) else do
        background ← in_background req
        let argc = if background then req.argc - 1 else req.argc
        taken ← proc_alloc s.last_pid s.procs
        some (
          cmd_ok,
          record found {
            app_pid = taken.pid;
            last_pid = taken.last_pid;
            procs = proc_set_ready taken.pid taken.procs;
            memory = elf_load taken.pid ino argc req.argv s.memory;
          },
        )

  -- The word `type` of the message buffer stays PROC_EXIT.
  pub handle_exit : ℕ → ProcServer M → ProcServer M
  handle_exit sender s =
      let freed = proc_free mmu_free sender (s.procs, s.memory) in
      record s {
        procs = freed.0;
        memory = freed.1;
        replies =
            if s.shell_waiting && (s.app_pid == sender)
            then s.replies ++ proc_exit ∷ []
            else s.replies;
      }

  pub handle_spawn : Request → ProcServer M → Option (ProcServer M)
  unfolding app_spawn in_background
  handle_spawn req s = do
    (type, spawned) ← app_spawn req s
    background ← in_background req
    some (record spawned {
      shell_waiting = not background && (type == cmd_ok);
      replies = spawned.replies ++ type ∷ [];
    })

  pub handle_killall : ProcServer M → ProcServer M
  handle_killall s =
      let freed = proc_free mmu_free gpid_all (s.procs, s.memory) in
      record s { procs = freed.0; memory = freed.1 }

  -- One round of the loop of `main`; `none` is FATAL.
  pub serve_proc : ℕ → ProcRequest → ProcServer M → Option (ProcServer M)
  unfolding handle_spawn handle_exit handle_killall
  serve_proc sender req s =
      if req.type == proc_spawn
      then handle_spawn req.request s
      else if req.type == proc_exit
      then some (handle_exit sender s)
      else if req.type == proc_killall
      then some (handle_killall s)
      else none
