-- ===== src/Servers/Process/Examples.antt =====
-- apps/system/sys_proc.c: a command in the foreground, with memory and the loader left out.
use egos.Base.{ℕ, ◌≡◌, refl, false, Option, none, some, [], ◌∷◌, arith, ◌==◌, if◌then◌else◌}
use egos.Kernel.Process.{Table, unused, pending, proc_alloc, alloc_from}
use egos.Kernel.Process.Table.{IsTable}
use egos.Shell.{Argv, Request}
use egos.Servers.Process.{ProcServer, in_background, app_spawn, handle_spawn, serve_proc}
use egos.Servers.Process.Replies.{run_exits, handle_spawn-replies}
use egos.Servers.Process.Invariant.{serve_proc-IsTable}

abbrev Nothing : Type 0
Nothing = Unit {0}

abbrev no_free : ℕ → Nothing → Nothing
no_free pid memory = memory

-- The first argument is in "bin/" if it starts with 'l'.
abbrev lookup_bin : (ℕ → ℕ) → Nothing → ℕ
lookup_bin name memory = if name 0 == 108 then 9 else 4294967295

abbrev no_load : ℕ → ℕ → ℕ → Argv → Nothing → Nothing
no_load pid ino argc argv memory = memory

abbrev empty : Table
empty i = record {
  pid = 0;
  syscall = record { type = 0; sender = 0; receiver = 0; content = []; delivery = pending };
  status = unused;
  mepc = 0;
  saved_registers = λ j. 0;
}

-- The four servers have got the pids 1 to 4.
empty-IsTable : IsTable 4 empty
empty-IsTable = record {
  given = λ j lt. omega arith;
  in_use = λ j lt used. absurd (ground arith);
  distinct = λ i j lt lt' pos e. absurd (omega (arith, pos));
}

abbrev idle : ProcServer Nothing
idle = record {
  app_ino = 0;
  app_pid = 0;
  shell_waiting = false;
  procs = empty;
  last_pid = 4;
  memory = tt;
  replies = [];
}

abbrev ls : Request
ls = record { argc = 1; argv = λ i j. if j == 0 then 108 else if j == 1 then 115 else 0 }

abbrev or_idle : Option (ProcServer Nothing) → ProcServer Nothing
or_idle (some t) = t
or_idle none = idle

spawned : ProcServer Nothing
spawned = or_idle (handle_spawn no_free lookup_bin no_load ls idle)

spawned_lem : handle_spawn no_free lookup_bin no_load ls idle ≡ some spawned
unfolding spawned handle_spawn app_spawn in_background proc_alloc alloc_from
spawned_lem = refl

-- Process 5 is the command; another process exits first.
handle_spawn-replies_example :
    (run_exits no_free lookup_bin no_load (6 ∷ 5 ∷ []) spawned).replies ≡ 0 ∷ 1 ∷ []
unfolding spawned handle_spawn app_spawn in_background proc_alloc alloc_from
handle_spawn-replies_example =
    handle_spawn-replies no_free lookup_bin no_load ls false idle spawned (6 ∷ 5 ∷ []) refl
      spawned_lem (refl, (refl, tt))

serve_proc-IsTable_example : IsTable spawned.last_pid spawned.procs
unfolding serve_proc
serve_proc-IsTable_example =
    serve_proc-IsTable no_free lookup_bin no_load 4 (record { type = 0; request = ls }) idle spawned
      empty-IsTable (omega arith) spawned_lem
