-- ===== src/Shell/Loop/Examples.antt =====
-- apps/system/sys_shell.c: the line "ls", which runs in the foreground.
use egos.Base.{ℕ, ◌≡◌, refl, false, ◌==◌, if◌then◌else◌, none, some, List, [], ◌∷◌, arith}
use egos.Kernel.Process.{unused, pending}
use egos.Shell.{Argv, Request, parse_request, parse_loop}
use egos.Servers.Process.{ProcServer, in_background}
use egos.Shell.Loop.{pwd, work_dir, shell_round}
use egos.Shell.Loop.Replies.{shell_round-replies}

abbrev Nothing : Type 0
Nothing = Unit {0}

abbrev no_free : ℕ → Nothing → Nothing
no_free pid memory = memory

-- The commands that start with 'l' are in inode 9.
abbrev lookup_bin : (ℕ → ℕ) → Nothing → ℕ
lookup_bin name memory = if name 0 == 108 then 9 else 4294967295

abbrev no_load : ℕ → ℕ → ℕ → Argv → Nothing → Nothing
no_load pid ino argc argv memory = memory

-- The servers have the pids 1 to 4.
abbrev idle : ProcServer Nothing
idle = record {
  app_ino = 0;
  app_pid = 0;
  shell_waiting = false;
  procs = λ i. record {
    pid = 0;
    syscall = record { type = 0; sender = 0; receiver = 0; content = []; delivery = pending };
    status = unused;
    mepc = 0;
    saved_registers = λ j. 0;
  };
  last_pid = 4;
  memory = tt;
  replies = [];
}

abbrev before : Request
before = record { argc = 0; argv = λ i j. 0 }

abbrev ls : List ℕ
ls = 108 ∷ 115 ∷ []

abbrev argv : Argv
argv i j = if i == 0 then (if j == 0 then 108 else if j == 1 then 115 else 0) else 0

pwd_prints :
    shell_round no_free lookup_bin no_load pwd (47 ∷ []) before [] idle
    ≡ some (some (work_dir (47 ∷ [])), idle)
unfolding shell_round
pwd_prints = refl

parsed : (req : Request) × (parse_request ls ≡ some req)
unfolding parse_request parse_loop
parsed = (_, refl)

-- Process 5 is the command.
shell_round-replies_example :
    (s' : ProcServer Nothing) × (shell_round no_free lookup_bin no_load ls
        (47 ∷ [])
        before
        (6 ∷ 5 ∷ [])
        idle
      ≡ some (none, s'))
    × (s'.replies ≡ [])
unfolding parsed in_background
shell_round-replies_example =
    shell_round-replies no_free lookup_bin no_load ls (47 ∷ []) before (6 ∷ 5 ∷ []) idle (parsed.0)
      false 0 refl (parsed.1) refl (omega arith) refl refl (refl, (refl, tt))
      (λ ok foreground. refl)
