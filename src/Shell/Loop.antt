-- ===== src/Shell/Loop.antt =====
-- apps/system/sys_shell.c: the loop of `main`, one command line at a time, with the process server
-- of apps/system/sys_proc.c as the one that it talks to.
pub mod Replies
mod Examples
use egos.Base.{
  ℕ, Bool, true, false, not, ◌||◌, ◌==◌, if◌then◌else◌, Option, none, some, List, [], ◌∷◌,
}
use egos.Kernel.Scheduler.{◌>>=◌}
use egos.Programs.{strings_eq}
use egos.Servers.Process.{
  ProcServer, ProcRequest, proc_spawn, proc_killall, cmd_ok, in_background, serve_proc,
}
use egos.Servers.Process.Replies.{run_exits}
use egos.Shell.{Argv, Request, parse_request}

abbrev pub gpid_shell : ℕ
gpid_shell = 4

-- What the shell prints in a round, besides the prompt.
pub data Output : Type 0 where
  clear_screen : Output
  work_dir : List ℕ → Output
  too_many : Output
  not_found : (ℕ → ℕ) → Output

abbrev pub coresinfo : List ℕ
coresinfo = 99 ∷ 111 ∷ 114 ∷ 101 ∷ 115 ∷ 105 ∷ 110 ∷ 102 ∷ 111 ∷ []

abbrev pub killall : List ℕ
killall = 107 ∷ 105 ∷ 108 ∷ 108 ∷ 97 ∷ 108 ∷ 108 ∷ []

abbrev pub clear : List ℕ
clear = 99 ∷ 108 ∷ 101 ∷ 97 ∷ 114 ∷ []

abbrev pub pwd : List ℕ
pwd = 112 ∷ 119 ∷ 100 ∷ []

module _ {M : Type 0} where
  -- sys_recv from the process server: the first message that the shell has not received, which is
  -- taken from `replies`; `none` waits for ever.
  abbrev pub take_reply : ProcServer M → Option (ℕ × ProcServer M)
  take_reply s = elim s.replies as (λ l. Option (ℕ × ProcServer M)) [
    | [] ↦ none
    | type ∷ replies ↦ some (type, record s { replies = replies })
  ]

  -- What follows the request of a command.
  pub await_command : Request → ProcServer M → Option (Option Output × ProcServer M)
  await_command req s = do
    (type, replied) ← take_reply s
    if not (type == cmd_ok) then some (some (not_found (req.argv 0)), replied) else do
      background ← in_background req
      if background
          then some (none, replied)
          else do (type, ended) ← take_reply replied; some (none, ended)

module _ {M : Type 0} (mmu_free : ℕ → M → M) (lookup_bin : (ℕ → ℕ) → M → ℕ)
    (elf_load : ℕ → ℕ → ℕ → Argv → M → M) where
  -- A command: the request is served, and the processes in `exits` exit before the next one. The
  -- shell receives the messages in the order in which they are sent.
  pub spawn_command : List ℕ → Option Request → ProcServer M → Option (Option Output × ProcServer M)
  spawn_command exits none s = some (some too_many, s)
  spawn_command exits (some req) s = do
    served ←
        serve_proc mmu_free lookup_bin elf_load gpid_shell
          (record { type = proc_spawn; request = req }) s
    await_command req (run_exits mmu_free lookup_bin elf_load exits served)

  -- A round with the line that was read, the path of the working directory, and what `req` holds
  -- before. `coresinfo` is an exercise.
  pub shell_round :
      List ℕ → List ℕ → Request → List ℕ → ProcServer M → Option (Option Output × ProcServer M)
  shell_round line workdir before exits s =
      if strings_eq line coresinfo
      then some (none, s)
      else if strings_eq line killall
      then (serve_proc mmu_free lookup_bin elf_load gpid_shell
            (record { type = proc_killall; request = before }) s
          >>= λ served. some (none, served))
      else if strings_eq line clear
      then some (some clear_screen, s)
      else if strings_eq line pwd
      then some (some (work_dir workdir), s)
      else spawn_command exits (parse_request line) s
