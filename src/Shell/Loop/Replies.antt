-- ===== src/Shell/Loop/Replies.antt =====
-- apps/system/sys_shell.c and sys_proc.c: the shell gets every reply that it waits for.
use egos.Base.{
  ℕ, ◌<◌, ◌≡◌, refl, ap, ◌∙◌, Bool, true, false, not, ◌&&◌, ◌||◌, ◌==◌, if◌then◌else◌, Option, none,
  some, List, [], ◌∷◌, ◌++◌, has, arith, Bool-cases, inl, inr,
}
use egos.FileSystem.Treedisk.FreeList.{Distinct}
use egos.Kernel.Process.{is_unused, max_nprocess}
use egos.Programs.{strings_eq}
use egos.Servers.Process.{ProcServer, is_negative, cmd_ok, cmd_error, proc_exit, in_background}
use egos.Servers.Process.Replies.{
  run_exits, spawn_type, next_pid, handle_spawn-replies, handle_spawn-returns, serve_proc-spawn,
}
use egos.Shell.{Argv, Request, parse_request}
use egos.Shell.Loop.{
  gpid_shell, Output, not_found, coresinfo, killall, clear, pwd, await_command, spawn_command,
  shell_round,
}

-- The line is a command for the process server.
abbrev pub is_built_in : List ℕ → Bool
is_built_in line =
    strings_eq line coresinfo
    || strings_eq line killall
    || strings_eq line clear
    || strings_eq line pwd

without_prefix : {xs ys zs : List ℕ} → xs ≡ [] → zs ≡ xs ++ ys → zs ≡ ys
without_prefix {ys} empty e = e ∙ ap (λ l. l ++ ys) empty

module _ {M : Type 0} (req : Request) (u : ProcServer M) where
  await-error :
      u.replies ≡ cmd_error ∷ []
      → await_command req u ≡ some (some (not_found (req.argv 0)), record u { replies = [] })
  unfolding await_command
  await-error e = rw e refl

  await-background :
      in_background req ≡ some true
      → u.replies ≡ cmd_ok ∷ []
      → await_command req u ≡ some (none, record u { replies = [] })
  unfolding await_command
  await-background b e = rw (e, b) refl

  await-foreground :
      in_background req ≡ some false
      → u.replies ≡ cmd_ok ∷ proc_exit ∷ []
      → await_command req u ≡ some (none, record u { replies = [] })
  unfolding await_command
  await-foreground b e = rw (e, b) refl

module _ {M : Type 0} (mmu_free : ℕ → M → M) (lookup_bin : (ℕ → ℕ) → M → ℕ)
    (elf_load : ℕ → ℕ → ℕ → Argv → M → M) where
  -- What is printed after a command.
  abbrev pub printed : Request → ProcServer M → Option Output
  printed req s =
      if is_negative (lookup_bin (req.argv 0) s.memory) then some (not_found (req.argv 0)) else none

  shell_round-command :
      (line workdir : List ℕ) (before : Request) (exits : List ℕ) (s : ProcServer M)
      → is_built_in line ≡ false
      → shell_round mmu_free lookup_bin elf_load line workdir before exits s
        ≡ spawn_command mmu_free lookup_bin elf_load exits (parse_request line) s
  unfolding shell_round
  shell_round-command line workdir before exits s command = ground (arith, command)

  -- Replies that come are awaited.
  awaits :
      (req : Request) (background : Bool) (s u : ProcServer M) (ended : Bool)
      → in_background req ≡ some background
      → (spawn_type mmu_free lookup_bin elf_load req s ≡ cmd_ok → background ≡ false → ended ≡ true)
      → let type = spawn_type mmu_free lookup_bin elf_load req s in
        u.replies
          ≡ type ∷ (if (not background && (type == cmd_ok)) && ended then proc_exit ∷ [] else [])
        → await_command req u ≡ some (printed req s, record u { replies = [] })
  awaits req true s u ended b ends e =
      elim (Bool-cases (is_negative (lookup_bin (req.argv 0) s.memory))) [
        | inl missing ↦ rw missing (await-error req u (rw missing at e))
        | inr found ↦ rw found (await-background req u b (rw found at e))
      ]
  awaits req false s u ended b ends e =
      elim (Bool-cases (is_negative (lookup_bin (req.argv 0) s.memory))) [
        | inl missing ↦ rw missing (await-error req u (rw missing at e))
        | inr found ↦
            let exited : ended ≡ true = (rw found at ends) refl refl in
            rw found (await-foreground req u b (rw (found, exited) at e))
      ]

  -- Let the line be none of the shell's own commands, and accepted with an argument. Let the
  -- table of processes have an unused entry, and the shell have received all earlier messages.
  -- Let processes exit after the request is served, no pid twice, and if the command is found
  -- and runs in the foreground, let its process be among them. Then the round of the shell
  -- ends, with every message of the process server received, and it prints that the command
  -- was not found exactly if `dir_lookup` gives a negative number.
  pub shell_round-replies :
      (line workdir : List ℕ) (before : Request) (exits : List ℕ) (s : ProcServer M) (req : Request)
      (background : Bool) (i : ℕ)
      → is_built_in line ≡ false
      → parse_request line ≡ some req
      → in_background req ≡ some background
      → i < max_nprocess
      → is_unused (s.procs i).status ≡ true
      → s.replies ≡ []
      → Distinct exits
      → (spawn_type mmu_free lookup_bin elf_load req s ≡ cmd_ok
          → background ≡ false
          → has (next_pid mmu_free lookup_bin elf_load s) exits ≡ true)
      → (s' : ProcServer M) × (shell_round mmu_free lookup_bin elf_load line workdir before exits s
          ≡ some (printed req s, s'))
        × (s'.replies ≡ [])
  unfolding spawn_command
  shell_round-replies line workdir before exits s req background i command parsed b lt free empty
        once ends =
      let (t, gives, pid) =
        handle_spawn-returns mmu_free lookup_bin elf_load req background s i b lt free in
      let sent =
        handle_spawn-replies mmu_free lookup_bin elf_load req background s t exits b gives once in
      let replies = without_prefix empty sent in
      let ended =
        λ (ok : spawn_type mmu_free lookup_bin elf_load req s ≡ cmd_ok)
            (foreground : background ≡ false).
          ap (λ p. has p exits) (pid ok) ∙ ends ok foreground in
      let ended_with : ProcServer M = run_exits mmu_free lookup_bin elf_load exits t in
      (
        record ended_with { replies = [] },
        shell_round-command line workdir before exits s command
            ∙ rw (parsed, serve_proc-spawn mmu_free lookup_bin elf_load gpid_shell req s, gives)
                (awaits req background s ended_with _ b ended replies),
        refl,
      )
