-- ===== src/Servers/Process/Replies.antt =====
-- apps/system/sys_proc.c and sys_shell.c: the process server sends the shell the replies that it
-- waits for.
use egos.Base.{
  ℕ, ◌+◌, ◌%◌, ◌<◌, ◌≡◌, refl, sym, ap, ◌∙◌, Bool, true, false, not, ◌&&◌, ◌==◌, if◌then◌else◌,
  Option, none, some, List, [], ◌∷◌, ◌++◌, has, arith, Bool-cases, inl, inr,
}
use egos.FileSystem.Treedisk.FreeList.{Distinct}
use mathlib.Core.Bool.{true≢false}
use egos.Kernel.Process.{Allocated, proc_alloc, is_unused, max_nprocess}
use egos.Kernel.Process.Table.{proc_alloc-Allocates}
use egos.Shell.{Argv, Request}
use egos.Servers.Process.{
  ProcServer, proc_spawn, is_negative, cmd_error, cmd_ok, proc_exit, in_background, app_spawn,
  handle_spawn, handle_exit, serve_proc,
}

pub some-inj : {A : Type 0} {a b : A} → some a ≡ some b → a ≡ b
some-inj e = cc

pub none-some : {A : Type 0} {b : A} → none ≡ some b → ⊥
none-some e = cc

append_snoc : (xs : List ℕ) (y : ℕ) (zs : List ℕ) → (xs ++ y ∷ []) ++ zs ≡ xs ++ y ∷ zs
append_snoc [] y zs = refl
append_snoc (x ∷ xs) y zs = rw (append_snoc xs y zs) refl

module _ {M : Type 0} (mmu_free : ℕ → M → M) (lookup_bin : (ℕ → ℕ) → M → ℕ)
    (elf_load : ℕ → ℕ → ℕ → Argv → M → M) where
  -- These processes exit, in this order.
  unfoldable pub run_exits : List ℕ → ProcServer M → ProcServer M
  run_exits [] s = s
  run_exits (sender ∷ senders) s =
      run_exits senders (handle_exit mmu_free lookup_bin elf_load sender s)

  exits_before :
      (senders : List ℕ) (s : ProcServer M)
      → has s.app_pid senders ≡ false
      → (run_exits senders s).replies ≡ s.replies
  unfolding run_exits handle_exit
  exits_before [] s none_of = refl
  exits_before (sender ∷ senders) s none_of =
      let miss : (s.app_pid == sender) ≡ false = ground arith in
      let rest : has s.app_pid senders ≡ false = ground arith in
      let quiet : (s.shell_waiting && (s.app_pid == sender)) ≡ false = ground arith in
      exits_before senders _ rest ∙ rw quiet refl

  exits_quiet :
      (senders : List ℕ) (s : ProcServer M)
      → s.shell_waiting ≡ false
      → (run_exits senders s).replies ≡ s.replies
  unfolding run_exits handle_exit
  exits_quiet [] s quiet = refl
  exits_quiet (sender ∷ senders) s quiet = exits_quiet senders _ quiet ∙ rw quiet refl

  exits_reply :
      (senders : List ℕ) (s : ProcServer M)
      → s.shell_waiting ≡ true
      → Distinct senders
      → has s.app_pid senders ≡ true
      → (run_exits senders s).replies ≡ s.replies ++ proc_exit ∷ []
  unfolding run_exits handle_exit
  exits_reply [] s waits once there = absurd (ground arith)
  exits_reply (sender ∷ senders) s waits once there = elim (Bool-cases (s.app_pid == sender)) [
    | inl here ↦
        let gone : has s.app_pid senders ≡ false = ground (arith, once.0) in
        exits_before senders _ gone ∙ rw (waits, here) refl
    | inr other ↦
        let later : has s.app_pid senders ≡ true = ground arith in
        exits_reply senders _ waits once.1 later ∙ rw (waits, other) refl
  ]

  after_exits :
      (type : ℕ) (background : Bool) (replies : List ℕ) (senders : List ℕ) (t : ProcServer M)
      → t.shell_waiting ≡ (not background && (type == cmd_ok))
      → t.replies ≡ replies ++ type ∷ []
      → Distinct senders
      → (run_exits senders t).replies
        ≡ replies
          ++ type
            ∷ (if (not background && (type == cmd_ok)) && has t.app_pid senders
                then proc_exit ∷ []
                else [])
  after_exits type background replies senders t waits sent once =
      elim (Bool-cases (not background && (type == cmd_ok))) [
        | inr quiet ↦ rw quiet (exits_quiet senders t (waits ∙ quiet) ∙ sent)
        | inl waiting ↦ elim (Bool-cases (has t.app_pid senders)) [
          | inl there ↦
              rw (waiting, there)
                (exits_reply senders t (waits ∙ waiting) once there
                  ∙ ap (λ l. l ++ proc_exit ∷ []) sent
                  ∙ append_snoc replies type (proc_exit ∷ []))
          | inr none_of ↦ rw (waiting, none_of) (exits_before senders t none_of ∙ sent)
        ]
      ]

  -- The reply to a request to spawn.
  abbrev pub spawn_type : Request → ProcServer M → ℕ
  spawn_type req s = if is_negative (lookup_bin (req.argv 0) s.memory) then cmd_error else cmd_ok

  -- The pid that the next process gets.
  abbrev pub next_pid : ProcServer M → ℕ
  next_pid s = (s.last_pid + 1) % 4294967296

  spawn_with :
      (req : Request) (background : Bool) (s t : ProcServer M) (taken : Option Allocated)
      → proc_alloc s.last_pid s.procs ≡ taken
      → in_background req ≡ some background
      → handle_spawn mmu_free lookup_bin elf_load req s ≡ some t
      → (t.shell_waiting ≡ (not background && (spawn_type req s == cmd_ok)))
        × (t.replies ≡ s.replies ++ spawn_type req s ∷ [])
  unfolding handle_spawn app_spawn
  spawn_with req background s t none alloc e done =
      elim (Bool-cases (is_negative (lookup_bin (req.argv 0) s.memory))) [
        | inl missing ↦
            let same = some-inj (rw (missing, e) at done) in
            rw missing (
              sym (ap (λ (u : ProcServer M). u.shell_waiting) same),
              sym (ap (λ (u : ProcServer M). u.replies) same),
            )
        | inr found ↦ absurd (none-some (rw (found, e, alloc) at done))
      ]
  spawn_with req background s t (some taken) alloc e done =
      elim (Bool-cases (is_negative (lookup_bin (req.argv 0) s.memory))) [
        | inl missing ↦
            let same = some-inj (rw (missing, e) at done) in
            rw missing (
              sym (ap (λ (u : ProcServer M). u.shell_waiting) same),
              sym (ap (λ (u : ProcServer M). u.replies) same),
            )
        | inr found ↦
            let same = some-inj (rw (found, e, alloc) at done) in
            rw found (
              sym (ap (λ (u : ProcServer M). u.shell_waiting) same),
              sym (ap (λ (u : ProcServer M). u.replies) same),
            )
      ]

  -- With room in the table the server handles the request.
  pub handle_spawn-returns :
      (req : Request) (background : Bool) (s : ProcServer M) (i : ℕ)
      → in_background req ≡ some background
      → i < max_nprocess
      → is_unused (s.procs i).status ≡ true
      → (t : ProcServer M) × (handle_spawn mmu_free lookup_bin elf_load req s ≡ some t)
        × (spawn_type req s ≡ cmd_ok → t.app_pid ≡ next_pid s)
  unfolding handle_spawn app_spawn
  handle_spawn-returns req background s i e lt free =
      elim (Bool-cases (is_negative (lookup_bin (req.argv 0) s.memory))) [
        | inl missing ↦ rw (missing, e) (_, refl, λ found. absurd (omega (arith, found)))
        | inr found ↦
            rw (found, e)
              (elim (proc_alloc-Allocates s.last_pid s.procs) [
                | inl (fails, all) ↦ absurd (true≢false (sym free ∙ all i (omega arith) lt))
                | inr (slot, le, below, unused, first, gives) ↦ rw gives (_, refl, λ ok. refl)
              ])
      ]

  pub serve_proc-spawn :
      (sender : ℕ) (req : Request) (s : ProcServer M)
      → serve_proc mmu_free lookup_bin elf_load sender
          (record { type = proc_spawn; request = req })
          s
        ≡ handle_spawn mmu_free lookup_bin elf_load req s
  unfolding serve_proc
  serve_proc-spawn sender req s = refl

  -- If the process server handles a request to spawn a command, and then processes exit, no
  -- pid twice, it sends the shell one reply to the request, CMD_ERROR if there is no such
  -- command, and a second one if the command runs in the foreground and is among those that
  -- exit. It sends the shell nothing else.
  pub handle_spawn-replies :
      (req : Request) (background : Bool) (s t : ProcServer M) (senders : List ℕ)
      → in_background req ≡ some background
      → handle_spawn mmu_free lookup_bin elf_load req s ≡ some t
      → Distinct senders
      → (run_exits senders t).replies
        ≡ s.replies
          ++ spawn_type req s
            ∷ (if (not background && (spawn_type req s == cmd_ok)) && has t.app_pid senders
                then proc_exit ∷ []
                else [])
  handle_spawn-replies req background s t senders e done once =
      let (waits, sent) = spawn_with req background s t _ refl e done in
      after_exits (spawn_type req s) background s.replies senders t waits sent once
