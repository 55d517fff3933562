-- ===== src/Servers/Process/Invariant.antt =====
-- apps/system/sys_proc.c: the process server keeps a table with distinct pids.
use egos.Base.{
  ℕ, ◌+◌, ◌≡◌, ◌<◌, refl, subst, Bool, ◌==◌, Option, none, some, arith, Bool-cases, inl, inr,
}
use egos.Kernel.Process.{Table, Allocated, proc_alloc, proc_free, gpid_all, ready}
use egos.Kernel.Process.Table.{IsTable, proc_free_lem, proc_alloc-IsTable, proc_set_status-IsTable}
use egos.Shell.{Argv, Request}
use egos.Servers.Process.{
  ProcServer, ProcRequest, proc_spawn, proc_exit, proc_killall, is_negative, in_background,
  app_spawn, handle_spawn, handle_exit, handle_killall, serve_proc,
}
use egos.Servers.Process.Replies.{some-inj, none-some}

module _ {M : Type 0} (mmu_free : ℕ → M → M) where
  proc_free-IsTable :
      (last_pid pid : ℕ) (procs : Table) (memory : M)
      → IsTable last_pid procs
      → IsTable last_pid (proc_free mmu_free pid (procs, memory)).0
  proc_free-IsTable last_pid pid procs memory v =
      let freed = proc_free_lem mmu_free pid procs memory in
      record {
        given = λ j lt. ground (arith, freed j, v.given j lt);
        in_use = λ j lt used. ground (arith, freed j, v.in_use j lt);
        distinct = λ i j lt lt' pos e. ground (arith, freed i, freed j, v.distinct i j lt lt');
      }

  module _ (lookup_bin : (ℕ → ℕ) → M → ℕ) (elf_load : ℕ → ℕ → ℕ → Argv → M → M) where
    spawn_with-IsTable :
        (req : Request) (s t : ProcServer M) (back : Option Bool) (taken : Option Allocated)
        → in_background req ≡ back
        → proc_alloc s.last_pid s.procs ≡ taken
        → IsTable s.last_pid s.procs
        → s.last_pid + 1 < 4294967296
        → handle_spawn mmu_free lookup_bin elf_load req s ≡ some t
        → IsTable t.last_pid t.procs
    unfolding handle_spawn app_spawn
    spawn_with-IsTable req s t none taken e alloc v small done =
        elim (Bool-cases (is_negative (lookup_bin (req.argv 0) s.memory))) [
          | inl missing ↦ absurd (none-some (rw (missing, e) at done))
          | inr found ↦ absurd (none-some (rw (found, e) at done))
        ]
    spawn_with-IsTable req s t (some back) none e alloc v small done =
        elim (Bool-cases (is_negative (lookup_bin (req.argv 0) s.memory))) [
          | inl missing ↦
              subst (λ (u : ProcServer M). IsTable u.last_pid u.procs)
                (some-inj (rw (missing, e) at done)) v
          | inr found ↦ absurd (none-some (rw (found, e, alloc) at done))
        ]
    spawn_with-IsTable req s t (some back) (some taken) e alloc v small done =
        elim (Bool-cases (is_negative (lookup_bin (req.argv 0) s.memory))) [
          | inl missing ↦
              subst (λ (u : ProcServer M). IsTable u.last_pid u.procs)
                (some-inj (rw (missing, e) at done)) v
          | inr found ↦
              let (table, above, same) =
                proc_alloc-IsTable s.last_pid s.procs taken v small alloc in
              subst (λ (u : ProcServer M). IsTable u.last_pid u.procs)
                (some-inj (rw (found, e, alloc) at done))
                (proc_set_status-IsTable taken.last_pid taken.pid ready taken.procs
                  (omega (arith, above)) table)
        ]

  -- Before the counter of pids wraps, no request to the process server, whoever sends it,
  -- breaks a table with distinct pids.
  pub serve_proc-IsTable :
      (lookup_bin : (ℕ → ℕ) → M → ℕ) (elf_load : ℕ → ℕ → ℕ → Argv → M → M) (sender : ℕ)
      (req : ProcRequest) (s t : ProcServer M)
      → IsTable s.last_pid s.procs
      → s.last_pid + 1 < 4294967296
      → serve_proc mmu_free lookup_bin elf_load sender req s ≡ some t
      → IsTable t.last_pid t.procs
  unfolding serve_proc handle_exit handle_killall
  serve_proc-IsTable lookup_bin elf_load sender req s t v small done =
      elim (Bool-cases (req.type == proc_spawn)) [
        | inl spawns ↦
            spawn_with-IsTable lookup_bin elf_load req.request s t _ _ refl refl v small
              (rw spawns at done)
        | inr other ↦ elim (Bool-cases (req.type == proc_exit)) [
          | inl exits ↦
              subst (λ (u : ProcServer M). IsTable u.last_pid u.procs)
                (some-inj (rw (other, exits) at done))
                (proc_free-IsTable s.last_pid sender s.procs s.memory v)
          | inr other' ↦ elim (Bool-cases (req.type == proc_killall)) [
            | inl kills ↦
                subst (λ (u : ProcServer M). IsTable u.last_pid u.procs)
                  (some-inj (rw (other, other', kills) at done))
                  (proc_free-IsTable s.last_pid gpid_all s.procs s.memory v)
            | inr none_of ↦ absurd (none-some (rw (other, other', none_of) at done))
          ]
        ]
      ]
