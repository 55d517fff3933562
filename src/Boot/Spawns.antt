-- ===== src/Boot/Spawns.antt =====
-- apps/system/sys_proc.c: what the start of a server does to the processes and their memory.
use egos.Base.{
  ℕ, ◌+◌, ◌%◌, ◌≤◌, ◌<◌, ◌≡◌, ◌≢◌, refl, sym, ap, ◌∙◌, true, List, length, none, some, arith, inl,
  inr,
}
use mathlib.Core.Bool.{true≢false}
use egos.Kernel.Process.{ready, Table, is_unused, proc_alloc, proc_set_ready, max_nprocess}
use egos.Kernel.Process.Table.{IsTable, allocated, proc_alloc-Allocates, proc_set_status_lem}
use egos.Memory.{Mmu, apps_pages_cnt}
use egos.Memory.Isolation.{page_of}
use egos.Loader.{Bytes, ProgramHeader, e_phnum, elf_load}
use egos.Loader.Pages.{IsReady}
use egos.Loader.Segments.{HasHeaders, InOrder, pages_needed}
use egos.Loader.Loads.{SeesSegments}
use egos.Loader.Correct.{elf_load-SeesSegments, elf_load-page_of}
use egos.Servers.Process.Replies.{some-inj}
use egos.Boot.Binary.{server_binary, e_phnum-binary, HasHeaders-binary, SeesSegments-binary}
use egos.Boot.{Machine, exec_start, sys_proc_read, sys_spawn}

-- The process `pid` is new, in an entry that was unused, and ready; the other entries are as before.
abbrev pub AddsReady : ℕ → Table → Table → Type 0
AddsReady pid before after =
    (slot : ℕ) × (slot < max_nprocess)
    × (is_unused (before slot).status ≡ true)
    × ((after slot).pid ≡ pid)
    × ((after slot).status ≡ ready)
    × ((j : ℕ) → j < max_nprocess → j ≢ slot → after j ≡ before j)

-- The entry that was handed out is the only one with its pid.
allocated-AddsReady :
    (last_pid slot : ℕ) (procs : Table)
    → IsTable last_pid procs
    → last_pid + 1 < 4294967296
    → slot < max_nprocess
    → is_unused (procs slot).status ≡ true
    → AddsReady
        (last_pid + 1)
        procs
        (proc_set_ready (last_pid + 1) (allocated last_pid slot procs).procs)
allocated-AddsReady last_pid slot procs table small lt free =
    let taken = (allocated last_pid slot procs).procs in
    let set = proc_set_status_lem (last_pid + 1) ready taken in
    (
      slot,
      lt,
      free,
      ground (arith, set slot, lt),
      ground (arith, set slot, lt),
      λ j below other. ground (arith, set j, table.given j below),
    )

module _ (disk : ℕ → Bytes) (server : ℕ) (few : server ≤ 4) (phs : List ProgramHeader) (n i : ℕ)
    (k : Machine) (table : IsTable k.last_pid k.procs) (small : k.last_pid + 1 < 4294967296)
    (below : i < max_nprocess) (free : is_unused (k.procs i).status ≡ true)
    (room_for : IsReady (k.last_pid + 1) n 0 k.mmu)
    (count : length phs ≡ e_phnum (server_binary disk server 0))
    (has : HasHeaders (server_binary disk server 0) 0 phs) (order : InOrder 0 phs)
    (room : n + pages_needed phs + 4 ≤ apps_pages_cnt) where
  abbrev pid : ℕ
  pid = k.last_pid + 1

  takes :
      (slot : ℕ) × (slot < max_nprocess)
      × (is_unused (k.procs slot).status ≡ true)
      × (proc_alloc k.last_pid k.procs ≡ some (allocated k.last_pid slot k.procs))
  takes = elim (proc_alloc-Allocates k.last_pid k.procs) [
    | inl (fails, all) ↦ absurd (true≢false (sym free ∙ all i (omega arith) below))
    | inr (slot, le, lt, empty, first, gives) ↦ (slot, lt, empty, gives)
  ]

  sys_spawn_steps :
      (slot : ℕ) (m : Mmu)
      → proc_alloc k.last_pid k.procs ≡ some (allocated k.last_pid slot k.procs)
      → elf_load pid (sys_proc_read disk (exec_start server)) 0 none k.mmu ≡ some m
      → sys_spawn disk (exec_start server) k
        ≡ some (record {
          procs = proc_set_ready pid (allocated k.last_pid slot k.procs).procs;
          last_pid = pid;
          mmu = m;
        })
  unfolding sys_spawn
  sys_spawn_steps slot m took gives =
      let next : (k.last_pid + 1) % 4294967296 ≡ pid = omega (arith, small) in
      rw (took, next, gives) refl

  -- Let the table of processes have distinct pids and an unused entry, and the counter of pids
  -- not wrap. Let memory have room for the program as for `elf_load`, and let the blocks of
  -- the disk from 256 * i on hold the binary of server i, at most 4, with program headers in
  -- the first of them that are as `elf_load` needs them. Then `sys_spawn` of that server
  -- returns. The next pid is given to an entry that was unused, which is ready now, and no
  -- other entry changes. The new process sees the segments of that binary at their addresses,
  -- and the pages in use keep the contents that their processes see.
  pub sys_spawn-AddsReady :
      (k' : Machine) × (sys_spawn disk (exec_start server) k ≡ some k')
      × (k'.last_pid ≡ k.last_pid + 1)
      × AddsReady (k.last_pid + 1) k.procs k'.procs
      × SeesSegments (k.last_pid + 1) (server_binary disk server) phs k'.mmu
      × ((j : ℕ)
          → j < apps_pages_cnt
          → (k.mmu.pages j).used ≡ true
          → page_of k'.mmu j ≡ page_of k.mmu j)
  sys_spawn-AddsReady =
      let reader = sys_proc_read disk (exec_start server) in
      let counted = e_phnum-binary disk server few count in
      let headers = HasHeaders-binary disk server few phs has in
      let (slot, lt, empty, took) = takes in
      let (m, gives, sees, args, syscall, stack1, stack2) =
        elf_load-SeesSegments pid n 0 none reader phs k.mmu room_for counted headers order room
          (omega arith) in
      let (m', gives', mapped, kept) =
        elf_load-page_of pid n 0 none reader phs k.mmu room_for counted headers order room
          (omega arith) in
      let same : m' ≡ m = some-inj (sym gives' ∙ gives) in
      (
        _,
        sys_spawn_steps slot m took gives,
        refl,
        allocated-AddsReady k.last_pid slot k.procs table small lt empty,
        SeesSegments-binary disk server few pid phs 0 m order sees,
        λ j within used. ap (λ m. page_of m j) (sym same) ∙ (kept j within used).1,
      )
