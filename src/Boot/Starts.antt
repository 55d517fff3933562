-- ===== src/Boot/Starts.antt =====
-- grass/init.c: the first process runs, and finds its program in memory.
use egos.Base.{
  ℕ, suc, ◌+◌, ◌/◌, ◌%◌, ◌≤◌, ◌<◌, ◌≡◌, refl, ap, ◌∙◌, List, [], ◌∷◌, length, none, some, arith,
}
use egos.Kernel.Process.{
  unused, running, Process, Table, alloc_from, proc_alloc, proc_set_running, gpid_process,
  max_nprocess,
}
use egos.Kernel.Process.Table.{allocated, proc_set_status_lem}
use egos.Kernel.Scheduler.{apps_arg}
use egos.Memory.{Mmu, soft_tlb_switch, apps_pages_cnt}
use egos.Memory.Isolation.{soft_tlb_switch-again, soft_tlb_switch-curr_vm_pid}
use egos.Loader.{Bytes, ProgramHeader, e_phnum, elf_load}
use egos.Loader.Pages.{IsReady}
use egos.Loader.Segments.{HasHeaders, InOrder, pages_needed}
use egos.Loader.Arguments.{IsArgs}
use egos.Loader.Loads.{seen, SeesSegments}
use egos.Loader.Correct.{elf_load-SeesSegments}
use egos.Boot.Binary.{server_binary, e_phnum-binary, HasHeaders-binary, SeesSegments-binary}
use egos.Boot.{Machine, exec_start, sys_proc_read, grass_entry}

-- No process has been started.
abbrev pub IsIdle : Machine → Type 0
IsIdle k =
    (k.last_pid ≡ 0)
    × ((j : ℕ) → j < max_nprocess → ((k.procs j).status ≡ unused) × ((k.procs j).pid ≡ 0))

-- Process 1 is the only one, and it runs.
abbrev pub RunsFirst : Machine → Type 0
RunsFirst k =
    (k.last_pid ≡ 1)
    × ((k.procs 0).pid ≡ gpid_process)
    × ((k.procs 0).status ≡ running)
    × ((j : ℕ) → 0 < j → j < max_nprocess → (k.procs j).status ≡ unused)
    × (k.mmu.curr_vm_pid ≡ gpid_process)

seen-switch :
    (pid : ℕ) (m : Mmu) (addr : ℕ) → seen pid (soft_tlb_switch pid m) addr ≡ seen pid m addr
seen-switch pid m addr =
    ap (λ (m : Mmu). m.memory (addr / 4096) (addr % 4096)) (soft_tlb_switch-again pid m)

SeesSegments-switch :
    (reader : ℕ → Bytes) (pid : ℕ) (phs : List ProgramHeader) (m : Mmu)
    → SeesSegments pid reader phs m
    → SeesSegments pid reader phs (soft_tlb_switch pid m)
SeesSegments-switch reader pid [] m sees = tt
SeesSegments-switch reader pid (ph ∷ phs) m sees = (
  λ loads x lt. seen-switch pid m (ph.p_vaddr + x) ∙ sees.0 loads x lt,
  SeesSegments-switch reader pid phs m sees.1,
)

alloc_from-first :
    (rounds i last_pid : ℕ) (procs : Table)
    → (procs i).status ≡ unused
    → alloc_from (suc rounds) i last_pid procs ≡ some (allocated last_pid i procs)
unfolding alloc_from
alloc_from-first rounds i last_pid procs free = rw free refl

proc_alloc-first :
    (procs : Table) → (procs 0).status ≡ unused → proc_alloc 0 procs ≡ some (allocated 0 0 procs)
unfolding proc_alloc
proc_alloc-first procs free = alloc_from-first 15 0 0 procs free

module _ (disk : ℕ → Bytes) (phs : List ProgramHeader) (n : ℕ) (k : Machine) (idle : IsIdle k)
    (ready : IsReady gpid_process n 0 k.mmu) (count : length phs ≡ e_phnum (server_binary disk 1 0))
    (has : HasHeaders (server_binary disk 1 0) 0 phs) (order : InOrder 0 phs)
    (room : n + pages_needed phs + 4 ≤ apps_pages_cnt) where
  grass_entry_steps :
      (m : Mmu)
      → elf_load gpid_process (sys_proc_read disk (exec_start 1)) 0 none k.mmu ≡ some m
      → grass_entry disk k
        ≡ some (record {
          procs = proc_set_running gpid_process (allocated 0 0 k.procs).procs;
          last_pid = 1;
          mmu = soft_tlb_switch gpid_process m;
        })
  unfolding grass_entry
  grass_entry_steps m gives =
      let first =
        ap (λ l. proc_alloc l k.procs) idle.0
        ∙ proc_alloc-first k.procs (idle.1 0 (omega arith)).0 in
      rw gives (rw first refl)

  first_runs :
      (m : Mmu)
      → RunsFirst (record {
        procs = proc_set_running gpid_process (allocated 0 0 k.procs).procs;
        last_pid = 1;
        mmu = soft_tlb_switch gpid_process m;
      })
  first_runs m =
      let procs = (allocated 0 0 k.procs).procs in
      let first = proc_set_status_lem gpid_process running procs 0 in
      (
        refl,
        ap (λ (p : Process). p.pid) first,
        ap (λ (p : Process). p.status) first,
        λ j pos lt. ground (arith, proc_set_status_lem gpid_process running procs j, idle.1 j lt),
        soft_tlb_switch-curr_vm_pid gpid_process m,
      )

  -- Let no process have been started. Let memory have room for the program as for `elf_load`,
  -- and let the blocks of the disk from 256 on hold the binary of the first server, with
  -- program headers in block 256 that are as `elf_load` needs them. Then `grass_entry` gets to
  -- the jump. Process 1 is then the only one that is not unused, it is running and mapped, and
  -- it sees the segments of that binary at their addresses, and argc 0.
  pub grass_entry-RunsFirst :
      (k' : Machine) × (grass_entry disk k ≡ some k')
      × RunsFirst k'
      × SeesSegments gpid_process (server_binary disk 1) phs k'.mmu
      × IsArgs 0 none (λ i. seen gpid_process k'.mmu (apps_arg + i))
  grass_entry-RunsFirst =
      let reader = sys_proc_read disk (exec_start 1) in
      let first : 1 ≤ 4 = omega arith in
      let (m, gives, sees, args, syscall, stack1, stack2) =
        elf_load-SeesSegments gpid_process n 0 none reader phs k.mmu ready
          (e_phnum-binary disk 1 first count) (HasHeaders-binary disk 1 first phs has) order room
          (omega arith) in
      let found = SeesSegments-binary disk 1 first gpid_process phs 0 m order sees in
      (
        _,
        grass_entry_steps m gives,
        first_runs m,
        SeesSegments-switch (server_binary disk 1) gpid_process phs m found,
        λ b lt. seen-switch gpid_process m (apps_arg + b) ∙ args b lt,
      )
