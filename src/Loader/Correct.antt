-- ===== src/Loader/Correct.antt =====
-- library/elf/elf.c: `elf_load` returns, and what each process then sees in its memory.
use egos.Base.{
  ℕ, suc, ◌+◌, ◌-◌, ◌/◌, ◌≤◌, ◌<◌, ◌≡◌, sym, ap, ◌∙◌, true, false, ◌==◌, List, length, Option, some,
  arith,
}
use egos.Kernel.Messages.{syscall_arg}
use egos.Kernel.Scheduler.{apps_arg}
use egos.Memory.{Mmu, page_size, apps_pages_cnt}
use egos.Memory.Isolation.{IsMapped, page_of}
use egos.Shell.{Argv, cmd_nargs}
use egos.Loader.{Reader, ProgramHeader, e_phnum, load_segments, apps_stack_top, elf_load}
use egos.Loader.Pages.{IsReady, Extends, Extends-trans, HoldsPage-Extends, page_of-Extends}
use egos.Loader.Segments.{
  HasHeaders, InOrder, pages_needed, AllLoaded, AllLoaded-Extends, load_segments_lem,
}
use egos.Loader.Arguments.{IsArgs, HasArgs, load_args_lem}
use egos.Loader.Loads.{
  HasPage, rest_of_pages, seen, SeesSegments, SeesSegments-AllLoaded, IsArgs-seen,
}

-- All that `elf_load` does.
module _ (pid n argc : ℕ) (argv : Option Argv) (reader : Reader) (phs : List ProgramHeader)
    (m : Mmu) (ready : IsReady pid n 0 m) (count : length phs ≡ e_phnum (reader 0))
    (has : HasHeaders (reader 0) 0 phs) (order : InOrder 0 phs)
    (room : n + pages_needed phs + 4 ≤ apps_pages_cnt) (few : argc ≤ cmd_nargs) where
  elf_load_lem :
      (m' : Mmu) × (elf_load pid reader argc argv m ≡ some m')
      × IsMapped m'.pages
      × ((pid == m'.curr_vm_pid) ≡ false)
      × Extends m m'
      × AllLoaded pid reader phs m'
      × HasArgs pid argc argv m'
      × HasPage pid (syscall_arg / page_size) m'
      × HasPage pid (apps_stack_top / page_size - 1) m'
      × HasPage pid (apps_stack_top / page_size - 2) m'
  unfolding elf_load
  elf_load_lem =
      let (m1, gives1, ready1, extends1, all) =
        load_segments_lem reader pid (reader 0) phs 0 n 0 m has order ready (omega (arith, room)) in
      let gives1' = ap (λ c. load_segments c 0 reader pid (reader 0) m) (sym count) ∙ gives1 in
      let (m2, gives2, ready2, extends2, (page, holds, args)) =
        load_args_lem pid (n + pages_needed phs) argc argv m1 ready1 (omega (arith, room)) few in
      let (m3, gives3, mapped, apart, extends3, syscall, stack1, stack2) =
        rest_of_pages pid (suc (n + pages_needed phs)) m2 ready2 (omega (arith, room)) in
      let extends23 = Extends-trans m1 m2 m3 extends2 extends3 in
      (
        m3,
        rw gives1' (rw gives2 gives3),
        mapped,
        apart,
        Extends-trans m m1 m3 extends1 extends23,
        AllLoaded-Extends pid reader phs m1 m3 extends23 all,
        (page, HoldsPage-Extends pid m2 m3 _ page extends3 holds, args),
        syscall,
        stack1,
        stack2,
      )

  -- Let memory have pages free from some number on, as many as the program needs, no process
  -- with two pages at one address, and no page yet for this process, which is not mapped. Let
  -- the program headers be in the first block of the file, their loaded segments aligned, in
  -- the order of their addresses, and below the page of the arguments. Then `elf_load`
  -- returns. The process then sees each byte of each segment that the file has at its address,
  -- and null bytes behind these on the segment's pages; it sees argc, and if there are
  -- arguments also their addresses and characters; and it has a page for system calls and two
  -- for its stack.
  pub elf_load-SeesSegments :
      (m' : Mmu) × (elf_load pid reader argc argv m ≡ some m')
      × SeesSegments pid reader phs m'
      × IsArgs argc argv (λ k. seen pid m' (apps_arg + k))
      × HasPage pid (syscall_arg / page_size) m'
      × HasPage pid (apps_stack_top / page_size - 1) m'
      × HasPage pid (apps_stack_top / page_size - 2) m'
  elf_load-SeesSegments =
      let (m', gives, mapped, apart, extends, all, args, syscall, stack1, stack2) = elf_load_lem in
      (
        m',
        gives,
        SeesSegments-AllLoaded pid m' mapped apart reader phs 0 order all,
        IsArgs-seen pid m' mapped apart argc argv few args,
        syscall,
        stack1,
        stack2,
      )

  -- Under the same conditions `elf_load` returns, leaves the table of pages without two pages
  -- of a process at one address, and changes no page that was in use: its entry and the
  -- contents that its process sees stay.
  pub elf_load-page_of :
      (m' : Mmu) × (elf_load pid reader argc argv m ≡ some m')
      × IsMapped m'.pages
      × ((j : ℕ)
          → j < apps_pages_cnt
          → (m.pages j).used ≡ true
          → (m'.pages j ≡ m.pages j) × (page_of m' j ≡ page_of m j))
  elf_load-page_of =
      let loaded = elf_load_lem in
      let extends = loaded.4 in
      (
        loaded.0,
        loaded.1,
        loaded.2,
        λ j lt used.
            ((extends.kept j used).0, page_of-Extends m loaded.0 j extends ready.mapped lt used),
      )
