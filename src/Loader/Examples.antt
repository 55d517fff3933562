-- ===== src/Loader/Examples.antt =====
-- library/elf/elf.c on a small program.
use egos.Base.{ℕ, ◌+◌, ◌-◌, ◌/◌, ◌<◌, ◌≡◌, refl, true, Option, some, ◌==◌, if◌then◌else◌, arith}
use egos.Kernel.Messages.{syscall_arg}
use egos.Kernel.Scheduler.{apps_arg}
use egos.Memory.{Mmu, page_size, apps_pages_cnt, cleared}
use egos.Memory.Isolation.{IsMapped, page_of}
use egos.Shell.{Argv}
use egos.Loader.{apps_stack_top, elf_load}
use egos.Loader.Pages.{IsReady}
use egos.Loader.Sample.{file, headers, has_headers, in_order}
use egos.Loader.Arguments.{IsArgs}
use egos.Loader.Loads.{HasPage, seen, SeesSegments}
use egos.Loader.Correct.{elf_load-SeesSegments, elf_load-page_of}

-- Process 1 has the first page, and is mapped.
abbrev memory : Mmu
memory = record {
  pages = λ i. if i == 0 then record { used = true; pid = 1; vpage_no = 0x80400 } else cleared;
  curr_vm_pid = 1;
  memory = λ n k. n;
}

ready : IsReady 5 1 0 memory
ready = record {
  free = λ j lo hi. ground arith;
  mapped = record {
    apart = λ i j lt lt' used used' e e'. ground arith;
    below = λ i lt used. ground arith;
  };
  apart = refl;
  below = λ i lt its. absurd (ground arith);
}

abbrev args : Option Argv
args = some (λ i k. if k == 0 then 97 + i else 0)

elf_load-SeesSegments_example :
    (m' : Mmu) × (elf_load 5 file 2 args memory ≡ some m')
    × SeesSegments 5 file headers m'
    × IsArgs 2 args (λ k. seen 5 m' (apps_arg + k))
    × HasPage 5 (syscall_arg / page_size) m'
    × HasPage 5 (apps_stack_top / page_size - 1) m'
    × HasPage 5 (apps_stack_top / page_size - 2) m'
elf_load-SeesSegments_example =
    elf_load-SeesSegments 5 1 2 args file headers memory ready refl has_headers in_order
      (omega arith) (omega arith)

elf_load-page_of_example :
    (m' : Mmu) × (elf_load 5 file 2 args memory ≡ some m')
    × IsMapped m'.pages
    × ((j : ℕ)
        → j < apps_pages_cnt
        → (memory.pages j).used ≡ true
        → (m'.pages j ≡ memory.pages j) × (page_of m' j ≡ page_of memory j))
elf_load-page_of_example =
    elf_load-page_of 5 1 2 args file headers memory ready refl has_headers in_order (omega arith)
      (omega arith)
