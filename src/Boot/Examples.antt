-- ===== src/Boot/Examples.antt =====
-- grass/init.c and apps/system/sys_proc.c: the start of a small program.
use egos.Base.{
  ℕ, ◌+◌, ◌<◌, ◌≡◌, refl, true, [], none, some, ◌==◌, ltb, ◌%◌, if◌then◌else◌, update, arith,
}
use egos.Kernel.Process.{Table, unused, running, pending, gpid_process}
use egos.Kernel.Process.Table.{IsTable}
use egos.Memory.Isolation.{page_of}
use egos.Boot.Binary.{server_binary}
use egos.Boot.Spawns.{AddsReady, sys_spawn-AddsReady}
use egos.Kernel.Scheduler.{apps_arg}
use egos.Memory.{Mmu, apps_pages_cnt, cleared}
use egos.Loader.{Bytes}
use egos.Loader.Pages.{IsReady}
use egos.Loader.Arguments.{IsArgs}
use egos.Loader.Loads.{seen, SeesSegments}
use egos.Loader.Sample.{file, headers, has_headers, in_order}
use egos.Boot.{Machine, exec_start, grass_entry, sys_spawn}
use egos.Boot.Starts.{RunsFirst, grass_entry-RunsFirst}

-- The binaries of servers 1 and 2 start at blocks 256 and 512; all other bytes are 255.
abbrev disk : ℕ → Bytes
disk n k = if ltb n 256 then 255 else if ltb n 768 then file (n % 256) k else 255

abbrev memory : Mmu
memory = record { pages = λ i. cleared; curr_vm_pid = 0; memory = λ n k. n }

abbrev machine : Machine
machine = record {
  procs = λ j. record {
    pid = 0;
    syscall = record { type = 0; sender = 0; receiver = 0; content = []; delivery = pending };
    status = unused;
    mepc = 0;
    saved_registers = λ k. 0;
  };
  last_pid = 0;
  mmu = memory;
}

ready : IsReady gpid_process 0 0 memory
ready = record {
  free = λ j lo hi. refl;
  mapped = record {
    apart = λ i j lt lt' used used' e e'. ground arith;
    below = λ i lt used. ground arith;
  };
  apart = refl;
  below = λ i lt its. absurd (ground arith);
}

grass_entry-RunsFirst_example :
    (k' : Machine) × (grass_entry disk machine ≡ some k')
    × RunsFirst k'
    × SeesSegments gpid_process (server_binary disk 1) headers k'.mmu
    × IsArgs 0 none (λ i. seen gpid_process k'.mmu (apps_arg + i))
grass_entry-RunsFirst_example =
    grass_entry-RunsFirst disk headers 0 machine (refl, λ j lt. (refl, refl)) ready refl has_headers
      in_order (omega arith)

-- Process 1 runs, and has the first page.
abbrev first : Table
first = update machine.procs 0 (record (machine.procs 0) { pid = 1; status = running })

first-IsTable : IsTable 1 first
first-IsTable = record {
  given = λ j lt. ground arith;
  in_use = λ j lt used. ground arith;
  distinct = λ i j lt lt' pos e. ground arith;
}

abbrev one_page : Mmu
one_page = record {
  pages = λ i. if i == 0 then record { used = true; pid = 1; vpage_no = 0x80400 } else cleared;
  curr_vm_pid = 1;
  memory = λ n k. n;
}

abbrev started : Machine
started = record { procs = first; last_pid = 1; mmu = one_page }

room : IsReady 2 1 0 one_page
room = record {
  free = λ j lo hi. ground arith;
  mapped = record {
    apart = λ i j lt lt' used used' e e'. ground arith;
    below = λ i lt used. ground arith;
  };
  apart = refl;
  below = λ i lt its. absurd (ground arith);
}

sys_spawn-AddsReady_example :
    (k' : Machine) × (sys_spawn disk (exec_start 2) started ≡ some k')
    × (k'.last_pid ≡ 2)
    × AddsReady 2 first k'.procs
    × SeesSegments 2 (server_binary disk 2) headers k'.mmu
    × ((j : ℕ)
        → j < apps_pages_cnt
        → (one_page.pages j).used ≡ true
        → page_of k'.mmu j ≡ page_of one_page j)
sys_spawn-AddsReady_example =
    sys_spawn-AddsReady disk 2 (omega arith) headers 1 1 started first-IsTable (omega arith)
      (omega arith) refl room refl has_headers in_order (omega arith)
