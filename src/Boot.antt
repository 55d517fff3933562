-- ===== src/Boot.antt =====
-- grass/init.c and apps/system/sys_proc.c: the first process, and the servers that it starts.
pub mod Binary
pub mod Starts
pub mod Spawns
mod Examples
use egos.Base.{ℕ, ◌+◌, ◌*◌, ◌/◌, ◌%◌, ◌^◌, Option, none, some}
use egos.FileSystem.Block.{block_size}
use egos.Kernel.Process.{
  Table, Allocated, proc_alloc, proc_set_running, proc_set_ready, gpid_process,
}
use egos.Kernel.Scheduler.{◌>>=◌}
use egos.Loader.{Bytes, Reader, elf_load}
use egos.Memory.{Mmu, soft_tlb_switch}
use egos.Mkfs.{egos_bin_max_nbyte}

-- The block at which the binary of a server starts: the kernel has number 0.
abbrev pub exec_start : ℕ → ℕ
exec_start i = egos_bin_max_nbyte / block_size * i

-- What the kernel keeps of the processes, and their memory.
pub record Machine : Type 0 where
  pub procs : Table
  pub last_pid : ℕ
  pub mmu : Mmu

-- The blocks of the disk.
module _ (disk : ℕ → Bytes) where
  -- sys_proc_read of both files, with the first block of the binary.
  abbrev pub sys_proc_read : ℕ → Reader
  sys_proc_read base block_no = disk ((base + block_no) % 2 ^ 32)

  -- Up to the jump to the first instruction.
  unfoldable pub grass_entry : Machine → Option Machine
  grass_entry k = do
    mmu ← elf_load gpid_process (sys_proc_read (exec_start 1)) 0 none k.mmu
    taken ← proc_alloc k.last_pid k.procs
    some (record {
      procs = proc_set_running taken.pid taken.procs;
      last_pid = taken.last_pid;
      mmu = soft_tlb_switch gpid_process mmu;
    })

  unfoldable pub sys_spawn : ℕ → Machine → Option Machine
  sys_spawn base k = do
    taken ← proc_alloc k.last_pid k.procs
    mmu ← elf_load taken.pid (sys_proc_read base) 0 none k.mmu
    some (record {
      procs = proc_set_ready taken.pid taken.procs;
      last_pid = taken.last_pid;
      mmu = mmu;
    })
