-- ===== src/Loader.antt =====
-- library/elf/elf.c: loading a program into the memory of a new process, with the software TLB of
-- earth/cpu_mmu.c. Memory and files are read by bytes here.
pub mod Pages
pub mod NewPage
pub mod Segment
pub mod Round
pub mod Blocks
pub mod Program
pub mod Segments
pub mod Arguments
pub mod Loads
pub mod Correct
pub mod Sample
mod Examples
use egos.Base.{
  ℕ, zero, suc, ◌+◌, ◌-◌, ◌*◌, ◌/◌, ◌%◌, ◌^◌, Bool, true, false, ◌&&◌, Option, none, some, leb, ltb,
  ◌==◌, if◌then◌else◌, update,
}
use egos.FileSystem.Block.{block_size}
use egos.Kernel.Messages.{syscall_arg}
use egos.Kernel.Scheduler.{apps_arg}
use egos.Memory.{Page, Mmu, page_size, frame, mmu_alloc, soft_tlb_map}
use egos.Shell.{Argv, cmd_nargs, cmd_arg_len}

abbrev pub ram_start : ℕ
ram_start = 0x80000000

abbrev pub apps_stack_top : ℕ
apps_stack_top = 0x80800000

-- A block of the file as its 512 bytes.
abbrev pub Bytes : Type 0
Bytes = ℕ → ℕ

-- elf_reader: the contents of a block.
abbrev pub Reader : Type 0
Reader = ℕ → Bytes

-- A `ushort` and a `uint`, which are little-endian.
abbrev pub ushort_at : Bytes → ℕ → ℕ
ushort_at b i = b i + b (i + 1) * 256

abbrev pub uint_at : Bytes → ℕ → ℕ
uint_at b i = ushort_at b i + ushort_at b (i + 2) * 65536

-- The fields of struct elf32_header that are used.
abbrev pub e_phoff : Bytes → ℕ
e_phoff header = uint_at header 28

abbrev pub e_phnum : Bytes → ℕ
e_phnum header = ushort_at header 44

-- The fields of struct elf32_program_header that are used.
pub record ProgramHeader : Type 0 where
  pub p_offset : ℕ
  pub p_vaddr : ℕ
  pub p_filesz : ℕ
  pub p_memsz : ℕ

-- pheader[i]; `none` is an access beyond the block that has been read.
unfoldable pub program_header : Bytes → ℕ → Option ProgramHeader
program_header header i =
    let at = e_phoff header + 32 * i in
    if leb (at + 32) block_size
    then some (record {
      p_offset = uint_at header (at + 4);
      p_vaddr = uint_at header (at + 8);
      p_filesz = uint_at header (at + 16);
      p_memsz = uint_at header (at + 20);
    })
    else none

infixl 5 ◌>>=◌
abbrev pub ◌>>=◌ {ℓ κ} : {A : Type ℓ} {B : Type κ} → Option A → (A → Option B) → Option B
none >>= f = none
some a >>= f = f a

-- mmu_alloc and mmu_map; `none` is FATAL.
unfoldable pub new_page : ℕ → ℕ → Mmu → Option (ℕ × Mmu)
new_page pid vpage_no m = do
  (ppage_id, pages) ← mmu_alloc m.pages
  some (ppage_id, record m { pages = soft_tlb_map pid vpage_no ppage_id pages })

-- memset of the page with zeros.
abbrev pub clear_page : ℕ → Mmu → Mmu
clear_page ppage_id m = record m { memory = update m.memory (frame ppage_id) (λ k. 0) }

-- memcpy of `size` bytes to offset `off` of the page.
abbrev pub copy_to : ℕ → ℕ → ℕ → Bytes → Mmu → Mmu
copy_to ppage_id off size bytes m =
    let page = m.memory (frame ppage_id) in
    record m {
      memory =
          update m.memory (frame ppage_id)
            (λ k. if leb off k && ltb k (off + size) then bytes (k - off) else page k);
    }

-- The variables of the loop over the blocks of a segment.
pub record Load : Type 0 where
  pub off : ℕ
  pub curr_pageno : ℕ
  pub curr_blockno : ℕ
  pub ppage_id : ℕ
  pub mmu : Mmu

-- A page that is filled with zeros, at the current page number.
unfoldable pub zero_page : ℕ → Load → Option Load
unfolding new_page
zero_page pid l = do
  (ppage_id, m) ← new_page pid l.curr_pageno l.mmu
  some (record l {
    curr_pageno = l.curr_pageno + 1;
    ppage_id = ppage_id;
    mmu = clear_page ppage_id m;
  })

-- A round of the loop after the allocation.
unfoldable pub load_block : Reader → ℕ → Load → Load
load_block reader filesz l =
    let size = if ltb ((l.off + block_size) % 2 ^ 32) filesz then block_size else filesz - l.off in
    record l {
      off = (l.off + block_size) % 2 ^ 32;
      curr_blockno = (l.curr_blockno + 1) % 2 ^ 32;
      mmu = copy_to l.ppage_id (l.off % page_size) size (reader l.curr_blockno) l.mmu;
    }

-- The loop over the blocks, with fuel.
unfoldable pub load_blocks : ℕ → Reader → ℕ → ℕ → Load → Option Load
unfolding zero_page load_block
load_blocks zero reader pid filesz l = none
load_blocks (suc fuel) reader pid filesz l = elim (ltb l.off filesz) [
  | true ↦ (if l.off % page_size == 0 then zero_page pid l else some l) >>= λ l.
      load_blocks fuel reader pid filesz (load_block reader filesz l)
  | false ↦ some l
]

-- while (curr_pageno < end_pageno), with fuel.
unfoldable pub load_zeros : ℕ → ℕ → ℕ → Load → Option Load
unfolding zero_page
load_zeros zero pid end_pageno l = none
load_zeros (suc fuel) pid end_pageno l = elim (ltb l.curr_pageno end_pageno) [
  | true ↦ zero_page pid l >>= load_zeros fuel pid end_pageno
  | false ↦ some l
]

-- Each round of the first loop is for 512 bytes, and the second fills pages of 4 KB.
abbrev pub load_fuel : ProgramHeader → ℕ
load_fuel ph = ph.p_filesz + ph.p_memsz + 2

-- The body of the loop over the program headers.
unfoldable pub load_segment : Reader → ℕ → ProgramHeader → Mmu → Option Mmu
unfolding load_blocks load_zeros
load_segment reader pid ph m = if ltb ph.p_vaddr ram_start then some m else do
  let l : Load = record {
    off = 0;
    curr_pageno = ph.p_vaddr / page_size;
    curr_blockno = ph.p_offset / block_size;
    ppage_id = 0;
    mmu = m;
  }
  l ← load_blocks (load_fuel ph) reader pid ph.p_filesz l
  l ← load_zeros (load_fuel ph) pid ((ph.p_vaddr + ph.p_memsz) % 2 ^ 32 / page_size) l
  some l.mmu

-- The loop over the program headers, with the number of those that are left.
unfoldable pub load_segments : ℕ → ℕ → Reader → ℕ → Bytes → Mmu → Option Mmu
unfolding load_segment program_header
load_segments zero i reader pid header m = some m
load_segments (suc rounds) i reader pid header m = do
  ph ← program_header header i
  m ← load_segment reader pid ph m
  load_segments rounds (suc i) reader pid header m

-- sizeof(int), sizeof(uint) and sizeof(void*).
abbrev pub word_size : ℕ
word_size = 4

-- The offsets of argv_addr and args_addr in their page.
abbrev pub argv_offset : ℕ
argv_offset = word_size

abbrev pub args_offset : ℕ
args_offset = argv_offset + word_size * cmd_nargs

-- The bytes of a `uint`.
abbrev pub uint_bytes : ℕ → Bytes
uint_bytes v k = v / 256 ^ k % 256

-- The address of argument i in the memory of the process.
abbrev pub arg_addr : ℕ → ℕ
arg_addr i = apps_arg + args_offset + i * cmd_arg_len

-- The loop that sets argv_addr[i].
unfoldable pub set_argv : ℕ → ℕ → ℕ → Mmu → Mmu
set_argv zero i ppage_id m = m
set_argv (suc rounds) i ppage_id m =
    set_argv rounds (suc i) ppage_id
      (copy_to ppage_id (argv_offset + word_size * i) word_size (uint_bytes (arg_addr i)) m)

-- argv is a null pointer for the servers.
abbrev pub copy_args : ℕ → ℕ → Option Argv → Mmu → Mmu
copy_args ppage_id argc none m = m
copy_args ppage_id argc (some argv) m =
    copy_to ppage_id args_offset (argc * cmd_arg_len)
      (λ k. argv (k / cmd_arg_len) (k % cmd_arg_len)) m

-- The page for the arguments of main.
unfoldable pub load_args : ℕ → ℕ → Option Argv → Mmu → Option Mmu
unfolding new_page set_argv
load_args pid argc argv m = do
  (ppage_id, m) ← new_page pid (apps_arg / page_size) m
  let m = copy_to ppage_id 0 word_size (uint_bytes argc) m
  let m = copy_args ppage_id argc argv m
  some (set_argv argc 0 ppage_id m)

-- The loop over the pages of the stack.
unfoldable pub load_stack : ℕ → ℕ → ℕ → Mmu → Option Mmu
unfolding new_page
load_stack zero i pid m = some m
load_stack (suc rounds) i pid m = do
  stack ← new_page pid (apps_stack_top / page_size - i) m
  load_stack rounds (suc i) pid (stack.1)

unfoldable pub elf_load : ℕ → Reader → ℕ → Option Argv → Mmu → Option Mmu
unfolding load_segments load_args load_stack new_page
elf_load pid reader argc argv m = do
  let header = reader 0
  m ← load_segments (e_phnum header) 0 reader pid header m
  m ← load_args pid argc argv m
  syscall ← new_page pid (syscall_arg / page_size) m
  load_stack 2 1 pid (syscall.1)
