-- ===== src/Memory.antt =====
-- earth/cpu_mmu.c: the allocation of pages, and address translation by a software TLB, which
-- copies the pages of a process to and from the addresses at which the process sees them.
pub mod Pages
pub mod Isolation
pub mod PageTable
mod Examples
use egos.Base.{
  ℕ, zero, suc, ◌+◌, ◌-◌, ◌/◌, Bool, true, false, not, ◌&&◌, Option, none, some, ◌==◌,
  if◌then◌else◌, update,
}

abbrev pub page_size : ℕ
page_size = 4096

abbrev pub ram_end : ℕ
ram_end = 0x81000000

abbrev pub apps_pages_base : ℕ
apps_pages_base = 0x80800000

abbrev pub apps_pages_cnt : ℕ
apps_pages_cnt = (ram_end - apps_pages_base) / page_size

-- The page number of PAGE_ID_TO_ADDR(i).
abbrev pub frame : ℕ → ℕ
frame i = apps_pages_base / page_size + i

-- struct page_info; `use` is 0 or 1 and `pid` the 32-bit pattern of an int.
pub record PageInfo : Type 0 where
  pub used : Bool
  pub pid : ℕ
  pub vpage_no : ℕ

abbrev pub cleared : PageInfo
cleared = record { used = false; pid = 0; vpage_no = 0 }

-- page_info_table.
abbrev pub Pages : Type 0
Pages = ℕ → PageInfo

-- The contents of a page: its 1024 words, or in Loader its 4096 bytes.
abbrev pub Page : Type 0
Page = ℕ → ℕ

-- The table, the static `curr_vm_pid`, and physical memory by page number.
pub record Mmu : Type 0 where
  pub pages : Pages
  pub curr_vm_pid : ℕ
  pub memory : ℕ → Page

-- `none` is FATAL: no more free memory.
pub alloc_from : ℕ → ℕ → Pages → Option (ℕ × Pages)
alloc_from zero i pages = none
alloc_from (suc rounds) i pages =
    let later = alloc_from rounds (suc i) pages in
    if not (pages i).used
    then some (i, update pages i (record (pages i) { used = true }))
    else later

pub mmu_alloc : Pages → Option (ℕ × Pages)
unfolding alloc_from
mmu_alloc pages = alloc_from apps_pages_cnt 0 pages

pub free_from : ℕ → ℕ → ℕ → Pages → Pages
free_from zero i pid pages = pages
free_from (suc rounds) i pid pages =
    free_from rounds (suc i) pid
      (if (pages i).used && ((pages i).pid == pid) then update pages i cleared else pages)

pub mmu_free : ℕ → Pages → Pages
unfolding free_from
mmu_free pid pages = free_from apps_pages_cnt 0 pid pages

unfoldable pub soft_tlb_map : ℕ → ℕ → ℕ → Pages → Pages
soft_tlb_map pid vpage_no ppage_id pages =
    update pages ppage_id (record (pages ppage_id) { pid = pid; vpage_no = vpage_no })

-- Whether page i belongs to the process.
abbrev pub is_of : ℕ → PageInfo → Bool
is_of pid page = page.used && (page.pid == pid)

-- The loop that unmaps the current process: each of its pages goes back to its frame.
pub save_from : ℕ → ℕ → ℕ → Pages → (ℕ → Page) → ℕ → Page
save_from zero i pid pages memory = memory
save_from (suc rounds) i pid pages memory =
    save_from rounds (suc i) pid pages
      (if is_of pid (pages i) then update memory (frame i) (memory (pages i).vpage_no) else memory)

-- The loop that maps the next process: each of its pages goes to where the process sees it.
pub load_from : ℕ → ℕ → ℕ → Pages → (ℕ → Page) → ℕ → Page
load_from zero i pid pages memory = memory
load_from (suc rounds) i pid pages memory =
    load_from rounds (suc i) pid pages
      (if is_of pid (pages i) then update memory (pages i).vpage_no (memory (frame i)) else memory)

pub soft_tlb_switch : ℕ → Mmu → Mmu
soft_tlb_switch pid m =
    let saved = save_from apps_pages_cnt 0 m.curr_vm_pid m.pages m.memory in
    if pid == m.curr_vm_pid
    then m
    else record m { memory = load_from apps_pages_cnt 0 pid m.pages saved; curr_vm_pid = pid }

-- The address is left as it is: the switch has put the page there.
pub soft_tlb_translate : ℕ → ℕ → Mmu → ℕ × Mmu
unfolding soft_tlb_switch
soft_tlb_translate pid vaddr m = (vaddr, soft_tlb_switch pid m)
