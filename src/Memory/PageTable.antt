-- ===== src/Memory/PageTable.antt =====
-- earth/cpu_mmu.c: the page tables (RISC-V Sv32) that map memory and devices to themselves.
pub mod Entries
pub mod Identity
pub mod Leaves
pub mod Regions
pub mod Walk
pub mod Map
use egos.Base.{
  ℕ, zero, suc, ◌+◌, ◌*◌, ◌/◌, ◌%◌, ◌&&◌, Option, none, some, List, [], ◌∷◌, leb, ltb, ◌==◌,
  if◌then◌else◌, update, bit_or,
}
use egos.Platform.{Platform, arty, qemu}
use egos.Memory.{
  Pages, Page, Mmu, page_size, frame, mmu_alloc, soft_tlb_map, soft_tlb_switch, soft_tlb_translate,
}

abbrev pub user_rwx : ℕ
user_rwx = 0xDF

-- MAX_NPROCESS of this file.
abbrev pub max_pid : ℕ
max_pid = 256

-- The memory, the statics `root` and `leaf` as addresses, and `pid_to_pagetable_base`.
pub record Tables : Type 0 where
  pub mmu : Mmu
  pub root : ℕ
  pub leaf : ℕ
  pub pagetable_base : ℕ → ℕ

-- The word at an address.
abbrev pub word_at : (ℕ → Page) → ℕ → ℕ
word_at memory addr = memory (addr / page_size) (addr % page_size / 4)

abbrev pub set_word : (ℕ → Page) → ℕ → ℕ → ℕ → Page
set_word memory addr v =
    update memory (addr / page_size) (update (memory (addr / page_size)) (addr % page_size / 4) v)

abbrev pub set_memory : (ℕ → Page) → Tables → Tables
set_memory memory t = record t { mmu = record (t.mmu) { memory = memory } }

-- The loop over `i` that sets leaf[vpn0 + i]; `first` is the address of leaf[vpn0].
pub set_entries : ℕ → ℕ → ℕ → ℕ → ℕ → (ℕ → Page) → ℕ → Page
set_entries zero i addr flag first memory = memory
set_entries (suc rounds) i addr flag first memory =
    set_entries rounds (suc i) addr flag first
      (set_word memory (first + 4 * i) (bit_or ((addr + i * page_size) % 4294967296 / 4) flag))

infixl 5 ◌>>=◌
abbrev pub ◌>>=◌ {ℓ κ} : {A : Type ℓ} {B : Type κ} → Option A → (A → Option B) → Option B
none >>= f = none
some a >>= f = f a

-- A page filled with zeros for the process, and its address.
pub new_table : ℕ → Mmu → Option (ℕ × Mmu)
new_table pid mmu = do
  (id, pages) ← mmu_alloc mmu.pages
  some (
    frame id * page_size,
    record mmu {
      pages = update pages id (record (pages id) { pid = pid });
      memory = update mmu.memory (frame id) (λ k. 0);
    },
  )

-- The leaf page table of root[vpn1], which is allocated if there is none; & 0x1 is % 2, and
-- & 0xFFFFF000 clears the offset in the page.
pub find_leaf : ℕ → ℕ → Tables → Option Tables
unfolding new_table
find_leaf pid vpn1 t =
    let entry = word_at t.mmu.memory (t.root + 4 * vpn1) in
    if entry % 2 == 1
    then some (record t { leaf = entry * 4 % 4294967296 / page_size * page_size })
    else (do
      (leaf, mmu) ← new_table pid t.mmu
      some (record t {
        leaf = leaf;
        mmu = record mmu { memory = set_word mmu.memory (t.root + 4 * vpn1) (bit_or (leaf / 4) 1) };
      }))

pub setup_identity_region : ℕ → ℕ → ℕ → ℕ → Tables → Option Tables
unfolding find_leaf set_entries
setup_identity_region pid addr npages flag t = do
  t' ← find_leaf pid (addr / 4194304) t
  some (
      set_memory
        (set_entries npages 0 addr flag (t'.leaf + 4 * (addr / page_size % 1024)) t'.mmu.memory) t')

-- The regions that `pagetable_identity_map` sets up: RAM from RAM_START to RAM_END in pieces of
-- 4MB, CLINT_BASE, UART_BASE and SPI_BASE, and on Arty the ROM and the Ethernet device.
abbrev pub regions : Platform → List (ℕ × ℕ)
regions qemu =
    (0x80000000, 1024)
    ∷ (0x80400000, 1024)
    ∷ (0x80800000, 1024)
    ∷ (0x80C00000, 1024)
    ∷ (0x02000000, 16)
    ∷ (0x10010000, 1)
    ∷ (0x10050000, 1)
    ∷ []
regions arty =
    (0x80000000, 1024)
    ∷ (0x80400000, 1024)
    ∷ (0x80800000, 1024)
    ∷ (0x80C00000, 1024)
    ∷ (0xF0010000, 16)
    ∷ (0xF0001000, 1)
    ∷ (0xF0008800, 1)
    ∷ (0x20400000, 1024)
    ∷ (0xF0002000, 1)
    ∷ (0x90001000, 1)
    ∷ (0x90000000, 1)
    ∷ []

pub setup_regions : ℕ → List (ℕ × ℕ) → Tables → Option Tables
setup_regions pid [] t = some t
setup_regions pid ((addr, npages) ∷ rest) t =
    let continue = setup_regions pid rest in
    setup_identity_region pid addr npages user_rwx t >>= continue

pub pagetable_identity_map : ℕ → Platform → Tables → Option Tables
unfolding new_table setup_regions setup_identity_region
pagetable_identity_map pid platform t = do
  (root, mmu) ← new_table pid t.mmu
  setup_regions pid (regions platform)
      (record t { mmu = mmu; root = root; pagetable_base = update t.pagetable_base pid root })

-- `none` is FATAL: the pid, an int, is too large.
pub page_table_map : ℕ → ℕ → ℕ → Pages → Option Pages
unfolding soft_tlb_map
page_table_map pid vpage_no ppage_id pages =
    if leb max_pid pid && ltb pid 2147483648
    then none
    else some (soft_tlb_map pid vpage_no ppage_id pages)

pub page_table_switch : ℕ → Mmu → Mmu
unfolding soft_tlb_switch
page_table_switch pid m = soft_tlb_switch pid m

pub page_table_translate : ℕ → ℕ → Mmu → ℕ × Mmu
unfolding soft_tlb_translate
page_table_translate pid vaddr m = soft_tlb_translate pid vaddr m
