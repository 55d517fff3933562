-- ===== src/Memory/PageTable/Walk.antt =====
-- The Sv32 walk of the hardware through page tables, and the regions that earth/cpu_mmu.c maps.
use egos.Base.{
  ℕ, ◌+◌, ◌*◌, ◌/◌, ◌%◌, ◌≤◌, ◌<◌, ◌≡◌, refl, subst, ◌∙◌, ◌==◌, ◌&&◌, true, Bool, leb, ltb,
  if◌then◌else◌, arith, ◌⊎◌, Option, none, some, List, [], ◌∷◌, length,
}
use egos.Base.Bits.{bit_or-disjoint}
use egos.Memory.{Page, page_size, frame}
use egos.Platform.{Platform, arty, qemu}
use egos.Memory.PageTable.{Tables, regions, user_rwx, word_at}
use egos.Memory.PageTable.Entries.{word_at_lem, entry}
use egos.Memory.PageTable.Identity.{table_entry, IsTables, IsIdentity, Maps}
use egos.Memory.PageTable.Regions.{IsRegion}

-- The Sv32 walk from the root table at an address: the physical address and the low eight bits of
-- the entry, or a fault. An entry that maps a 4MB page counts as a fault, since there are none.
pub walk : (ℕ → Page) → ℕ → ℕ → Option (ℕ × ℕ)
walk memory root va =
    let pte1 = word_at memory (root + 4 * (va / 4194304)) in
    let pte0 = word_at memory (pte1 / 1024 * page_size + 4 * (va / page_size % 1024)) in
    if (pte1 % 16 == 1) && (pte0 % 2 == 1)
    then some (pte0 / 1024 * page_size + va % page_size, pte0 % 256)
    else none

pub Maps-walk :
    (r va : ℕ) (t : Tables)
    → IsTables r t
    → Maps r t (va / page_size)
    → va < 4294967296
    → walk t.mmu.memory t.root va ≡ some (va, user_rwx)
unfolding walk
Maps-walk r va t s m small =
    let e : va / 4194304 ≡ va / page_size / 1024 = omega arith in
    let pte1 = word_at_lem t.mmu.memory (frame r) (va / page_size / 1024) (omega arith) ∙ m.root in
    let table : table_entry m.q / 1024 * page_size ≡ frame m.q * page_size = omega arith in
    let pointer : (table_entry m.q % 16 == 1) ≡ true = ground arith in
    let pte0 = word_at_lem t.mmu.memory (frame m.q) (va / page_size % 1024) (omega arith) in
    let (page, flags) = m.leaf in
    let valid : (t.mmu.memory (frame m.q) (va / page_size % 1024) % 2 == 1) ≡ true =
      ground (arith, flags) in
    let whole : va / page_size * page_size + va % page_size ≡ va = omega arith in
    rw (s.root_at, e, pte1, table, pointer, pte0, valid, page, flags, whole) refl

-- A region that starts at a page, and lies within the pages of one leaf table.
abbrev is_aligned : ℕ → ℕ → Bool
is_aligned addr npages =
    (addr % page_size == 0) && (leb (addr / page_size % 1024 + npages) 1024 && ltb addr 4294967296)

aligned-IsRegion : (addr npages : ℕ) → is_aligned addr npages ≡ true → IsRegion addr npages user_rwx
aligned-IsRegion addr npages aligned = record {
  below = ground arith;
  fits = ground arith;
  entries = λ j lt.
      let whole : addr % page_size ≡ 0 = ground arith in
      let fits : addr / page_size % 1024 + npages ≤ 1024 = ground arith in
      let below : addr < 4294967296 = ground arith in
      let e : (addr + j * page_size) % 4294967296 / 4 ≡ (addr / page_size + j) * 1024 =
        omega arith in
      rw (e, bit_or-disjoint (addr / page_size + j) user_rwx (omega arith))
        (omega arith, omega arith);
}

-- SPI_BASE on Arty lies within a page: its offset sets bit 9 of the entry, which is ignored.
spi-IsRegion : IsRegion 0xF0008800 1 user_rwx
spi-IsRegion = record {
  below = omega arith;
  fits = omega arith;
  entries = λ j lt.
      let first : 0 ≡ j = omega arith in
      subst (λ j. IsIdentity (entry 0xF0008800 user_rwx j) (0xF0008800 / page_size + j)) first
        (refl, refl);
}

abbrev pub AllRegions : List (ℕ × ℕ) → Type 0
AllRegions [] = Unit {0}
AllRegions ((addr, npages) ∷ rest) = IsRegion addr npages user_rwx × AllRegions rest

pub regions-AllRegions : (platform : Platform) → AllRegions (regions platform)
regions-AllRegions qemu = (
  aligned-IsRegion _ _ refl,
  (
    aligned-IsRegion _ _ refl,
    (
      aligned-IsRegion _ _ refl,
      (
        aligned-IsRegion _ _ refl,
        (aligned-IsRegion _ _ refl, (aligned-IsRegion _ _ refl, (aligned-IsRegion _ _ refl, tt))),
      ),
    ),
  ),
)
regions-AllRegions arty = (
  aligned-IsRegion _ _ refl,
  (
    aligned-IsRegion _ _ refl,
    (
      aligned-IsRegion _ _ refl,
      (
        aligned-IsRegion _ _ refl,
        (
          aligned-IsRegion _ _ refl,
          (
            aligned-IsRegion _ _ refl,
            (
              spi-IsRegion,
              (
                aligned-IsRegion _ _ refl,
                (
                  aligned-IsRegion _ _ refl,
                  (aligned-IsRegion _ _ refl, (aligned-IsRegion _ _ refl, tt)),
                ),
              ),
            ),
          ),
        ),
      ),
    ),
  ),
)

pub few_regions : (platform : Platform) → length (regions platform) ≤ 11
few_regions qemu = omega arith
few_regions arty = omega arith

-- Page p belongs to one of the regions.
abbrev pub InRegions : ℕ → List (ℕ × ℕ) → Type 0
InRegions p [] = ⊥
InRegions p ((addr, npages) ∷ rest) =
    ((addr / page_size ≤ p) × (p < addr / page_size + npages)) ⊎ InRegions p rest
