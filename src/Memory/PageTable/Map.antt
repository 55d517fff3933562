-- ===== src/Memory/PageTable/Map.antt =====
-- earth/cpu_mmu.c: the tables of `pagetable_identity_map`.
use egos.Base.{
  ℕ, suc, ◌+◌, ◌-◌, ◌*◌, ◌/◌, ◌≤◌, ◌<◌, ◌≡◌, refl, sym, subst, ◌∙◌, arith, inl, inr, some, List, [],
  ◌∷◌, length, eq_of_some, update,
}
use egos.Memory.{page_size, frame, apps_pages_cnt}
use egos.Platform.{Platform}
use egos.Memory.PageTable.{Tables, regions, user_rwx, setup_regions, pagetable_identity_map}
use egos.Memory.PageTable.Identity.{FreeFrom, IsTables, Maps, allocated, new_table_lem}
use egos.Memory.PageTable.Regions.{SetUp, setup_identity_region-Maps}
use egos.Memory.PageTable.Walk.{
  AllRegions, InRegions, Maps-walk, few_regions, regions-AllRegions, walk,
}

setup_regions-SetUp :
    (pid r n : ℕ) (rs : List (ℕ × ℕ)) (t : Tables)
    → IsTables r t
    → FreeFrom n t.mmu.pages
    → n + length rs ≤ apps_pages_cnt
    → AllRegions rs
    → (t' : Tables) × (setup_regions pid rs t ≡ some t')
      × SetUp r (n + length rs) t t'
      × ((p : ℕ) → p / 1024 < 1024 → InRegions p rs → Maps r t' p)
unfolding setup_regions
setup_regions-SetUp pid r n [] t s free fits all = (
  t,
  refl,
  record { tables = s; free = λ j le. free j (omega arith); keeps = λ p small m. m },
  λ p small none_there. absurd none_there,
)
setup_regions-SetUp pid r n ((addr, npages) ∷ rest) t s free fits all =
    let (t1, gives, first, new) =
      setup_identity_region-Maps pid r n addr npages user_rwx t s free (omega arith) all.0 in
    let (t2, gives', all_set, later) =
      setup_regions-SetUp pid r (suc n) rest t1 first.tables first.free (omega arith) all.1 in
    rw (gives, gives')
      (
        _,
        refl,
        record {
          tables = all_set.tables;
          free = λ j le. all_set.free j (omega arith);
          keeps = λ p small m. all_set.keeps p small (first.keeps p small m);
        },
        λ p small inside. elim inside [
          | inl (le, lt) ↦
              let place : addr / page_size + (p - addr / page_size) ≡ p = omega arith in
              all_set.keeps p small
                (subst (Maps r t1) place (new (p - addr / page_size) (omega arith)))
          | inr behind ↦ later p small behind
        ],
      )

-- An empty root table.
new_root-IsTables :
    (pid id : ℕ) (t : Tables)
    → id < apps_pages_cnt
    → IsTables id (record t {
      mmu = allocated pid id t.mmu;
      root = frame id * page_size;
      pagetable_base = update t.pagetable_base pid (frame id * page_size);
    })
new_root-IsTables pid id t lt = record {
  root_at = refl;
  root_lt = lt;
  root_used = ground arith;
  leaf_at = λ v lt' odd. absurd (ground arith);
  apart = λ v v' lt' lt'' odd e. absurd (ground arith);
}

-- The identity map, with the page of its root table.
identity_map :
    (pid n : ℕ) (platform : Platform) (t : Tables)
    → FreeFrom n t.mmu.pages
    → n + 12 ≤ apps_pages_cnt
    → (t' : Tables) × (r : ℕ) × (pagetable_identity_map pid platform t ≡ some t')
      × IsTables r t'
      × ((p : ℕ) → p / 1024 < 1024 → InRegions p (regions platform) → Maps r t' p)
unfolding pagetable_identity_map
identity_map pid n platform t free fits =
    let (id, le, unused, gives) = new_table_lem pid n t.mmu free (omega arith) in
    let (t', gives', done, maps) =
      setup_regions-SetUp pid id (suc n) (regions platform)
        (record t {
          mmu = allocated pid id t.mmu;
          root = frame id * page_size;
          pagetable_base = update t.pagetable_base pid (frame id * page_size);
        })
        (new_root-IsTables pid id t (omega arith)) (λ j le' lt. ground (arith, free j))
        (omega (arith, few_regions platform)) (regions-AllRegions platform) in
    rw gives (t', id, gives', done.tables, maps)

-- If the pages from number n on are free, with at least 12 of the 2048, then
-- `pagetable_identity_map` returns.
pub pagetable_identity_map-returns :
    (pid n : ℕ) (platform : Platform) (t : Tables)
    → FreeFrom n t.mmu.pages
    → n + 12 ≤ apps_pages_cnt
    → (t' : Tables) × (pagetable_identity_map pid platform t ≡ some t')
pagetable_identity_map-returns pid n platform t free fits =
    let (t', r, gives, tables, maps) = identity_map pid n platform t free fits in (t', gives)

-- If the pages from number n on are free, with at least 12 of the 2048, and
-- `pagetable_identity_map` returns, then the Sv32 walk from the root table maps every 32-bit
-- address in the regions of the platform to itself, readable, writable and executable in user
-- mode.
pub pagetable_identity_map-walk :
    (pid n va : ℕ) (platform : Platform) (t t' : Tables)
    → FreeFrom n t.mmu.pages
    → n + 12 ≤ apps_pages_cnt
    → pagetable_identity_map pid platform t ≡ some t'
    → va < 4294967296
    → InRegions (va / page_size) (regions platform)
    → walk t'.mmu.memory t'.root va ≡ some (va, user_rwx)
pagetable_identity_map-walk pid n va platform t t' free fits e small inside =
    let (t1, r, gives, tables, maps) = identity_map pid n platform t free fits in
    let same : t1 ≡ t' = eq_of_some (sym gives ∙ e) in
    rw (← same) (Maps-walk r va t1 tables (maps (va / page_size) (omega arith) inside) small)
