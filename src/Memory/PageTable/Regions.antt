-- ===== src/Memory/PageTable/Regions.antt =====
-- earth/cpu_mmu.c: `setup_identity_region` maps a region to itself, and keeps what is mapped.
use egos.Base.{
  ℕ, suc, ◌+◌, ◌-◌, ◌*◌, ◌/◌, ◌%◌, ◌≤◌, ◌<◌, ◌≡◌, refl, sym, subst, ◌∙◌, ◌&&◌, leb, ltb, ◌==◌,
  if◌then◌else◌, arith, Bool-cases, ==_iff, inl, inr, ◌⊎◌, some, ne→==, ==_refl,
}
use egos.Memory.{Page, page_size, frame, apps_pages_cnt}
use egos.Memory.PageTable.{Tables, set_memory, set_entries, setup_identity_region}
use egos.Memory.PageTable.Entries.{entry, set_entries_lem}
use egos.Memory.PageTable.Identity.{FreeFrom, table_entry, IsTables, IsIdentity, Maps}
use egos.Memory.PageTable.Leaves.{Found, find_leaf-Found}

-- The region lies within the address space and within the pages of one leaf table, and the
-- entries that are made for it are those of its own pages.
pub record IsRegion (addr npages flag : ℕ) : Type 0 where
  pub below : addr < 4294967296
  pub fits : addr / page_size % 1024 + npages ≤ 1024
  pub entries : (j : ℕ) → j < npages → IsIdentity (entry addr flag j) (addr / page_size + j)

module _ {r v n addr npages flag : ℕ} {t t' : Tables} (f : Found r v n t t')
    (g : IsRegion addr npages flag) (here : v ≡ addr / page_size / 1024) where
  abbrev filled : ℕ → Page
  filled = set_entries npages 0 addr flag (t'.leaf + 4 * (addr / page_size % 1024)) t'.mmu.memory

  filled_at :
      (a w : ℕ)
      → filled a w ≡ (
          if (a == frame f.q)
            && (leb (addr / page_size % 1024) w && ltb w (addr / page_size % 1024 + npages))
          then entry addr flag (w - addr / page_size % 1024)
          else t'.mmu.memory a w)
  filled_at a w = rw f.leaf_at (
      set_entries_lem npages 0 addr flag (frame f.q) (addr / page_size % 1024) t'.mmu.memory a w
        (omega (arith, g.fits))
      ∙ ground arith)

  filled-root : (u : ℕ) → filled (frame r) u ≡ t'.mmu.memory (frame r) u
  filled-root u =
      let other = ne→== r f.q (λ e. f.apart (sym e)) in filled_at (frame r) u ∙ ground arith

  filled-IsTables : IsTables r (set_memory filled t')
  filled-IsTables = record {
    root_at = f.tables.root_at;
    root_lt = f.tables.root_lt;
    root_used = f.tables.root_used;
    leaf_at = λ u lt odd. rw (filled-root u) (f.tables.leaf_at u lt (rw (filled-root u) at odd));
    apart = λ u u' lt lt' odd e.
        f.tables.apart u u' lt lt' (rw (filled-root u) at odd)
          (rw (filled-root u, filled-root u') at e);
  }

  -- A page of the region is mapped by its entry.
  filled-leaf :
      (p : ℕ)
      → p / 1024 ≡ v
      → IsIdentity (t'.mmu.memory (frame f.q) (p % 1024)) p
        ⊎ ((addr / page_size ≤ p) × (p < addr / page_size + npages))
      → IsIdentity (filled (frame f.q) (p % 1024)) p
  filled-leaf p e old =
      let vpn0 = addr / page_size % 1024 in
      elim (Bool-cases (leb vpn0 (p % 1024) && ltb (p % 1024) (vpn0 + npages))) [
        | inl inside ↦
            let le : vpn0 ≤ p % 1024 = ground arith in
            let lt : p % 1024 < vpn0 + npages = ground arith in
            let page : addr / page_size + (p % 1024 - vpn0) ≡ p = omega arith in
            let made : filled (frame f.q) (p % 1024) ≡ entry addr flag (p % 1024 - vpn0) =
              filled_at (frame f.q) (p % 1024) ∙ rw (==_refl (frame f.q), inside) refl in
            rw made (
              subst (IsIdentity (entry addr flag (p % 1024 - vpn0))) page
                (g.entries (p % 1024 - vpn0) (omega arith)))
        | inr outside ↦
            let kept : filled (frame f.q) (p % 1024) ≡ t'.mmu.memory (frame f.q) (p % 1024) =
              filled_at (frame f.q) (p % 1024) ∙ rw (==_refl (frame f.q), outside) refl in
            elim old [
              | inl identity ↦ rw kept identity
              | inr (le, lt) ↦
                  let fits = g.fits in
                  let le' : vpn0 ≤ p % 1024 = omega (arith, fits, e, here) in
                  let lt' : p % 1024 < vpn0 + npages = omega (arith, fits, e, here) in
                  absurd (ground arith)
            ]
      ]

  filled-Maps_old : (p : ℕ) → p / 1024 < 1024 → Maps r t' p → Maps r (set_memory filled t') p
  filled-Maps_old p small m = record {
    q = m.q;
    lt = m.lt;
    apart = m.apart;
    in_use = m.in_use;
    root = filled-root (p / 1024) ∙ m.root;
    leaf = elim (Bool-cases (m.q == f.q)) [
      | inl same ↦
          let q = (==_iff m.q f.q).0 same in
          let root : t'.mmu.memory (frame r) (p / 1024) ≡ table_entry f.q =
            subst (λ q. t'.mmu.memory (frame r) (p / 1024) ≡ table_entry q) q m.root in
          let at : p / 1024 ≡ v =
            f.tables.apart (p / 1024) v small (omega (arith, g.below, here)) (omega (arith, root))
              (root ∙ sym f.root) in
          subst (λ q. IsIdentity (filled (frame q) (p % 1024)) p) (sym q)
            (filled-leaf p at
              (inl (subst (λ q. IsIdentity (t'.mmu.memory (frame q) (p % 1024)) p) q m.leaf)))
      | inr other ↦
          let kept : filled (frame m.q) (p % 1024) ≡ t'.mmu.memory (frame m.q) (p % 1024) =
            filled_at (frame m.q) (p % 1024) ∙ ground arith in
          rw kept m.leaf
    ];
  }

  filled-Maps_new : (j : ℕ) → j < npages → Maps r (set_memory filled t') (addr / page_size + j)
  filled-Maps_new j lt =
      let at : (addr / page_size + j) / 1024 ≡ v = omega (arith, g.fits) in
      record {
        q = f.q;
        lt = f.lt;
        apart = f.apart;
        in_use = f.in_use;
        root = rw at (filled-root v ∙ f.root);
        leaf = filled-leaf (addr / page_size + j) at (inr (omega arith, omega arith));
      }

-- What the set-up of regions leaves: so many pages fewer are free, and what was mapped still is.
pub record SetUp (r n : ℕ) (t t' : Tables) : Type 0 where
  pub tables : IsTables r t'
  pub free : FreeFrom n t'.mmu.pages
  pub keeps : (p : ℕ) → p / 1024 < 1024 → Maps r t p → Maps r t' p

-- `setup_identity_region` maps each page of the region to itself.
pub setup_identity_region-Maps :
    (pid r n addr npages flag : ℕ) (t : Tables)
    → IsTables r t
    → FreeFrom n t.mmu.pages
    → n < apps_pages_cnt
    → IsRegion addr npages flag
    → (t' : Tables) × (setup_identity_region pid addr npages flag t ≡ some t')
      × SetUp r (suc n) t t'
      × ((j : ℕ) → j < npages → Maps r t' (addr / page_size + j))
unfolding setup_identity_region
setup_identity_region-Maps pid r n addr npages flag t s free lt g =
    let below = g.below in
    let here : addr / 4194304 ≡ addr / page_size / 1024 = omega arith in
    let (t', gives, f) =
      find_leaf-Found pid r (addr / 4194304) n t s free lt (omega (arith, below)) in
    rw gives (
      _,
      refl,
      record {
        tables = filled-IsTables f g here;
        free = f.free;
        keeps = λ p small m. filled-Maps_old f g here p small (f.keeps p small m);
      },
      filled-Maps_new f g here,
    )
