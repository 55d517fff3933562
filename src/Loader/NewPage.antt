-- ===== src/Loader/NewPage.antt =====
-- library/elf/elf.c: the allocation of a page for the process, with mmu_alloc and mmu_map.
use egos.Base.{
  ℕ, suc, ◌≤◌, ◌<◌, ◌≡◌, ◌≢◌, ◌⊎◌, refl, sym, ◌∙◌, true, false, ◌==◌, leb, some, update, arith,
  Bool-cases, inl, inr, ==_refl,
}
use mathlib.Core.Bool.{false≢true}
use egos.Memory.{Mmu, apps_pages_cnt, frame, is_of, soft_tlb_map}
use egos.Memory.Pages.{mmu_alloc-Allocates}
use egos.Memory.Isolation.{soft_tlb_map-IsMapped}
use egos.Loader.{new_page}
use egos.Loader.Pages.{owned, IsReady, Extends, used_ne}

-- The memory after a page was taken.
pub with_page : ℕ → ℕ → ℕ → Mmu → Mmu
with_page pid vpage_no i m = record m {
  pages = soft_tlb_map pid vpage_no i (update m.pages i (record (m.pages i) { used = true }));
}

-- The process has no page at this number.
abbrev pub IsAbsent : ℕ → ℕ → Mmu → Type 0
IsAbsent pid vpage_no m =
    (j : ℕ) → j < apps_pages_cnt → is_of pid (m.pages j) ≡ true → (m.pages j).vpage_no ≢ vpage_no

pub with_page-pages :
    (pid vpage_no i : ℕ) (m : Mmu) (j : ℕ)
    → ((with_page pid vpage_no i m).pages j ≡ owned pid vpage_no)
      ⊎ ((with_page pid vpage_no i m).pages j ≡ m.pages j)
unfolding with_page soft_tlb_map
with_page-pages pid vpage_no i m j = elim (Bool-cases (j == i)) [
  | inl same ↦ inl (rw (same, ==_refl i) refl)
  | inr other ↦ inr (rw other refl)
]

module _ (pid n from from' vpage_no : ℕ) (m : Mmu) (r : IsReady pid n from m) (le' : from ≤ from')
    (above : vpage_no < from') (below : vpage_no < frame 0) (new : IsAbsent pid vpage_no m) where
  with_page-IsReady :
      (i : ℕ)
      → i ≤ n
      → (m.pages i).used ≡ false
      → IsReady pid (suc n) from' (with_page pid vpage_no i m)
  unfolding with_page soft_tlb_map
  with_page-IsReady i le unused = record {
    free = λ j lo hi. ground (arith, r.free j (omega (arith, lo)) hi);
    mapped = soft_tlb_map-IsMapped pid vpage_no i m.pages r.mapped unused below new;
    apart = r.apart;
    below = λ j lt its. ground (arith, r.below j lt, le', above);
  }

  with_page-Extends : (i : ℕ) → (m.pages i).used ≡ false → Extends m (with_page pid vpage_no i m)
  unfolding with_page soft_tlb_map
  with_page-Extends i unused = record {
    kept = λ j used. let ne = used_ne m i j unused used in (rw ne refl, refl);
    low = λ k lt. refl;
    curr = refl;
  }

  -- A free page becomes a page of the process.
  pub new_page_absent :
      n < apps_pages_cnt
      → let m' = λ (i : ℕ). with_page pid vpage_no i m in
        (i : ℕ) × (i < apps_pages_cnt)
        × ((m.pages i).used ≡ false)
        × ((m' i).pages i ≡ owned pid vpage_no)
        × IsReady pid (suc n) from' (m' i)
        × Extends m (m' i)
        × (new_page pid vpage_no m ≡ some (i, m' i))
  unfolding new_page with_page soft_tlb_map
  new_page_absent lt = elim (mmu_alloc-Allocates m.pages) [
    | inl (fails, all) ↦
        absurd (false≢true (sym (r.free n (omega arith) lt) ∙ all n (omega arith) lt))
    | inr (i, le, lt', unused, before, gives) ↦ elim (Bool-cases (leb i n)) [
      | inl low ↦ (
        i,
        lt',
        unused,
        rw (==_refl i) refl,
        with_page-IsReady i (ground arith) unused,
        with_page-Extends i unused,
        rw gives refl,
      )
      | inr high ↦
          absurd
            (false≢true (sym (r.free n (omega arith) lt) ∙ before n (omega arith) (ground arith)))
    ]
  ]

module _ (pid n from vpage_no : ℕ) (m : Mmu) (r : IsReady pid n from m) (above : from ≤ vpage_no)
    (below : vpage_no < frame 0) where
  pub new_page_lem :
      n < apps_pages_cnt
      → let m' = λ (i : ℕ). with_page pid vpage_no i m in
        (i : ℕ) × (i < apps_pages_cnt)
        × ((m.pages i).used ≡ false)
        × ((m' i).pages i ≡ owned pid vpage_no)
        × IsReady pid (suc n) (suc vpage_no) (m' i)
        × Extends m (m' i)
        × (new_page pid vpage_no m ≡ some (i, m' i))
  new_page_lem lt =
      new_page_absent pid n from (suc vpage_no) vpage_no m r (omega (arith, above)) (omega arith)
        below (λ j lt its e. absurd (omega (arith, r.below j lt its, e, above))) lt
