-- ===== src/Memory/Pages.antt =====
-- earth/cpu_mmu.c: the allocation and the release of pages.
use egos.Base.{
  ℕ, zero, suc, ◌+◌, ◌≤◌, ◌<◌, ◌≡◌, refl, subst, true, false, ◌&&◌, Option, none, some, ltb, leb,
  ◌==◌, if◌then◌else◌, update, arith, ==_iff, Bool-cases, ◌⊎◌, inl, inr, ◌∙◌,
}
use egos.Memory.{Pages, cleared, apps_pages_cnt, alloc_from, mmu_alloc, free_from, mmu_free, is_of}

abbrev pub AllUsed : ℕ → ℕ → Pages → Type 0
AllUsed lo hi pages = (j : ℕ) → lo ≤ j → j < hi → (pages j).used ≡ true

-- The first free page is taken, or there is none.
abbrev pub AllocatesPage : ℕ → ℕ → Pages → Option (ℕ × Pages) → Type 0
AllocatesPage lo hi pages r =
    ((r ≡ none) × AllUsed lo hi pages)
    ⊎ ((i : ℕ) × (lo ≤ i)
        × (i < hi)
        × ((pages i).used ≡ false)
        × AllUsed lo i pages
        × (r ≡ some (i, update pages i (record (pages i) { used = true }))))

AllUsed-cons :
    (lo hi : ℕ) (pages : Pages)
    → (pages lo).used ≡ true
    → AllUsed (suc lo) hi pages
    → AllUsed lo hi pages
AllUsed-cons lo hi pages here rest j le lt = elim (Bool-cases (lo == j)) [
  | inl same ↦ subst (λ k. (pages k).used ≡ true) ((==_iff lo j).0 same) here
  | inr other ↦ rest j (ground arith) lt
]

alloc_from-Allocates :
    (rounds i hi : ℕ) (pages : Pages)
    → hi ≡ i + rounds
    → AllocatesPage i hi pages (alloc_from rounds i pages)
unfolding alloc_from
alloc_from-Allocates zero i hi pages e = inl (refl, λ j le lt. absurd (omega arith))
alloc_from-Allocates (suc rounds) i hi pages e = elim (Bool-cases (pages i).used) [
  | inr free ↦
      inr (i, omega arith, omega arith, free, λ j le lt. absurd (omega arith), rw free refl)
  | inl used ↦ rw used (elim (alloc_from-Allocates rounds (suc i) hi pages (omega arith)) [
    | inl (fails, all) ↦ inl (fails, AllUsed-cons i hi pages used all)
    | inr (j, le, lt, free, all, gives) ↦
        inr (j, omega arith, lt, free, AllUsed-cons i j pages used all, gives)
  ])
]

-- `mmu_alloc` takes the first page that is free and changes no other, and fails exactly if all
-- 2048 are in use.
pub mmu_alloc-Allocates : (pages : Pages) → AllocatesPage 0 apps_pages_cnt pages (mmu_alloc pages)
unfolding mmu_alloc
mmu_alloc-Allocates pages = alloc_from-Allocates apps_pages_cnt 0 apps_pages_cnt pages (omega arith)

free_from_lem :
    (rounds i pid : ℕ) (pages : Pages) (j : ℕ)
    → free_from rounds i pid pages j
      ≡ (if leb i j && ltb j (i + rounds) && is_of pid (pages j) then cleared else pages j)
unfolding free_from
free_from_lem zero i pid pages j = ground arith
free_from_lem (suc rounds) i pid pages j =
    rw
      (free_from_lem rounds (suc i) pid
        (if is_of pid (pages i) then update pages i cleared else pages) j)
      (ground arith)

-- `mmu_free` clears the entries of the pages that the process uses, and no others.
pub mmu_free_lem :
    (pid : ℕ) (pages : Pages) (j : ℕ)
    → mmu_free pid pages j
      ≡ (if ltb j apps_pages_cnt && is_of pid (pages j) then cleared else pages j)
unfolding mmu_free
mmu_free_lem pid pages j = free_from_lem apps_pages_cnt 0 pid pages j ∙ ground arith
