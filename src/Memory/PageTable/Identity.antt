-- ===== src/Memory/PageTable/Identity.antt =====
-- earth/cpu_mmu.c: the invariant of the page tables, and the allocation of a table.
use mathlib.Core.Bool.{false≢true}
use egos.Base.{
  ℕ, ◌+◌, ◌*◌, ◌/◌, ◌%◌, ◌≤◌, ◌<◌, ◌≡◌, ◌≢◌, refl, sym, ◌∙◌, true, false, leb, update, arith,
  Bool-cases, inl, inr, some,
}
use egos.Memory.{Pages, Mmu, page_size, frame, apps_pages_cnt}
use egos.Memory.Pages.{mmu_alloc-Allocates}
use egos.Memory.PageTable.{Tables, new_table}

-- The pages from number n on are free.
abbrev pub FreeFrom : ℕ → Pages → Type 0
FreeFrom n pages = (j : ℕ) → n ≤ j → j < apps_pages_cnt → (pages j).used ≡ false

abbrev pub table_entry : ℕ → ℕ
table_entry q = frame q * 1024 + 1

-- Page r holds the root table, and each valid entry of it refers to a leaf table of its own.
pub record IsTables (r : ℕ) (t : Tables) : Type 0 where
  pub root_at : t.root ≡ frame r * page_size
  pub root_lt : r < apps_pages_cnt
  pub root_used : (t.mmu.pages r).used ≡ true
  pub leaf_at :
      (v : ℕ)
      → v < 1024
      → t.mmu.memory (frame r) v % 2 ≡ 1
      → (q : ℕ) × (q < apps_pages_cnt)
        × ((t.mmu.pages q).used ≡ true)
        × (q ≢ r)
        × (t.mmu.memory (frame r) v ≡ table_entry q)
  pub apart :
      (v v' : ℕ)
      → v < 1024
      → v' < 1024
      → t.mmu.memory (frame r) v % 2 ≡ 1
      → t.mmu.memory (frame r) v ≡ t.mmu.memory (frame r) v'
      → v ≡ v'

-- An entry for page p, readable, writable and executable in user mode; bits 8 and 9 are ignored.
abbrev pub IsIdentity : ℕ → ℕ → Type 0
IsIdentity x p = (x / 1024 ≡ p) × (x % 256 ≡ 0xDF)

-- The tables map page p to itself.
pub record Maps (r : ℕ) (t : Tables) (p : ℕ) : Type 0 where
  pub q : ℕ
  pub lt : q < apps_pages_cnt
  pub apart : q ≢ r
  pub in_use : (t.mmu.pages q).used ≡ true
  pub root : t.mmu.memory (frame r) (p / 1024) ≡ table_entry q
  pub leaf : IsIdentity (t.mmu.memory (frame q) (p % 1024)) p

abbrev pub allocated : ℕ → ℕ → Mmu → Mmu
allocated pid id mmu =
    let pages = update mmu.pages id (record (mmu.pages id) { used = true }) in
    record mmu {
      pages = update pages id (record (pages id) { pid = pid });
      memory = update mmu.memory (frame id) (λ k. 0);
    }

-- A free page becomes an empty table.
pub new_table_lem :
    (pid n : ℕ) (mmu : Mmu)
    → FreeFrom n mmu.pages
    → n < apps_pages_cnt
    → (id : ℕ) × (id ≤ n)
      × ((mmu.pages id).used ≡ false)
      × (new_table pid mmu ≡ some (frame id * page_size, allocated pid id mmu))
unfolding new_table
new_table_lem pid n mmu free lt = elim (mmu_alloc-Allocates mmu.pages) [
  | inl (fails, all) ↦ absurd (false≢true (sym (free n (omega arith) lt) ∙ all n (omega arith) lt))
  | inr (id, le, lt', unused, before, gives) ↦ elim (Bool-cases (leb id n)) [
    | inl low ↦ (id, ground arith, unused, rw gives refl)
    | inr high ↦
        absurd (false≢true (sym (free n (omega arith) lt) ∙ before n (omega arith) (ground arith)))
  ]
]
