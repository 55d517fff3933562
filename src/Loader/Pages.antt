-- ===== src/Loader/Pages.antt =====
-- library/elf/elf.c: the pages that the loader adds to a process.
use egos.Base.{
  ℕ, ◌≤◌, ◌<◌, ◌≡◌, refl, sym, ap, ◌∙◌, true, false, ◌==◌, update, arith, Bool-cases, inl, inr,
}
use mathlib.Core.Bool.{false≢true}
use egos.Memory.{PageInfo, Pages, Page, Mmu, apps_pages_cnt, frame, is_of}
use egos.Memory.PageTable.Identity.{FreeFrom}
use egos.Memory.Isolation.{IsMapped, page_of}

-- The entry of a page of the process.
abbrev pub owned : ℕ → ℕ → PageInfo
owned pid vpage_no = record { used = true; pid = pid; vpage_no = vpage_no }

-- The pages from number n on are free, and the process, which is not mapped, sees its pages below
-- page number `from`.
pub record IsReady (pid n from : ℕ) (m : Mmu) : Type 0 where
  pub free : FreeFrom n m.pages
  pub mapped : IsMapped m.pages
  pub apart : (pid == m.curr_vm_pid) ≡ false
  pub below :
      (i : ℕ) → i < apps_pages_cnt → is_of pid (m.pages i) ≡ true → (m.pages i).vpage_no < from

-- The pages in use are kept, with their frames, and so is the memory below the frames.
pub record Extends (m m' : Mmu) : Type 0 where
  pub kept :
      (j : ℕ)
      → (m.pages j).used ≡ true
      → (m'.pages j ≡ m.pages j) × (m'.memory (frame j) ≡ m.memory (frame j))
  pub low : (k : ℕ) → k < frame 0 → m'.memory k ≡ m.memory k
  pub curr : m'.curr_vm_pid ≡ m.curr_vm_pid

-- The process has a page at this number, with this in its 4096 bytes.
abbrev pub HoldsPage : ℕ → Mmu → ℕ → (ℕ → ℕ) → Type 0
HoldsPage pid m vpage_no content =
    (i : ℕ) × (i < apps_pages_cnt)
    × (m.pages i ≡ owned pid vpage_no)
    × ((k : ℕ) → k < 4096 → m.memory (frame i) k ≡ content k)

pub Extends-refl : (m : Mmu) → Extends m m
Extends-refl m = record { kept = λ j used. (refl, refl); low = λ k lt. refl; curr = refl }

pub Extends-trans : (a b c : Mmu) → Extends a b → Extends b c → Extends a c
Extends-trans a b c e f = record {
  kept = λ j used.
      let (page, frame) = e.kept j used in
      let (page', frame') = f.kept j (ap (λ (p : PageInfo). p.used) page ∙ used) in
      (page' ∙ page, frame' ∙ frame);
  low = λ k lt. f.low k lt ∙ e.low k lt;
  curr = f.curr ∙ e.curr;
}

pub HoldsPage-Extends :
    (pid : ℕ) (m m' : Mmu) (vpage_no : ℕ) (content : ℕ → ℕ)
    → Extends m m'
    → HoldsPage pid m vpage_no content
    → HoldsPage pid m' vpage_no content
HoldsPage-Extends pid m m' vpage_no content e (i, lt, page, holds) =
    let (page', frame') = e.kept i (ap (λ (p : PageInfo). p.used) page) in
    (i, lt, page' ∙ page, λ k below. ap (λ (f : Page). f k) frame' ∙ holds k below)

-- A page in use is another one than a page that was free.
pub used_ne :
    (m : Mmu) (i j : ℕ) → (m.pages i).used ≡ false → (m.pages j).used ≡ true → (j == i) ≡ false
used_ne m i j unused used = elim (Bool-cases (j == i)) [
  | inl same ↦ absurd (false≢true (sym unused ∙ ground arith))
  | inr other ↦ other
]

-- A process has one page at each number.
pub one_page :
    (pid v i j : ℕ) (pages : Pages)
    → IsMapped pages
    → i < apps_pages_cnt
    → j < apps_pages_cnt
    → pages i ≡ owned pid v
    → pages j ≡ owned pid v
    → i ≡ j
one_page pid v i j pages mapped lt lt' e e' =
    mapped.apart i j lt lt' (ap (λ (p : PageInfo). p.used) e) (ap (λ (p : PageInfo). p.used) e')
      (ap (λ (p : PageInfo). p.pid) e ∙ sym (ap (λ (p : PageInfo). p.pid) e'))
      (ap (λ (p : PageInfo). p.vpage_no) e ∙ sym (ap (λ (p : PageInfo). p.vpage_no) e'))

pub other_page :
    (pid v w i j : ℕ) (pages : Pages)
    → pages j ≡ owned pid v
    → pages i ≡ owned pid w
    → ¬ (v ≡ w)
    → (j == i) ≡ false
other_page pid v w i j pages e e' ne = elim (Bool-cases (j == i)) [
  | inl same ↦
      let j_is_i : j ≡ i = ground arith in
      absurd (ne (ap (λ (p : PageInfo). p.vpage_no) (sym e ∙ ap pages j_is_i ∙ e')))
  | inr other ↦ other
]

-- Writing to the frame of a page that was free before.
abbrev pub put_page : ℕ → Page → Mmu → Mmu
put_page i page m = record m { memory = update m.memory (frame i) page }

pub frame_ne : (i j : ℕ) → (j == i) ≡ false → (frame j == frame i) ≡ false
frame_ne i j ne = ground arith

pub Extends-put_page :
    (m m' : Mmu) (i : ℕ) (page : Page)
    → Extends m m'
    → (m.pages i).used ≡ false
    → Extends m (put_page i page m')
Extends-put_page m m' i page e free = record {
  kept = λ j used.
      let ne = used_ne m i j free used in
      ((e.kept j used).0, rw (frame_ne i j ne) (e.kept j used).1);
  low = λ k lt. let ne : (k == frame i) ≡ false = ground arith in rw ne (e.low k lt);
  curr = e.curr;
}

pub put_page-IsReady :
    (pid n from : ℕ) (m : Mmu) (i : ℕ) (page : Page)
    → IsReady pid n from m
    → IsReady pid n from (put_page i page m)
put_page-IsReady pid n from m i page r = record {
  free = r.free;
  mapped = r.mapped;
  apart = r.apart;
  below = r.below;
}

pub IsReady-le :
    (pid n n' from from' : ℕ) (m : Mmu)
    → n ≤ n'
    → from ≤ from'
    → IsReady pid n from m
    → IsReady pid n' from' m
IsReady-le pid n n' from from' m le le' r = record {
  free = λ j lo hi. r.free j (omega (arith, le, lo)) hi;
  mapped = r.mapped;
  apart = r.apart;
  below = λ i lt its. omega (arith, r.below i lt its, le');
}

-- No page in use changes for its process.
pub page_of-Extends :
    (m m' : Mmu) (j : ℕ)
    → Extends m m'
    → IsMapped m.pages
    → j < apps_pages_cnt
    → (m.pages j).used ≡ true
    → page_of m' j ≡ page_of m j
page_of-Extends m m' j e mapped lt used =
    let (page, frame) = e.kept j used in
    let low = e.low (m.pages j).vpage_no (mapped.below j lt used) in
    let pid : (m'.pages j).pid ≡ (m.pages j).pid = ap (λ (p : PageInfo). p.pid) page in
    let v : (m'.pages j).vpage_no ≡ (m.pages j).vpage_no = ap (λ (p : PageInfo). p.vpage_no) page in
    rw (pid, v, e.curr, low, frame) refl
