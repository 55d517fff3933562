-- ===== src/Memory/Isolation.antt =====
-- earth/cpu_mmu.c: switching between processes keeps the memory of each.
use egos.Base.{
  ℕ, zero, suc, ◌+◌, ◌≤◌, ◌<◌, ◌≡◌, ◌≢◌, refl, ◌∙◌, true, false, ◌&&◌, ltb, leb, ◌==◌,
  if◌then◌else◌, update, arith, ==_refl, Bool-cases, inl, inr,
}
use egos.Memory.{
  Pages, Page, Mmu, apps_pages_cnt, frame, is_of, save_from, load_from, soft_tlb_switch,
  soft_tlb_translate, soft_tlb_map, mmu_free,
}
use egos.Memory.Pages.{mmu_free_lem}

-- Two pages of a process are not seen at one address, and no process sees a frame.
pub record IsMapped (pages : Pages) : Type 0 where
  pub apart :
      (i j : ℕ)
      → i < apps_pages_cnt
      → j < apps_pages_cnt
      → (pages i).used ≡ true
      → (pages j).used ≡ true
      → (pages i).pid ≡ (pages j).pid
      → (pages i).vpage_no ≡ (pages j).vpage_no
      → i ≡ j
  pub below : (i : ℕ) → i < apps_pages_cnt → (pages i).used ≡ true → (pages i).vpage_no < frame 0

-- The contents of page i as its process sees them: in place if the process is mapped, and else
-- in its frame.
abbrev pub page_of : Mmu → ℕ → Page
page_of m i =
    if (m.pages i).pid == m.curr_vm_pid then m.memory (m.pages i).vpage_no else m.memory (frame i)

module _ {pages : Pages} (mapped : IsMapped pages) where
  save_from-frame :
      (rounds i pid : ℕ) (memory : ℕ → Page) (j : ℕ)
      → i + rounds ≤ apps_pages_cnt
      → save_from rounds i pid pages memory (frame j) ≡ (
          if leb i j && ltb j (i + rounds) && is_of pid (pages j)
          then memory (pages j).vpage_no
          else memory (frame j))
  unfolding save_from
  save_from-frame zero i pid memory j fits = ground arith
  save_from-frame (suc rounds) i pid memory j fits = elim (Bool-cases (is_of pid (pages i))) [
    | inl its ↦
        rw its (
          save_from-frame rounds (suc i) pid _ j (omega arith)
          ∙ ground (arith, its, mapped.below j))
    | inr other ↦
        rw other (save_from-frame rounds (suc i) pid memory j (omega arith) ∙ ground arith)
  ]

  load_from-frame :
      (rounds i pid : ℕ) (memory : ℕ → Page) (j : ℕ)
      → i + rounds ≤ apps_pages_cnt
      → load_from rounds i pid pages memory (frame j) ≡ memory (frame j)
  unfolding load_from
  load_from-frame zero i pid memory j fits = refl
  load_from-frame (suc rounds) i pid memory j fits = elim (Bool-cases (is_of pid (pages i))) [
    | inl its ↦
        rw its
          (load_from-frame rounds (suc i) pid _ j (omega arith) ∙ ground (arith, mapped.below i))
    | inr other ↦ rw other (load_from-frame rounds (suc i) pid memory j (omega arith))
  ]

  -- A page of the process, at the address at which the process sees it.
  load_from-vpage :
      (rounds i pid : ℕ) (memory : ℕ → Page) (j : ℕ)
      → i + rounds ≤ apps_pages_cnt
      → j < apps_pages_cnt
      → is_of pid (pages j) ≡ true
      → load_from rounds i pid pages memory (pages j).vpage_no
        ≡ (if leb i j && ltb j (i + rounds) then memory (frame j) else memory (pages j).vpage_no)
  unfolding load_from
  load_from-vpage zero i pid memory j fits lt mine = ground arith
  load_from-vpage (suc rounds) i pid memory j fits lt mine =
      elim (Bool-cases (is_of pid (pages i))) [
        | inl its ↦ rw its (
            load_from-vpage rounds (suc i) pid _ j (omega arith) lt mine
            ∙ ground (arith, mapped.below i, mapped.apart i j))
        | inr other ↦
            rw other
              (load_from-vpage rounds (suc i) pid memory j (omega arith) lt mine ∙ ground arith)
      ]

-- The page before and after a switch from `from` to `pid`.
switched_page :
    (pages : Pages) (from pid : ℕ) (memory : ℕ → Page) (i : ℕ)
    → IsMapped pages
    → i < apps_pages_cnt
    → (pages i).used ≡ true
    → let saved = save_from apps_pages_cnt 0 from pages memory in
      let loaded = load_from apps_pages_cnt 0 pid pages saved in
      (if (pages i).pid == pid then loaded (pages i).vpage_no else loaded (frame i))
      ≡ (if (pages i).pid == from then memory (pages i).vpage_no else memory (frame i))
switched_page pages from pid memory i mapped lt used =
    let saved : ℕ → Page = save_from apps_pages_cnt 0 from pages memory in
    let at_frame = load_from-frame mapped apps_pages_cnt 0 pid saved i (omega arith) in
    let was = save_from-frame mapped apps_pages_cnt 0 from memory i (omega arith) in
    elim (Bool-cases (is_of pid (pages i))) [
      | inl mine ↦
          ground
            (arith, was, load_from-vpage mapped apps_pages_cnt 0 pid saved i (omega arith) lt mine)
      | inr other ↦ ground (arith, was, at_frame)
    ]

-- If no process maps two of its pages at one address, and none maps an address at or above the
-- page frames, then `soft_tlb_switch` to any process keeps the contents that every process has
-- in every one of its pages.
pub soft_tlb_switch-page_of :
    (pid : ℕ) (m : Mmu) (i : ℕ)
    → IsMapped m.pages
    → i < apps_pages_cnt
    → (m.pages i).used ≡ true
    → page_of (soft_tlb_switch pid m) i ≡ page_of m i
unfolding soft_tlb_switch
soft_tlb_switch-page_of pid m i mapped lt used = elim (Bool-cases (pid == m.curr_vm_pid)) [
  | inl same ↦ rw same refl
  | inr other ↦ rw other (switched_page m.pages m.curr_vm_pid pid m.memory i mapped lt used)
]

-- After a switch to its process a page is in place.
pub in_place :
    (pid : ℕ) (m : Mmu) (i : ℕ)
    → (m.pages i).pid ≡ pid
    → (soft_tlb_switch pid m).memory (m.pages i).vpage_no ≡ page_of (soft_tlb_switch pid m) i
unfolding soft_tlb_switch
in_place pid m i e = elim (Bool-cases (pid == m.curr_vm_pid)) [
  | inl same ↦ rw (same, e, same) refl
  | inr other ↦ rw (other, e, ==_refl pid) refl
]

-- A second switch to the process does nothing.
pub soft_tlb_switch-again :
    (pid : ℕ) (m : Mmu) → soft_tlb_switch pid (soft_tlb_switch pid m) ≡ soft_tlb_switch pid m
unfolding soft_tlb_switch
soft_tlb_switch-again pid m = elim (Bool-cases (pid == m.curr_vm_pid)) [
  | inl same ↦ rw (same, same) refl
  | inr other ↦ rw (other, ==_refl pid) refl
]

pub soft_tlb_switch-curr_vm_pid : (pid : ℕ) (m : Mmu) → (soft_tlb_switch pid m).curr_vm_pid ≡ pid
unfolding soft_tlb_switch
soft_tlb_switch-curr_vm_pid pid m = elim (Bool-cases (pid == m.curr_vm_pid)) [
  | inl same ↦ ground (arith, same)
  | inr other ↦ rw other refl
]

-- Under the same condition on the mapping as for a switch, `soft_tlb_translate` for a process
-- leaves the address as it is, and each page of the process is then in place where the process
-- sees it, with the contents that it had.
pub soft_tlb_translate-page_of :
    (pid vaddr : ℕ) (m : Mmu) (i : ℕ)
    → IsMapped m.pages
    → i < apps_pages_cnt
    → is_of pid (m.pages i) ≡ true
    → let (paddr, m') = soft_tlb_translate pid vaddr m in
      (paddr ≡ vaddr) × (m'.memory (m.pages i).vpage_no ≡ page_of m i)
unfolding soft_tlb_translate
soft_tlb_translate-page_of pid vaddr m i mapped lt mine =
    let used : (m.pages i).used ≡ true = ground arith in
    let kept = soft_tlb_switch-page_of pid m i mapped lt used in
    let now : (m.pages i).pid ≡ pid = ground arith in (refl, in_place pid m i now ∙ kept)

-- Mapping a page that was free, below the page frames and where the process has no page yet,
-- keeps a table in which no process maps two pages at one address.
pub soft_tlb_map-IsMapped :
    (pid vpage_no i : ℕ) (pages : Pages)
    → IsMapped pages
    → (pages i).used ≡ false
    → vpage_no < frame 0
    → ((j : ℕ) → j < apps_pages_cnt → is_of pid (pages j) ≡ true → (pages j).vpage_no ≢ vpage_no)
    → IsMapped (soft_tlb_map pid vpage_no i (update pages i (record (pages i) { used = true })))
unfolding soft_tlb_map
soft_tlb_map-IsMapped pid vpage_no i pages mapped free low new = record {
  apart =
      λ a b lt lt' used used' e e'. ground (arith, mapped.apart a b lt lt', new a lt, new b lt');
  below = λ a lt used. ground (arith, mapped.below a lt);
}

-- `mmu_free` keeps a table in which no process maps two pages at one address.
pub mmu_free-IsMapped : (pid : ℕ) (pages : Pages) → IsMapped pages → IsMapped (mmu_free pid pages)
mmu_free-IsMapped pid pages mapped = record {
  apart = λ a b lt lt' used used' e e'.
      ground (arith, mmu_free_lem pid pages a, mmu_free_lem pid pages b, mapped.apart a b lt lt');
  below = λ a lt used. ground (arith, mmu_free_lem pid pages a, mapped.below a lt);
}
