-- ===== src/Memory/PageTable/Entries.antt =====
-- earth/cpu_mmu.c: the words of a page table, and what the loop of `setup_identity_region` sets.
use egos.Base.{
  ℕ, zero, suc, ◌+◌, ◌-◌, ◌*◌, ◌/◌, ◌%◌, ◌≤◌, ◌<◌, ◌≡◌, refl, ◌∙◌, ◌&&◌, leb, ltb, ◌==◌,
  if◌then◌else◌, update, bit_or, arith, Bool-cases, ==_iff, inl, inr,
}
use egos.Memory.{Page, page_size}
use egos.Memory.PageTable.{word_at, set_word, set_entries}

pub word_at_lem :
    (memory : ℕ → Page) (n k : ℕ) → k < 1024 → word_at memory (n * page_size + 4 * k) ≡ memory n k
word_at_lem memory n k lt =
    let page : (n * page_size + 4 * k) / page_size ≡ n = omega arith in
    let word : (n * page_size + 4 * k) % page_size / 4 ≡ k = omega arith in rw (page, word) refl

pub set_word_lem :
    (memory : ℕ → Page) (n k v : ℕ)
    → k < 1024
    → set_word memory (n * page_size + 4 * k) v ≡ update memory n (update (memory n) k v)
set_word_lem memory n k v lt =
    let page : (n * page_size + 4 * k) / page_size ≡ n = omega arith in
    let word : (n * page_size + 4 * k) % page_size / 4 ≡ k = omega arith in rw (page, word) refl

-- The entry for the page `j` places behind the address.
abbrev pub entry : ℕ → ℕ → ℕ → ℕ
entry addr flag j = bit_or ((addr + j * page_size) % 4294967296 / 4) flag

pub set_entries_lem :
    (rounds i addr flag n vpn0 : ℕ) (memory : ℕ → Page) (a w : ℕ)
    → vpn0 + i + rounds ≤ 1024
    → set_entries rounds i addr flag (n * page_size + 4 * vpn0) memory a w ≡ (
        if (a == n) && (leb (vpn0 + i) w && ltb w (vpn0 + i + rounds))
        then entry addr flag (w - vpn0)
        else memory a w)
unfolding set_entries
set_entries_lem zero i addr flag n vpn0 memory a w fits = ground arith
set_entries_lem (suc rounds) i addr flag n vpn0 memory a w fits =
    let at : n * page_size + 4 * vpn0 + 4 * i ≡ n * page_size + 4 * (vpn0 + i) = omega arith in
    let now = set_word_lem memory n (vpn0 + i) (entry addr flag i) (omega arith) in
    let place : vpn0 + i - vpn0 ≡ i = omega arith in
    rw (at, now)
      (set_entries_lem rounds (suc i) addr flag n vpn0
          (update memory n (update (memory n) (vpn0 + i) (entry addr flag i))) a w (omega arith)
        ∙ elim (Bool-cases (w == vpn0 + i)) [
          | inl here ↦
              let same : w ≡ vpn0 + i = (==_iff w (vpn0 + i)).0 here in
              rw (same, place) (ground arith)
          | inr other ↦ ground arith
        ])
