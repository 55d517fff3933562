-- ===== src/Loader/Segment.antt =====
-- library/elf/elf.c: the blocks of a segment go to pages of their own.
use egos.Base.{
  ℕ, suc, ◌+◌, ◌*◌, ◌/◌, ◌%◌, ◌≤◌, ◌<◌, ◌≡◌, refl, sym, ap, ◌∙◌, false, ◌&&◌, ◌==◌, ltb, some,
  if◌then◌else◌, arith, Bool-cases, inl, inr, ==_refl,
}
use mathlib.Core.Bool.{false≢true}
use egos.Memory.{PageInfo, Mmu, apps_pages_cnt, frame}
use egos.Loader.{Reader, Load, zero_page}
use egos.Loader.NewPage.{with_page, new_page_lem}
use egos.Loader.Pages.{
  owned, IsReady, Extends, Extends-trans, put_page, Extends-put_page, put_page-IsReady, IsReady-le,
}

-- The memory that the segment had before the loop, with n pages and its block and page numbers.
module _ (reader : Reader) (pid n block start filesz : ℕ) (m : Mmu) where
  -- Byte x of the segment when `q` blocks have been copied.
  abbrev pub copied : ℕ → ℕ → ℕ
  copied q x = if ltb (x / 512) q && ltb x filesz then reader (block + x / 512) (x % 512) else 0

  -- After q blocks, with c pages for them.
  pub record Loading (q c : ℕ) (l : Load) : Type 0 where
    pub off : l.off ≡ 512 * q
    pub blockno : l.curr_blockno ≡ block + q
    pub pageno : l.curr_pageno ≡ start + c
    pub ready : IsReady pid (n + c) (start + c) l.mmu
    pub extends : Extends m l.mmu
    pub holds :
        (p : ℕ)
        → p < c
        → (i : ℕ) × (i < apps_pages_cnt)
          × ((m.pages i).used ≡ false)
          × (l.mmu.pages i ≡ owned pid (start + p))
          × ((k : ℕ) → k < 4096 → l.mmu.memory (frame i) k ≡ copied q (4096 * p + k))

  -- The page at hand is page p of the segment.
  abbrev pub AtPage : ℕ → Load → Type 0
  AtPage p l =
      (l.ppage_id < apps_pages_cnt)
      × (l.mmu.pages l.ppage_id ≡ owned pid (start + p))
      × ((m.pages l.ppage_id).used ≡ false)

  unused_before :
      (i : ℕ) (m' : Mmu) → Extends m m' → (m'.pages i).used ≡ false → (m.pages i).used ≡ false
  unused_before i m' e unused = elim (Bool-cases (m.pages i).used) [
    | inl used ↦
        absurd (false≢true (sym unused ∙ ap (λ (p : PageInfo). p.used) (e.kept i used).0 ∙ used))
    | inr free ↦ free
  ]

  -- Not yet copied.
  copied-zero : (q c k : ℕ) → q ≤ 8 * c → copied q (4096 * c + k) ≡ 0
  copied-zero q c k le = ground (arith, le)

  -- The pages of the segment, as they are after `q` blocks.
  abbrev HoldsBelow : ℕ → ℕ → Mmu → Type 0
  HoldsBelow q c m' =
      (p : ℕ)
      → p < c
      → (i : ℕ) × (i < apps_pages_cnt)
        × ((m.pages i).used ≡ false)
        × (m'.pages i ≡ owned pid (start + p))
        × ((k : ℕ) → k < 4096 → m'.memory (frame i) k ≡ copied q (4096 * p + k))

  HoldsBelow-suc :
      (q c i : ℕ) (a b : Mmu)
      → HoldsBelow q c a
      → Extends a b
      → q ≤ 8 * c
      → i < apps_pages_cnt
      → (m.pages i).used ≡ false
      → b.pages i ≡ owned pid (start + c)
      → ((k : ℕ) → k < 4096 → b.memory (frame i) k ≡ 0)
      → HoldsBelow q (suc c) b
  HoldsBelow-suc q c i a b holds e le lt unused page zeros p below = elim (Bool-cases (p == c)) [
    | inl last ↦
        let same : p ≡ c = ground arith in
        (
          i,
          lt,
          unused,
          page ∙ ap (λ p. owned pid (start + p)) (sym same),
          λ k small. zeros k small ∙ sym (copied-zero q p k (omega arith)),
        )
    | inr earlier ↦
        let (j, lt', unused', page', bytes) = holds p (ground arith) in
        let (page'', frame') = e.kept j (ap (λ (p : PageInfo). p.used) page') in
        (j, lt', unused', page'' ∙ page', λ k small. ap (λ (f : ℕ → ℕ). f k) frame' ∙ bytes k small)
  ]

  -- A new page for bytes that have not been copied.
  pub zero_page_lem :
      (q c : ℕ) (l : Load)
      → Loading q c l
      → q ≤ 8 * c
      → n + c < apps_pages_cnt
      → start + c < frame 0
      → (l' : Load) × (zero_page pid l ≡ some l') × Loading q (suc c) l' × AtPage c l'
  unfolding zero_page
  zero_page_lem q c l s le lt below =
      let at = s.pageno in
      let (i, lt', unused, page, ready, extends, gives) =
        new_page_lem pid (n + c) (start + c) l.curr_pageno l.mmu s.ready (omega arith) (omega arith)
          lt in
      let before = unused_before i l.mmu s.extends unused in
      let m' = with_page pid l.curr_pageno i l.mmu in
      let cleared = put_page i (λ k. 0) m' in
      let here = page ∙ ap (owned pid) at in
      let above = Extends-put_page l.mmu m' i (λ k. 0) extends unused in
      (
        record l { curr_pageno = l.curr_pageno + 1; ppage_id = i; mmu = cleared },
        rw gives refl,
        record {
          off = s.off;
          blockno = s.blockno;
          pageno = omega (arith, at);
          ready =
              IsReady-le pid (suc (n + c)) (n + suc c) (suc l.curr_pageno) (start + suc c) cleared
                (omega arith) (omega (arith, at)) (put_page-IsReady pid _ _ m' i _ ready);
          extends = Extends-trans m l.mmu cleared s.extends above;
          holds =
              HoldsBelow-suc q c i l.mmu cleared s.holds above le lt' before here
                (λ k small. rw (==_refl (frame i)) refl);
        },
        (lt', here, before),
      )
