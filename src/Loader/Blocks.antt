-- ===== src/Loader/Blocks.antt =====
-- library/elf/elf.c: the loops of a segment end, and what is in the pages then.
use egos.Base.{
  ℕ, zero, suc, ◌+◌, ◌-◌, ◌*◌, ◌/◌, ◌%◌, ◌^◌, ◌≤◌, ◌<◌, ◌≡◌, ◌≢◌, refl, ap, ◌∙◌, subst, true, false,
  ◌==◌, ltb, some, if◌then◌else◌, arith, Bool-cases, inl, inr,
}
use egos.Memory.{Mmu, apps_pages_cnt, frame}
use egos.Loader.{Reader, Load, zero_page, load_block, load_blocks, load_zeros}
use egos.Loader.Segment.{Loading, AtPage, zero_page_lem}
use egos.Loader.Round.{load_block_lem}

module _ (reader : Reader) (pid n block start filesz : ℕ) (m : Mmu) (small : filesz + 512 < 2 ^ 32)
    (blocks : block + filesz / 512 + 2 < 2 ^ 32) where
  abbrev Now : ℕ → ℕ → Load → Type 0
  Now q c l = Loading reader pid n block start filesz m q c l

  abbrev Here : ℕ → Load → Type 0
  Here p l = AtPage reader pid n block start filesz m p l

  -- All blocks have been copied.
  abbrev pub Copied : Load → Type 0
  Copied l =
      (q : ℕ) × (c : ℕ) × Now q c l
      × (c ≡ (q + 7) / 8)
      × (filesz ≤ 512 * q)
      × (512 * q < filesz + 512)

  module _ (room : n + (filesz + 4095) / 4096 ≤ apps_pages_cnt)
      (below : start + (filesz + 4095) / 4096 ≤ frame 0) where
    -- A round of the loop, with the page that it may take.
    round :
        (q c : ℕ) (l : Load)
        → Now q c l
        → c ≡ (q + 7) / 8
        → (q % 8 ≢ 0 → Here (q / 8) l)
        → 512 * q < filesz
        → (l' : Load) × ((if l.off % 4096 == 0 then zero_page pid l else some l) ≡ some l')
          × Now (suc q) ((suc q + 7) / 8) (load_block reader filesz l')
          × Here (q / 8) (load_block reader filesz l')
    round q c l s e at more = elim (Bool-cases (q % 8 == 0)) [
      | inl new ↦
          let zero_off : (l.off % 4096 == 0) ≡ true =
            ap (λ off. off % 4096 == 0) s.off ∙ ground (arith, new) in
          let page : c ≡ q / 8 = ground (arith, new, e) in
          let next : suc c ≡ (suc q + 7) / 8 = ground (arith, new, e) in
          let (l', gives, s', at') =
            zero_page_lem reader pid n block start filesz m q c l s (ground (arith, new, e))
              (ground (arith, new, e, more, room)) (ground (arith, new, e, more, below)) in
          let (s'', at'') =
            load_block_lem reader pid n block start filesz m q (suc c) l' s'
              (subst (λ p. Here p l') page at') more small (omega (arith, blocks, more)) in
          rw zero_off
            (l', gives, subst (λ c. Now (suc q) c (load_block reader filesz l')) next s'', at'')
      | inr same ↦
          let within : (l.off % 4096 == 0) ≡ false =
            ap (λ off. off % 4096 == 0) s.off ∙ ground (arith, same) in
          let next : c ≡ (suc q + 7) / 8 = ground (arith, same, e) in
          let (s', at') =
            load_block_lem reader pid n block start filesz m q c l s (at (ground (arith, same)))
              more small (omega (arith, blocks, more)) in
          rw within (l, refl, subst (λ c. Now (suc q) c (load_block reader filesz l)) next s', at')
    ]

    load_blocks-ends :
        (fuel : ℕ) (l : Load)
        → ltb l.off filesz ≡ false
        → load_blocks (suc fuel) reader pid filesz l ≡ some l
    unfolding load_blocks
    load_blocks-ends fuel l test = rw (test, load_blocks) refl

    load_blocks-next :
        (fuel : ℕ) (l l' : Load)
        → ltb l.off filesz ≡ true
        → (if l.off % 4096 == 0 then zero_page pid l else some l) ≡ some l'
        → load_blocks (suc fuel) reader pid filesz l
          ≡ load_blocks fuel reader pid filesz (load_block reader filesz l')
    unfolding load_blocks
    load_blocks-next fuel l l' test gives = rw (test, load_blocks) (rw gives refl)

    pub load_blocks_lem :
        (fuel q c : ℕ) (l : Load)
        → Now q c l
        → c ≡ (q + 7) / 8
        → (q % 8 ≢ 0 → Here (q / 8) l)
        → 512 * q < filesz + 512
        → (filesz + 511) / 512 < fuel + q
        → (l' : Load) × (load_blocks fuel reader pid filesz l ≡ some l') × Copied l'
    load_blocks_lem zero q c l s e at last enough = absurd (omega (arith, last, enough))
    load_blocks_lem (suc fuel) q c l s e at last enough = elim (Bool-cases (ltb (512 * q) filesz)) [
      | inr ends ↦
          let test : ltb l.off filesz ≡ false = ap (λ off. ltb off filesz) s.off ∙ ends in
          rw (load_blocks-ends fuel l test) (l, refl, (q, c, s, e, ground (arith, ends), last))
      | inl goes ↦
          let more : 512 * q < filesz = ground arith in
          let test : ltb l.off filesz ≡ true = ap (λ off. ltb off filesz) s.off ∙ goes in
          let (l', gives, s', at') = round q c l s e at more in
          rw (load_blocks-next fuel l l' test gives) (
            load_blocks_lem fuel (suc q) ((suc q + 7) / 8) (load_block reader filesz l') s' refl
              (λ within.
                subst (λ p. Here p (load_block reader filesz l')) (omega (arith, within)) at')
              (omega (arith, more)) (omega (arith, enough)))
    ]

  load_zeros-ends :
      (fuel end : ℕ) (l : Load)
      → ltb l.curr_pageno end ≡ false
      → load_zeros (suc fuel) pid end l ≡ some l
  unfolding load_zeros
  load_zeros-ends fuel end l test = rw (test, load_zeros) refl

  load_zeros-next :
      (fuel end : ℕ) (l l' : Load)
      → ltb l.curr_pageno end ≡ true
      → zero_page pid l ≡ some l'
      → load_zeros (suc fuel) pid end l ≡ load_zeros fuel pid end l'
  unfolding load_zeros
  load_zeros-next fuel end l l' test gives = rw (test, load_zeros) (rw gives refl)

  -- The pages for the bytes of the segment that are not in the file.
  pub load_zeros_lem :
      (fuel end q c : ℕ) (l : Load)
      → Now q c l
      → q ≤ 8 * c
      → end ≤ frame 0
      → n + (end - start) ≤ apps_pages_cnt
      → end ≤ fuel + (start + c)
      → (l' : Load) × (load_zeros (suc fuel) pid end l ≡ some l')
        × Now q (if ltb (start + c) end then end - start else c) l'
  load_zeros_lem zero end q c l s le low room enough =
      let ends : ltb (start + c) end ≡ false = ground (arith, enough) in
      let test : ltb l.curr_pageno end ≡ false = ap (λ p. ltb p end) s.pageno ∙ ends in
      rw (load_zeros-ends zero end l test, ends) (l, refl, s)
  load_zeros_lem (suc fuel) end q c l s le low room enough =
      elim (Bool-cases (ltb (start + c) end)) [
        | inr ends ↦
            let test : ltb l.curr_pageno end ≡ false = ap (λ p. ltb p end) s.pageno ∙ ends in
            rw (load_zeros-ends (suc fuel) end l test, ends) (l, refl, s)
        | inl goes ↦
            let test : ltb l.curr_pageno end ≡ true = ap (λ p. ltb p end) s.pageno ∙ goes in
            let (l', gives, s', at') =
              zero_page_lem reader pid n block start filesz m q c l s le
                (ground (arith, goes, room)) (ground (arith, goes, low)) in
            let (l'', gives', s'') =
              load_zeros_lem fuel end q (suc c) l' s' (omega (arith, le)) low room
                (omega (arith, enough)) in
            let same : (if ltb (start + suc c) end then end - start else suc c)
                ≡ (if ltb (start + c) end then end - start else c) =
              ground (arith, goes) in
            (
              l'',
              load_zeros-next (suc fuel) end l l' test gives ∙ gives',
              subst (λ c. Now q c l'') same s'',
            )
      ]
