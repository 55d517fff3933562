-- ===== src/Loader/Round.antt =====
-- library/elf/elf.c: copying a block of the segment.
use egos.Base.{
  ℕ, suc, ◌+◌, ◌-◌, ◌*◌, ◌/◌, ◌%◌, ◌^◌, ◌≤◌, ◌<◌, ◌≡◌, refl, sym, ap, ◌∙◌, true, false, ◌&&◌, ◌==◌,
  leb, ltb, if◌then◌else◌, arith, Bool-cases, inl, inr, ==_refl,
}
use egos.Memory.{Mmu, frame}
use egos.Loader.{Reader, Load, load_block}
use egos.Loader.Pages.{owned, Extends-put_page, put_page-IsReady, frame_ne, one_page, other_page}
-- The memory that the segment had before the loop, with n pages and its block and page numbers.
use egos.Loader.Segment.{copied, Loading, AtPage}

module _ (reader : Reader) (pid n block start filesz : ℕ) (m : Mmu) where
  abbrev sofar : ℕ → ℕ → ℕ
  sofar q x = copied reader pid n block start filesz m q x

  abbrev Now : ℕ → ℕ → Load → Type 0
  Now q c l = Loading reader pid n block start filesz m q c l

  abbrev Here : ℕ → Load → Type 0
  Here p l = AtPage reader pid n block start filesz m p l

  -- A round copies nothing into the other blocks of the page.
  outside :
      (q k : ℕ)
      → k < 4096
      → ¬ ((4096 * (q / 8) + k) / 512 ≡ q)
      → (512 * q % 4096 ≤ k)
      → 512 * q % 4096 + 512 ≤ k
  outside q k lt ne le = omega (arith, lt, ne, le)

  -- Which bytes a round copies.
  copied-suc :
      (q k : ℕ)
      → k < 4096
      → 512 * q < filesz
      → filesz + 512 < 2 ^ 32
      → let size = if ltb ((512 * q + 512) % 2 ^ 32) filesz then 512 else filesz - 512 * q in
        (if leb (512 * q % 4096) k && ltb k (512 * q % 4096 + size)
          then reader (block + q) (k - 512 * q % 4096)
          else sofar q (4096 * (q / 8) + k))
        ≡ sofar (suc q) (4096 * (q / 8) + k)
  copied-suc q k lt more small =
      let x : ℕ = 4096 * (q / 8) + k in
      elim (Bool-cases (x / 512 == q)) [
        | inl here ↦
            let e : x / 512 ≡ q = ground arith in
            let r : x % 512 ≡ k - 512 * q % 4096 = omega (arith, e, lt) in
            let lo : leb (512 * q % 4096) k ≡ true = ground (arith, e, lt) in
            rw (lo, e, r) (ground (arith, e, lt, more, small))
        | inr other ↦
            let ne : ¬ (x / 512 ≡ q) = ground arith in
            let same : ltb (x / 512) (suc q) ≡ ltb (x / 512) q = ground arith in
            let not_here = outside q k lt ne in rw same (ground (arith, not_here))
      ]

  copied_page :
      (q k off blockno old : ℕ)
      → off ≡ 512 * q
      → blockno ≡ block + q
      → old ≡ sofar q (4096 * (q / 8) + k)
      → k < 4096
      → 512 * q < filesz
      → filesz + 512 < 2 ^ 32
      → let size = if ltb ((off + 512) % 2 ^ 32) filesz then 512 else filesz - off in
        (if leb (off % 4096) k && ltb k (off % 4096 + size)
          then reader blockno (k - off % 4096)
          else old)
        ≡ sofar (suc q) (4096 * (q / 8) + k)
  copied_page q k off blockno old e e' e'' lt more small =
      rw (e, e', e'') (copied-suc q k lt more small)

  -- In the other pages there is nothing new.
  copied_elsewhere :
      (q p k : ℕ)
      → k < 4096
      → (p == q / 8) ≡ false
      → sofar q (4096 * p + k) ≡ sofar (suc q) (4096 * p + k)
  copied_elsewhere q p k lt ne =
      let x : ℕ = 4096 * p + k in
      let other : ¬ (p ≡ q / 8) = ground arith in
      let ne' : ¬ (x / 512 ≡ q) = omega (arith, other, lt) in
      let same : ltb (x / 512) (suc q) ≡ ltb (x / 512) q = ground arith in rw same refl

  -- A round after the allocation of the page.
  pub load_block_lem :
      (q c : ℕ) (l : Load)
      → Now q c l
      → Here (q / 8) l
      → 512 * q < filesz
      → filesz + 512 < 2 ^ 32
      → block + q + 1 < 2 ^ 32
      → Now (suc q) c (load_block reader filesz l) × Here (q / 8) (load_block reader filesz l)
  unfolding load_block
  load_block_lem q c l s (at_lt, at, unused) more small blocks =
      let off = s.off in
      let blockno = s.blockno in
      let size = if ltb ((l.off + 512) % 2 ^ 32) filesz then 512 else filesz - l.off in
      let id = l.ppage_id in
      let page = λ (k : ℕ).
        if leb (l.off % 4096) k && ltb k (l.off % 4096 + size)
        then reader l.curr_blockno (k - l.off % 4096)
        else l.mmu.memory (frame id) k in
      (
        record {
          off = omega (arith, off, more, small);
          blockno = omega (arith, blockno, blocks);
          pageno = s.pageno;
          ready = put_page-IsReady pid _ _ l.mmu id page s.ready;
          extends = Extends-put_page m l.mmu id page s.extends unused;
          holds = λ p lt.
              let (j, lt', unused', owner, bytes) = s.holds p lt in
              elim (Bool-cases (p == q / 8)) [
                | inl here ↦
                    let same : p ≡ q / 8 = ground arith in
                    let owner' = owner ∙ ap (λ p. owned pid (start + p)) same in
                    let alike =
                      one_page pid _ j id l.mmu.pages s.ready.mapped lt' at_lt owner' at in
                    (
                      id,
                      at_lt,
                      unused,
                      at ∙ ap (λ p. owned pid (start + p)) (sym same),
                      λ k below.
                          let old =
                            ap (λ j. l.mmu.memory (frame j) k) (sym alike)
                            ∙ bytes k below
                            ∙ ap (λ p. sofar q (4096 * p + k)) same in
                          let new =
                            copied_page q k l.off l.curr_blockno _ off blockno old below more
                              small in
                          rw (==_refl (frame id))
                            (new ∙ ap (λ p. sofar (suc q) (4096 * p + k)) (sym same)),
                    )
                | inr elsewhere ↦
                    let ne =
                      other_page pid (start + p) (start + q / 8) id j l.mmu.pages owner at
                        (λ e. absurd (ground (arith, e, elsewhere))) in
                    (
                      j,
                      lt',
                      unused',
                      owner,
                      λ k below.
                          rw (frame_ne id j ne)
                            (bytes k below ∙ copied_elsewhere q p k below elsewhere),
                    )
              ];
        },
        (at_lt, at, unused),
      )
