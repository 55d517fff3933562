-- ===== src/Loader/Program.antt =====
-- library/elf/elf.c: the segments of a program, and where the process finds their bytes.
use egos.Base.{
  ℕ, suc, ◌+◌, ◌-◌, ◌*◌, ◌/◌, ◌%◌, ◌^◌, ◌≤◌, ◌<◌, ◌≡◌, refl, ◌∙◌, subst, Bool, false, ltb, some,
  if◌then◌else◌, arith,
}
use egos.Memory.{Mmu, apps_pages_cnt, frame}
use egos.Loader.{Reader, ProgramHeader, Load, ram_start, load_blocks, load_fuel, load_segment}
use egos.Loader.Pages.{IsReady, IsReady-le, Extends, Extends-refl, HoldsPage}
use egos.Loader.Segment.{Loading, copied}
use egos.Loader.Blocks.{load_blocks_lem, load_zeros_lem}

-- A byte of the file, and a byte of the segment: what the file does not have is 0.
abbrev pub file_byte : Reader → ℕ → ℕ
file_byte reader x = reader (x / 512) (x % 512)

abbrev pub segment_byte : Reader → ProgramHeader → ℕ → ℕ
segment_byte reader ph x = if ltb x ph.p_filesz then file_byte reader (ph.p_offset + x) else 0

abbrev pub start_page : ProgramHeader → ℕ
start_page ph = ph.p_vaddr / 4096

-- The pages that a segment gets: for its bytes in the file, and to the last whole page of its
-- memory.
abbrev pub page_count : ProgramHeader → ℕ
page_count ph =
    let contents = (ph.p_filesz + 4095) / 4096 in
    let end = (ph.p_vaddr + ph.p_memsz) / 4096 in
    if ltb (start_page ph + contents) end then end - start_page ph else contents

abbrev pub is_skipped : ProgramHeader → Bool
is_skipped ph = ltb ph.p_vaddr ram_start

-- A segment starts with a page and a block.
pub record IsSegment (ph : ProgramHeader) : Type 0 where
  pub page_aligned : ph.p_vaddr % 4096 ≡ 0
  pub block_aligned : ph.p_offset % 512 ≡ 0
  pub offset_lt : ph.p_offset < 2 ^ 32
  pub end_lt : ph.p_vaddr + ph.p_memsz < 2 ^ 32

abbrev pub IsLoaded : ℕ → Reader → ProgramHeader → Mmu → Type 0
IsLoaded pid reader ph m =
    (p : ℕ)
    → p < page_count ph
    → HoldsPage pid m (start_page ph + p) (λ k. segment_byte reader ph (4096 * p + k))

module _ (reader : Reader) (pid n from : ℕ) (ph : ProgramHeader) (m : Mmu)
    (ready : IsReady pid n from m) (s : IsSegment ph) (after : from ≤ start_page ph)
    (room : n + page_count ph ≤ apps_pages_cnt)
    (low : start_page ph + page_count ph ≤ frame 0) where
  -- The last block may end beyond the segment.
  copied_byte :
      (q x : ℕ)
      → ph.p_filesz ≤ 512 * q
      → copied reader pid n (ph.p_offset / 512) (start_page ph) ph.p_filesz m q x
        ≡ segment_byte reader ph x
  copied_byte q x le =
      let aligned = s.block_aligned in
      let block : (ph.p_offset + x) / 512 ≡ ph.p_offset / 512 + x / 512 = omega (arith, aligned) in
      let byte : (ph.p_offset + x) % 512 ≡ x % 512 = omega (arith, aligned) in
      rw (block, byte) (ground (arith, le))

  abbrev begun : Load
  begun = record {
    off = 0;
    curr_pageno = start_page ph;
    curr_blockno = ph.p_offset / 512;
    ppage_id = 0;
    mmu = m;
  }

  abbrev contents : ℕ
  contents = (ph.p_filesz + 4095) / 4096

  abbrev end : ℕ
  end = (ph.p_vaddr + ph.p_memsz) / 4096

  abbrev Now : ℕ → ℕ → Load → Type 0
  Now q c l = Loading reader pid n (ph.p_offset / 512) (start_page ph) ph.p_filesz m q c l

  none_yet : Now 0 0 begun
  none_yet = record {
    off = refl;
    blockno = omega arith;
    pageno = omega arith;
    ready =
        IsReady-le pid n (n + 0) from (start_page ph + 0) m (omega arith) (omega (arith, after))
          ready;
    extends = Extends-refl m;
    holds = λ p lt. absurd (omega (arith, lt));
  }

  fits : n + contents ≤ apps_pages_cnt
  fits = ground (arith, room)

  under : start_page ph + contents ≤ frame 0
  under = ground (arith, low)

  small : ph.p_filesz + 512 < 2 ^ 32
  small = let u = under in omega (arith, u)

  blocks : ph.p_offset / 512 + ph.p_filesz / 512 + 2 < 2 ^ 32
  blocks = let b = small in let lt = s.offset_lt in omega (arith, b, lt)

  -- The blocks of the segment are in pages.
  blocks_loaded :
      (fuel : ℕ)
      → ph.p_filesz ≤ fuel
      → (l : Load) × (q : ℕ) × (load_blocks (suc fuel) reader pid ph.p_filesz begun ≡ some l)
        × Now q contents l
        × (ph.p_filesz ≤ 512 * q)
        × (q ≤ 8 * contents)
  blocks_loaded fuel enough =
      let (l, gives, (q, c, done, at, le, lt)) =
        load_blocks_lem reader pid n (ph.p_offset / 512) (start_page ph) ph.p_filesz m small blocks
          fits under (suc fuel) 0 0 begun none_yet refl (λ ne. absurd (ne refl)) (omega arith)
          (omega (arith, enough)) in
      let all : c ≡ contents = omega (arith, at, le, lt) in
      (l, q, gives, subst (λ c. Now q c l) all done, le, omega (arith, le, lt))

  end_room : n + (end - start_page ph) ≤ apps_pages_cnt
  end_room = ground (arith, room)

  end_low : end ≤ frame 0
  end_low = ground (arith, low)

  -- A page for each part of the segment.
  loaded :
      (q : ℕ) (l : Load)
      → Now q (page_count ph) l
      → ph.p_filesz ≤ 512 * q
      → IsLoaded pid reader ph l.mmu
  loaded q l done le p lt =
      let (i, lt', unused, page, bytes) = done.holds p lt in
      (i, lt', page, λ k below. bytes k below ∙ copied_byte q (4096 * p + k) le)

  pub load_segment_lem :
      is_skipped ph ≡ false
      → (m' : Mmu) × (load_segment reader pid ph m ≡ some m')
        × IsReady pid (n + page_count ph) (start_page ph + page_count ph) m'
        × Extends m m'
        × IsLoaded pid reader ph m'
  unfolding load_segment
  load_segment_lem loads =
      let fuel = ph.p_filesz + ph.p_memsz + 1 in
      let (l, q, gives, done, le, le') = blocks_loaded fuel (omega arith) in
      let (l', gives', done') =
        load_zeros_lem reader pid n (ph.p_offset / 512) (start_page ph) ph.p_filesz m small blocks
          fuel end q contents l done le' end_low end_room (omega arith) in
      let no_wrap : (ph.p_vaddr + ph.p_memsz) % 2 ^ 32 ≡ ph.p_vaddr + ph.p_memsz =
        let lt = s.end_lt in omega (arith, lt) in
      let enough : load_fuel ph ≡ suc fuel = omega arith in
      (
        l'.mmu,
        rw (loads, no_wrap, enough, gives) (rw gives' refl),
        done'.ready,
        done'.extends,
        loaded q l' done' le,
      )
