-- ===== src/FileSystem/Treedisk/Files/Refines.antt =====
-- library/file/file1.c: the tree file system keeps files.
use egos.Base.{
  ℕ, ◌+◌, ◌*◌, ◌/◌, ◌%◌, ◌≤◌, ◌<◌, ◌≡◌, inl, inr, ◌==◌, false, arith, refl, sym, ap, ◌∙◌,
  Bool-cases, ==_iff, ==_refl, List, length,
}
use egos.FileSystem.Block.{Block, uint_mod}
use egos.FileSystem.Store.{InodeStore, IsArray}
use egos.FileSystem.Files.{
  Files, block_of, write_block, write_at, block_of-write_block, block_of-write_block_other,
}
use egos.FileSystem.Treedisk.{Snapshot, nlevels_of}
use egos.FileSystem.Treedisk.Reading.{file_nblocks}
use egos.FileSystem.Treedisk.Files.{Keys, IsLayout, content}
use egos.FileSystem.Treedisk.Files.Attach.{ne_of}
use egos.FileSystem.Treedisk.Files.State.{IsOpen}
use egos.FileSystem.Treedisk.Files.Write.{Written}

-- The height of the tree of each inode, by its length.
abbrev pub heights : (ℕ → Block) → ℕ → ℕ
heights d ino = nlevels_of (file_nblocks d ino)

module _ {S : Type 0} {below : InodeStore S} {below_ino : ℕ} (arr : IsArray below below_ino) where
  open arr use {size, contents, put, contents_put}

  -- The disk holds these files in its n inode blocks and the blocks behind them, and `room` blocks
  -- are free.
  pub record IsFs (n room : ℕ) (fs : Files) (s : S) : Type 0 where
    pub keys : Keys
    pub free_blocks : List ℕ
    pub snap : Snapshot
    pub opened : IsOpen arr n keys (heights (contents s)) free_blocks snap s (contents s)
    pub enough : room ≤ length free_blocks
    pub lengths : (i : ℕ) → i / 64 < n → file_nblocks (contents s) i ≡ (fs i).nblocks
    pub small : (i : ℕ) → i / 64 < n → (fs i).nblocks < uint_mod
    pub holds :
        (i o : ℕ) → i / 64 < n → content (contents s) (heights (contents s)) i o ≡ block_of (fs i) o
    pub fits : n < size
    pub counted : n * 64 < uint_mod

  IsLayout-heights :
      {n sz : ℕ} {e : ℕ → Block} {keys : Keys} {levels levels' : ℕ → ℕ}
      → ((i : ℕ) → i / 64 < n → levels' i ≡ levels i)
      → IsLayout n sz e keys levels
      → IsLayout n sz e keys levels'
  IsLayout-heights same s = record {
    roots = λ i lt. rw (same i lt) (s.roots i lt);
    children = s.children;
    above = s.above;
    below = s.below;
  }

  content-heights :
      (e : ℕ → Block) (levels levels' : ℕ → ℕ) (i o : ℕ)
      → levels' i ≡ levels i
      → content e levels' i o ≡ content e levels i o
  unfolding content
  content-heights e levels levels' i o same = rw same refl

  module _ (room : ℕ) {n ino off after cost : ℕ} {block ib : Block} {fs : Files} {e : ℕ → Block}
      {s t : S} (f : IsFs n (cost + room) fs s) (lt : ino / 64 < n) (small : off + 1 < uint_mod)
      (w : Written arr cost n ino off after block ib (heights (contents s)) f.free_blocks e s t)
      (same : (i o : ℕ)
        → i / 64 < n
        → content e (heights (contents s)) i o ≡ content (contents s) (heights (contents s)) i o)
      (longer : ib (2 * (ino % 64) + 1) ≡ (write_block (fs ino) off block).nblocks)
      (kept : (j : ℕ) → (j == 2 * (ino % 64) + 1) ≡ false → ib j ≡ contents s (1 + ino / 64) j)
      (height : after ≡ nlevels_of (write_block (fs ino) off block).nblocks) where
    new_lengths :
        (i : ℕ) → i / 64 < n → file_nblocks (contents t) i ≡ (write_at fs ino off block i).nblocks
    new_lengths i lt' = elim (Bool-cases (i == ino)) [
      | inl here ↦
          let e : i ≡ ino = (==_iff i ino).0 here in
          let odd : (2 * (ino % 64) + 1 == 2 * (ino % 64)) ≡ false = ground arith in
          rw (e, ==_refl ino) (w.words (2 * (ino % 64) + 1) odd ∙ longer)
      | inr other ↦ elim (Bool-cases (1 + i / 64 == 1 + ino / 64)) [
        | inl near ↦
            let e : 1 + i / 64 ≡ 1 + ino / 64 = (==_iff _ _).0 near in
            let odd : (2 * (i % 64) + 1 == 2 * (ino % 64)) ≡ false = ground arith in
            let apart : (2 * (i % 64) + 1 == 2 * (ino % 64) + 1) ≡ false = ground arith in
            let old = f.lengths i lt' in
            rw other
              (rw e (w.words (2 * (i % 64) + 1) odd ∙ kept (2 * (i % 64) + 1) apart) ∙ rw e at old)
        | inr far ↦ rw other (
            ap (λ (b : Block). b (2 * (i % 64) + 1))
              (w.inodes (1 + i / 64) (omega arith) (omega (arith, lt')) λ e. absurd (ground arith))
            ∙ f.lengths i lt')
      ]
    ]

    new_heights : (i : ℕ) → i / 64 < n → heights (contents t) i ≡ w.levels i
    new_heights i lt' = elim (Bool-cases (i == ino)) [
      | inl here ↦
          let e : i ≡ ino = (==_iff i ino).0 here in
          let new = new_lengths ino lt in
          rw (e, w.height, height) (ap nlevels_of (rw (==_refl ino) at new))
      | inr other ↦
          let new = new_lengths i lt' in
          rw (w.heights i other) (ap nlevels_of ((rw other at new) ∙ sym (f.lengths i lt')))
    ]

    write_small : (i : ℕ) → i / 64 < n → (write_at fs ino off block i).nblocks < uint_mod
    unfolding write_block
    write_small i lt' = elim (Bool-cases (i == ino)) [
      | inl here ↦ rw here (ground (arith, f.small ino lt, small))
      | inr other ↦ rw other (f.small i lt')
    ]

    new_blocks :
        (i o : ℕ)
        → i / 64 < n
        → content (contents t) w.levels i o ≡ block_of (write_at fs ino off block i) o
    new_blocks i o lt' = elim (Bool-cases (i == ino)) [
      | inl here ↦
          let e : i ≡ ino = (==_iff i ino).0 here in
          elim (Bool-cases (o == off)) [
            | inl there ↦
                let e' : o ≡ off = (==_iff o off).0 there in
                rw (e, e', ==_refl ino) (w.written ∙ sym (block_of-write_block (fs ino) off block))
            | inr elsewhere ↦
                let old =
                  w.others ino o lt (λ _ there. ne_of o off elsewhere there)
                  ∙ same ino o lt
                  ∙ f.holds ino o lt in
                rw (e, ==_refl ino)
                  (old ∙ sym (block_of-write_block_other (fs ino) off o block elsewhere))
          ]
      | inr other ↦
          rw other
            (w.others i o lt' (λ here _. ne_of i ino other here) ∙ same i o lt' ∙ f.holds i o lt')
    ]

    pub Written-IsFs : IsFs n room (write_at fs ino off block) t
    Written-IsFs = record {
      keys = w.keys;
      free_blocks = w.rest;
      snap = w.snap;
      opened = record {
        layout = IsLayout-heights new_heights w.opened.layout;
        free = w.opened.free;
        apart = w.opened.apart;
        count = w.opened.count;
      };
      enough = omega (arith, w.left, f.enough);
      lengths = new_lengths;
      small = write_small;
      holds = λ i o lt'.
          content-heights (contents t) w.levels (heights (contents t)) i o (new_heights i lt')
          ∙ new_blocks i o lt';
      fits = f.fits;
      counted = f.counted;
    }
