-- ===== src/FileSystem/Treedisk/Files/Correct.antt =====
-- library/file/file1.c: `treedisk_write` refines the write to an array of blocks.
use egos.Base.{
  ℕ, ◌+◌, ◌-◌, ◌*◌, ◌/◌, ◌%◌, ◌≤◌, ◌<◌, ◌≡◌, inl, inr, some, ◌==◌, ltb, leb, true, false, arith,
  refl, sym, ◌∙◌, Bool-cases, ==_iff, ==_refl, update,
}
use egos.FileSystem.Block.{Block, n_inodeblocks, uint_mod}
use egos.FileSystem.Run.{Returns, Returns-weaken}
use egos.FileSystem.Store.{InodeStore, IsArray}
use egos.FileSystem.Files.{
  Files, write_block, write_at, nblocks-write_block_beyond, nblocks-write_block_inside,
}
use egos.FileSystem.Treedisk.{
  Snapshot, nlevels_of, levels_for, treedisk_write, get_snapshot, read_below,
}
use egos.FileSystem.Treedisk.Levels.{levels_for-bound}
use egos.FileSystem.Treedisk.Reading.{file_root, file_nblocks, nlevels_of-bound}
use egos.FileSystem.Treedisk.Files.{Key, IsLayout, content}
use egos.FileSystem.Treedisk.Files.Shift.{shift, shift-levels_for, levels_for_mono, shift_mono}
use egos.FileSystem.Treedisk.Files.Store.{rooted-IsLayout, rooted-content}
use egos.FileSystem.Treedisk.Files.State.{IsOpen}
use egos.FileSystem.Treedisk.Files.Grow.{over}
use egos.FileSystem.Treedisk.Files.WriteLevels.{write_levels-dirty, write_levels-clean}
use egos.FileSystem.Treedisk.Files.Refines.{heights, IsFs, Written-IsFs}

-- The tree of a file reaches its blocks.
pub shift-nlevels_of :
    (nblocks off : ℕ) → off < nblocks → nblocks < uint_mod → shift off (nlevels_of nblocks) ≡ 0
unfolding nlevels_of
shift-nlevels_of nblocks off inside small =
    let some_blocks : ltb 0 nblocks ≡ true = ground arith in
    let last = shift-levels_for (nblocks - 1) (omega (arith, small)) in
    rw some_blocks (
      omega (
        arith,
        last,
        shift_mono off (nblocks - 1) (levels_for (nblocks - 1)) (omega (arith, inside)),
      ))

nlevels_of-levels_for : (off : ℕ) → nlevels_of (off + 1) ≡ levels_for off
unfolding nlevels_of
nlevels_of-levels_for off =
    let some_blocks : ltb 0 (off + 1) ≡ true = ground arith in
    let before : off + 1 - 1 ≡ off = omega arith in rw (some_blocks, before) refl

nlevels_of-le : (nblocks off : ℕ) → nblocks ≤ off → nlevels_of nblocks ≤ levels_for off
unfolding nlevels_of
nlevels_of-le nblocks off le = ground (arith, levels_for_mono (nblocks - 1) off (omega (arith, le)))

module _ {S : Type 0} {below : InodeStore S} {below_ino : ℕ} (arr : IsArray below below_ino) where
  open arr use {size, contents, put, contents_put, read_ok}

  abbrev snapshot_at : ℕ → S → Snapshot
  snapshot_at ino s = record {
    superblock = contents s 0;
    inodeblock = contents s (1 + ino / 64);
    inode_blockno = 1 + ino / 64;
    inode = ino % 64;
  }

  abbrev longer_at : ℕ → ℕ → S → Snapshot
  longer_at ino off s = record (snapshot_at ino s) {
    inodeblock = update (contents s (1 + ino / 64)) (2 * (ino % 64) + 1) ((off + 1) % uint_mod);
  }

  module _ {n room : ℕ} {fs : Files} {s : S} (f : IsFs arr n room fs s) where
    pub count_on_disk : n_inodeblocks (contents s 0) ≡ n
    count_on_disk = rw f.opened.free.on_disk f.opened.count

    opened_at :
        (snap : Snapshot) (e : ℕ → Block)
        → snap.superblock ≡ contents s 0
        → IsLayout n size e f.keys (heights (contents s))
        → IsOpen arr n f.keys (heights (contents s)) f.free_blocks snap s e
    opened_at snap e same layout =
        let same' : snap.superblock ≡ f.snap.superblock = same ∙ f.opened.free.on_disk in
        record {
          layout = layout;
          free = record {
            chain = rw same' f.opened.free.chain;
            on_disk = sym same;
            distinct = f.opened.free.distinct;
            in_range = f.opened.free.in_range;
          };
          apart = f.opened.apart;
          count = rw same' f.opened.count;
        }

    module _ (ino off : ℕ) (lt : ino / 64 < n) where
      longer_root :
          (i : ℕ)
          → i / 64 < n
          → file_root (over arr ino (longer_at ino off s) s) i ≡ file_root (contents s) i
      longer_root i lt' = elim (Bool-cases (1 + i / 64 == 1 + ino / 64)) [
        | inl near ↦
            let e : 1 + i / 64 ≡ 1 + ino / 64 = (==_iff _ _).0 near in
            let even : (2 * (i % 64) == 2 * (ino % 64) + 1) ≡ false = ground arith in
            rw (e, ==_refl (1 + ino / 64), even) refl
        | inr far ↦ rw far refl
      ]

      longer_keyed :
          (b : ℕ) (at : Key)
          → f.keys b ≡ some at
          → over arr ino (longer_at ino off s) s b ≡ contents s b
      longer_keyed b at h =
          let above = f.opened.layout.above b at h in
          let far : (b == 1 + ino / 64) ≡ false = ground arith in rw far refl

      longer-IsLayout :
          IsLayout n size (over arr ino (longer_at ino off s) s) f.keys (heights (contents s))
      longer-IsLayout = rooted-IsLayout f.opened.layout _ longer_root longer_keyed

      longer_content :
          (i o : ℕ)
          → i / 64 < n
          → content (over arr ino (longer_at ino off s) s) (heights (contents s)) i o
            ≡ content (contents s) (heights (contents s)) i o
      longer_content = rooted-content f.opened.layout _ longer_root longer_keyed

  -- Let the disk hold files, of which this inode is one, with 11 free blocks or more. Then a
  -- `treedisk_write` below offset 2^32 - 1 succeeds, and the disk holds the files after the
  -- write, with at most 11 free blocks less: the file has the block at the offset and reaches
  -- behind it, and no other block of any file has changed.
  pub treedisk_write-IsFs :
      (n room ino off : ℕ) (block : Block) (fs : Files) (s : S)
      → IsFs arr n (11 + room) fs s
      → ino / 64 < n
      → off + 1 < uint_mod
      → Returns
          (λ _ t. IsFs arr n room (write_at fs ino off block) t)
          (treedisk_write below below_ino ino off block s)
  unfolding treedisk_write get_snapshot read_below
  treedisk_write-IsFs n room ino off block fs s f lt small =
      let known : leb (n_inodeblocks (contents s 0) * 64 % uint_mod) ino ≡ false =
        ground (arith, count_on_disk f, f.counted, lt) in
      let within : 1 + ino / 64 < size = omega (arith, f.fits, lt) in
      rw (read_ok s 0 (omega (arith, within)), known, read_ok s (1 + ino / 64) within)
        (elim (Bool-cases (leb (file_nblocks (contents s) ino) off)) [
          | inl beyond ↦
              let length : (write_block (fs ino) off block).nblocks ≡ off + 1 =
                nblocks-write_block_beyond (fs ino) off block
                  (ground (arith, beyond, f.lengths ino lt)) in
              rw beyond (
                Returns-weaken
                  (write_levels-dirty arr ino off block lt f.fits (heights (contents s)) _
                    (longer_at ino off s) s
                    (λ e. absurd (omega (arith, rw (==_refl (2 * (ino % 64) + 1)) at e, small)))
                    (refl, refl) refl (levels_for off) (nlevels_of-le _ off (ground arith))
                    (levels_for-bound off) (shift-levels_for off (omega (arith, small)))
                    (omega (arith, f.enough))
                    (opened_at f (longer_at ino off s) _ refl (longer-IsLayout f ino off lt)))
                  λ _ t w.
                    Written-IsFs arr room f lt small w (longer_content f ino off lt)
                      (rw (==_refl (2 * (ino % 64) + 1), length) (omega (arith, small)))
                      (λ j other. rw other refl) (rw length (sym (nlevels_of-levels_for off))))
          | inr inside ↦
              let at : off < file_nblocks (contents s) ino = ground arith in
              let old = f.lengths ino lt in
              let length : (write_block (fs ino) off block).nblocks
                  ≡ file_nblocks (contents s) ino =
                nblocks-write_block_inside (fs ino) off block (omega (arith, at, old)) ∙ sym old in
              rw inside (
                Returns-weaken
                  (write_levels-clean arr ino off block lt f.fits (heights (contents s)) _
                    (snapshot_at ino s) s (λ e. absurd (omega (arith, e, at))) (refl, refl) refl
                    (nlevels_of-bound _)
                    (shift-nlevels_of _ off at (omega (arith, old, f.small ino lt)))
                    (omega (arith, f.enough)) refl
                    (opened_at f (snapshot_at ino s) _ refl f.opened.layout))
                  λ _ t w.
                    Written-IsFs arr room f lt small w (λ i o _. refl) (sym length) (λ _ _. refl)
                      (rw length refl))
        ])
