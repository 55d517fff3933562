-- ===== src/FileSystem/Treedisk/Files/Read.antt =====
-- library/file/file1.c: `treedisk_read` refines the read of an array of blocks.
use egos.Base.{
  ℕ, zero, suc, ◌+◌, ◌*◌, ◌/◌, ◌%◌, ◌≤◌, ◌<◌, ◌≡◌, inl, inr, ◌==◌, ◌&&◌, ltb, leb, if◌then◌else◌,
  true, false, arith, refl, Bool-cases,
}
use egos.FileSystem.Block.{Block, n_inodeblocks, uint_mod}
use egos.FileSystem.Run.{ok, fail}
use egos.FileSystem.Store.{InodeStore, IsArray}
use egos.FileSystem.Files.{Files, block_of}
use egos.FileSystem.Treedisk.{treedisk_read, treedisk_write, get_snapshot, read_below, walk}
use egos.FileSystem.Treedisk.Reading.{file_nblocks, nlevels_of-bound}
use egos.FileSystem.Treedisk.Files.{Keys, IsRef, IsLayout, content, block_at}
use egos.FileSystem.Treedisk.Files.Shift.{shift, index_at-shift}
use egos.FileSystem.Treedisk.Files.Refines.{heights, IsFs}
use egos.FileSystem.Treedisk.Files.Correct.{shift-nlevels_of, count_on_disk}

module _ {S : Type 0} {below : InodeStore S} {below_ino : ℕ} (arr : IsArray below below_ino) where
  open arr use {size, contents, read_ok}

  walk-block_at :
      {n : ℕ} {keys : Keys} {levels : ℕ → ℕ} (off ino l m b : ℕ) (s : S)
      → IsLayout n size (contents s) keys levels
      → l ≤ 5
      → IsRef keys ino l m b
      → walk below below_ino off l b s ≡ ok (block_at (contents s) off l b) s
  unfolding walk block_at read_below
  walk-block_at off ino zero m b s lay few (inl hole) = rw hole refl
  walk-block_at off ino zero m b s lay few (inr at) = elim (Bool-cases (b == 0)) [
    | inl hole ↦ rw hole refl
    | inr there ↦ rw (there, read_ok s b (lay.below b _ at)) refl
  ]
  walk-block_at off ino (suc l) m b s lay few (inl hole) = rw hole refl
  walk-block_at off ino (suc l) m b s lay few (inr at) = elim (Bool-cases (b == 0)) [
    | inl hole ↦ rw hole refl
    | inr there ↦
        rw (there, read_ok s b (lay.below b _ at), index_at-shift off l (omega (arith, few)))
          (walk-block_at off ino l (m * 128 + shift off l % 128) _ s lay (omega (arith, few))
            (lay.children b ino l m (shift off l % 128) at (omega arith)))
  ]

  -- The blocks before the inode, if it exists.
  module _ {n room : ℕ} {fs : Files} {s : S} (f : IsFs arr n room fs s) (ino : ℕ) where
    pub known_inode :
        ltb ino (n * 64) ≡ true → leb (n_inodeblocks (contents s 0) * 64 % uint_mod) ino ≡ false
    known_inode h = ground (arith, count_on_disk arr f, f.counted)

    pub unknown_inode :
        ltb ino (n * 64) ≡ false → leb (n_inodeblocks (contents s 0) * 64 % uint_mod) ino ≡ true
    unknown_inode h = ground (arith, count_on_disk arr f, f.counted)

  -- On a disk that holds files, `treedisk_read` changes nothing and returns the block of the
  -- file at the offset; it fails from the file's end on, and for an inode that does not exist.
  pub treedisk_read-block_of :
      (n room ino off : ℕ) (fs : Files) (s : S)
      → IsFs arr n room fs s
      → treedisk_read below below_ino ino off s ≡ (
          if ltb ino (n * 64) && ltb off (fs ino).nblocks
          then ok (block_of (fs ino) off) s
          else fail s)
  unfolding treedisk_read get_snapshot read_below content
  treedisk_read-block_of n room ino off fs s f =
      let super : 0 < size = omega (arith, f.fits) in
      elim (Bool-cases (ltb ino (n * 64))) [
        | inr large ↦ rw (read_ok s 0 super, unknown_inode f ino large, large) refl
        | inl small ↦
            let lt : ino / 64 < n = ground arith in
            let within : 1 + ino / 64 < size = omega (arith, f.fits, lt) in
            let old = f.lengths ino lt in
            elim (Bool-cases (leb (file_nblocks (contents s) ino) off)) [
              | inl beyond ↦
                  let outside : ltb off (fs ino).nblocks ≡ false = ground arith in
                  rw
                    (
                      read_ok s 0 super,
                      known_inode f ino small,
                      read_ok s (1 + ino / 64) within,
                      beyond,
                      small,
                      outside,
                    )
                    refl
              | inr inside ↦
                  let held : ltb off (fs ino).nblocks ≡ true = ground arith in
                  let at : off < file_nblocks (contents s) ino = ground arith in
                  let few = nlevels_of-bound (file_nblocks (contents s) ino) in
                  let reach =
                    shift-nlevels_of (file_nblocks (contents s) ino) off at
                      (omega (arith, old, f.small ino lt)) in
                  let block = f.holds ino off lt in
                  rw
                    (
                      read_ok s 0 super,
                      known_inode f ino small,
                      read_ok s (1 + ino / 64) within,
                      inside,
                      small,
                      held,
                      walk-block_at off ino (heights (contents s) ino) 0 _ s f.opened.layout few
                          (f.opened.layout.roots ino lt),
                      ← block,
                      reach,
                    )
                    refl
            ]
      ]

  -- A write to an inode that does not exist fails and changes nothing.
  pub treedisk_write-refuses :
      (n room ino off : ℕ) (block : Block) (fs : Files) (s : S)
      → IsFs arr n room fs s
      → ltb ino (n * 64) ≡ false
      → treedisk_write below below_ino ino off block s ≡ fail s
  unfolding treedisk_write get_snapshot read_below
  treedisk_write-refuses n room ino off block fs s f large =
      rw (read_ok s 0 (omega (arith, f.fits)), unknown_inode f ino large) refl
