-- ===== src/FileSystem/Treedisk/Files/Fresh.antt =====
-- library/file/file1.c: after `treedisk_create` the disk holds empty files.
use egos.Base.{
  ℕ, zero, suc, ◌+◌, ◌-◌, ◌*◌, ◌/◌, ◌≤◌, ◌<◌, ◌≡◌, inl, inr, none, ◌==◌, true, false, arith, refl,
  sym, subst, has, List, [], ◌∷◌, ltb, Bool-cases, length,
}
use egos.FileSystem.Block.{null_block, n_inodeblocks, free_list, uint_mod}
use egos.FileSystem.Run.{Returns, Returns-weaken}
use egos.FileSystem.Store.{InodeStore, IsArray}
use egos.FileSystem.Files.{no_files, block_of}
use egos.FileSystem.Treedisk.Files.Shift.{shift}
use egos.FileSystem.Treedisk.Files.State.{some-none}
use egos.FileSystem.Treedisk.{nlevels_of, treedisk_create}
use egos.FileSystem.Treedisk.Setup.{down, down-Distinct, down-InRange}
use egos.FileSystem.Treedisk.FreeList.{FreeChain, Distinct, InRange, has-InRange}
use egos.FileSystem.Treedisk.Create.{blocks_for, IsFresh, treedisk_create-IsFresh}
use egos.FileSystem.Treedisk.Files.{content}
use egos.FileSystem.Treedisk.Files.Attach.{block_at-hole}
use egos.FileSystem.Treedisk.Files.Refines.{IsFs}

length-down : (lo n : ℕ) → length (down lo n) ≡ n
length-down lo zero = refl
length-down lo (suc n) = omega (arith, length-down lo n)

InRange-below : (l lo size : ℕ) (xs : List ℕ) → l ≤ lo → InRange lo size xs → InRange l size xs
InRange-below l lo size [] le range = tt
InRange-below l lo size (x ∷ xs) le (low, high, rest) =
    (omega (arith, le, low), high, InRange-below l lo size xs le rest)

InRange-lt : (b n size : ℕ) (xs : List ℕ) → InRange (n + 1) size xs → has b xs ≡ true → n < b
InRange-lt b n size xs range h = elim (Bool-cases (ltb n b)) [
  | inl behind ↦ ground arith
  | inr before ↦ absurd (ground (arith, has-InRange b (n + 1) size xs range (ground arith)))
]

module _ {S : Type 0} {below : InodeStore S} {below_ino : ℕ} (arr : IsArray below below_ino) where
  open arr use {size, contents}

  -- All inodes are empty, and these blocks are free.
  pub empty-IsFs :
      (n : ℕ) (xs : List ℕ) (t : S)
      → n < size
      → n * 64 < uint_mod
      → n_inodeblocks (contents t 0) ≡ n
      → FreeChain (contents t) (free_list (contents t 0)) xs
      → Distinct xs
      → InRange (n + 1) size xs
      → ((i : ℕ) → 0 < i → i ≤ n → contents t i ≡ null_block)
      → IsFs arr n (length xs) no_files t
  unfolding content block_of
  empty-IsFs n xs t fits counted count chain distinct range inodes =
      let null : (i : ℕ) → i / 64 < n → contents t (1 + i / 64) ≡ null_block =
        λ i lt. inodes (1 + i / 64) (omega arith) (omega (arith, lt)) in
      record {
        keys = λ b. none;
        free_blocks = xs;
        snap = record {
          superblock = contents t 0;
          inodeblock = null_block;
          inode_blockno = 0;
          inode = 0;
        };
        opened = record {
          layout = record {
            roots = λ i lt. inl (rw (null i lt) refl);
            children = λ b i l k j at. absurd (some-none (sym at));
            above = λ b at h. absurd (some-none (sym h));
            below = λ b at h. absurd (some-none (sym h));
          };
          free = record {
            chain = chain;
            on_disk = refl;
            distinct = distinct;
            in_range = InRange-below 1 (n + 1) size xs (omega arith) range;
          };
          apart = λ b h. (refl, InRange-lt b n size xs range h);
          count = count;
        };
        enough = omega arith;
        lengths = λ i lt. rw (null i lt) refl;
        small = λ i lt. omega arith;
        holds = λ i o lt.
            let none_inside : ltb o 0 ≡ false = ground arith in
            elim (Bool-cases (shift o (nlevels_of 0) == 0)) [
              | inl near ↦
                  rw (null i lt, near, none_inside) (block_at-hole (contents t) o (nlevels_of 0))
              | inr far ↦ rw (null i lt, far, none_inside) refl
            ];
        fits = fits;
        counted = counted;
      }

  pub IsFresh-IsFs :
      (n : ℕ) (t : S)
      → n < size
      → n * 64 < uint_mod
      → IsFresh arr n t
      → IsFs arr n (length (down (n + 1) (size - (n + 1)))) no_files t
  IsFresh-IsFs n t fits counted fresh =
      empty-IsFs n _ t fits counted fresh.inodeblocks fresh.free
        (down-Distinct (n + 1) (size - (n + 1)))
        (down-InRange (n + 1) (n + 1) size (size - (n + 1)) (omega arith) (omega (arith, fits)))
        fresh.inodes

  pub treedisk_create-IsFs :
      (ninodes : ℕ) (s : S)
      → n_inodeblocks (contents s 0) ≡ 0
      → blocks_for ninodes + 2 ≤ size
      → size < uint_mod
      → Returns
          (λ _ t. IsFs arr (blocks_for ninodes) (size - (blocks_for ninodes + 1)) no_files t)
          (treedisk_create below below_ino ninodes s)
  treedisk_create-IsFs ninodes s blank fits small =
      Returns-weaken (treedisk_create-IsFresh arr ninodes s blank fits small) λ _ t fresh.
        let free = size - (blocks_for ninodes + 1) in
        subst (λ room. IsFs arr (blocks_for ninodes) room no_files t)
          (length-down (blocks_for ninodes + 1) free)
          (IsFresh-IsFs (blocks_for ninodes) t (omega (arith, fits)) (omega arith) fresh)
