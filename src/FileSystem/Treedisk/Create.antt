-- ===== src/FileSystem/Treedisk/Create.antt =====
-- library/file/file1.c: `treedisk_create` formats the inode that holds the file system.
use egos.Base.{
  ℕ, zero, suc, ◌+◌, ◌-◌, ◌/◌, ◌%◌, ◌≤◌, ◌<◌, ◌≡◌, ◌≢◌, refl, arith, ltb, le→ltb, lt→ltb, ◌&&◌, leb,
  if◌then◌else◌, update, ne→==,
}
use egos.FileSystem.Block.{null_block, n_inodeblocks, free_list, inodes_per_block, uint_mod}
use egos.FileSystem.Run.{Returns, returns, Returns-weaken, Returns-and_then, fail, ok}
use egos.FileSystem.Store.{InodeStore, IsArray}
use egos.FileSystem.Treedisk.{clear_inodeblocks, read_below, treedisk_create}
use egos.FileSystem.Treedisk.Access.{write_rule}
use egos.FileSystem.Treedisk.FreeList.{FreeChain, FreeChain-same}
use egos.FileSystem.Treedisk.Setup.{down, Listed, setup_freelist-down, le-of_has-down}

-- Blocks needed for so many inodes.
abbrev pub blocks_for : ℕ → ℕ
blocks_for ninodes = (ninodes + inodes_per_block - 1) % uint_mod / inodes_per_block

module _ {S : Type 0} {below : InodeStore S} {ino : ℕ} (arr : IsArray below ino) where
  open arr use {size, contents, put, contents_put, getsize_ok, read_ok}

  -- A fresh file system with so many inode blocks: all inodes are empty, and every block that is
  -- neither the superblock nor an inode block is free.
  pub record IsFresh (blocks : ℕ) (t : S) : Type 0 where
    pub inodeblocks : n_inodeblocks (contents t 0) ≡ blocks
    pub free :
        FreeChain (contents t) (free_list (contents t 0)) (down (blocks + 1) (size - (blocks + 1)))
    pub inodes : (i : ℕ) → 0 < i → i ≤ blocks → contents t i ≡ null_block

  clear_inodeblocks_lem :
      (rounds i : ℕ) (s : S)
      → i + rounds ≤ size
      → Returns
          (λ _ t.
            (a : ℕ)
            → contents t a ≡ (if leb i a && ltb a (i + rounds) then null_block else contents s a))
          (clear_inodeblocks below ino rounds i s)
  unfolding clear_inodeblocks
  clear_inodeblocks_lem zero i s h = returns λ a. ground arith
  clear_inodeblocks_lem (suc rounds) i s h = write_rule arr i s (omega arith) _ _ (
      Returns-weaken (clear_inodeblocks_lem rounds (i + 1) _ (omega arith))
        λ _ t same a. rw (same a, contents_put s i null_block) (ground arith))

  -- The superblock, then the inode blocks, after the free list.
  finish :
      (blocks head : ℕ) (s t : S)
      → blocks + 1 ≤ size
      → Listed arr s (blocks + 1) (down (blocks + 1) (size - (blocks + 1))) head t
      → Returns
          (λ _ u. IsFresh blocks u)
          (clear_inodeblocks below ino blocks 1
            (put t 0 (update (update null_block 0 blocks) 1 head)))
  finish blocks head s t fits l =
      Returns-weaken (clear_inodeblocks_lem blocks 1 _ (omega arith)) λ _ u same.
        let super : contents u 0 ≡ update (update null_block 0 blocks) 1 head =
          rw (same 0, contents_put t 0 (update (update null_block 0 blocks) 1 head)) refl in
        record {
          inodeblocks = rw super refl;
          free = rw super (
              FreeChain-same
                (λ a h.
                  let above = le-of_has-down a (blocks + 1) (size - (blocks + 1)) h in
                  rw (same a, contents_put t 0 (update (update null_block 0 blocks) 1 head))
                    (ground arith))
                l.chain);
          inodes = λ i pos le. rw (same i) (ground arith);
        }

  -- On a store with no file system, with room for the superblock, the inode blocks and one
  -- more block, and fewer than 2^32 blocks, `treedisk_create` succeeds: the superblock counts
  -- the inode blocks, all inodes are empty, and the free list names every block behind them
  -- exactly once.
  pub treedisk_create-IsFresh :
      (ninodes : ℕ) (s : S)
      → n_inodeblocks (contents s 0) ≡ 0
      → blocks_for ninodes + 2 ≤ size
      → size < uint_mod
      → Returns (λ _ t. IsFresh (blocks_for ninodes) t) (treedisk_create below ino ninodes s)
  unfolding treedisk_create
  treedisk_create-IsFresh ninodes s blank fits small =
      rw
        (
          getsize_ok s,
          le→ltb size ((blocks_for ninodes + 2) % uint_mod) (omega arith),
          read_ok s 0 (omega arith),
          blank,
        )
        (Returns-and_then _
          (setup_freelist-down arr (blocks_for ninodes + 1) size s (omega arith) (omega arith)
            (omega arith))
          λ head t l.
            write_rule arr 0 t (omega arith) _ _
              (finish (blocks_for ninodes) head s t (omega arith) l))

  -- A store with fewer blocks than the superblock, the inode blocks and one more is refused, and
  -- stays as it is.
  pub treedisk_create-refuses :
      (ninodes : ℕ) (s : S)
      → size < blocks_for ninodes + 2
      → treedisk_create below ino ninodes s ≡ fail s
  unfolding treedisk_create
  treedisk_create-refuses ninodes s short =
      rw (getsize_ok s, lt→ltb size ((blocks_for ninodes + 2) % uint_mod) (omega arith))

  -- On a store that is large enough, with fewer than 2^32 blocks, and whose superblock counts
  -- some inode blocks already, `treedisk_create` succeeds and changes nothing.
  pub treedisk_create-keeps :
      (ninodes : ℕ) (s : S)
      → n_inodeblocks (contents s 0) ≢ 0
      → blocks_for ninodes + 2 ≤ size
      → size < uint_mod
      → treedisk_create below ino ninodes s ≡ ok tt s
  unfolding treedisk_create read_below
  treedisk_create-keeps ninodes s there fits small = rw (
    getsize_ok s,
    le→ltb size ((blocks_for ninodes + 2) % uint_mod) (omega arith),
    read_ok s 0 (omega arith),
    ne→== _ 0 there,
  )
