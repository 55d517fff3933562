-- ===== src/FileSystem/Treedisk/Overwrite.antt =====
-- library/file/file1.c: writing a block that a file has already, and reading it back.
use egos.Base.{
  ℕ, zero, suc, ◌+◌, ◌-◌, ◌*◌, ◌/◌, ◌%◌, ◌^◌, ◌≤◌, ◌<◌, ◌≡◌, ◌≢◌, refl, sym, true, false, ◌==◌, leb,
  arith, ne→==, ==_refl, lt→leb,
}
use egos.FileSystem.Block.{Block, n_inodeblocks, refs_per_block, inodes_per_block, uint_mod}
use egos.FileSystem.Run.{Cmd, ok, ◌>>◌, or_panic}
use egos.FileSystem.Store.{InodeStore, IsArray}
use egos.FileSystem.Treedisk.{
  Snapshot, nlevels_of, index_at, read_below, write_below, get_snapshot, walk, grow, descend,
  write_levels, treedisk_read, treedisk_write,
}
use egos.FileSystem.Treedisk.Levels.{index_at-digit}
use egos.FileSystem.Treedisk.Reading.{nlevels_of-bound, file_nblocks, file_root, is_inode}

-- The way from block b down to the data block `leaf`, with `nlevels` references to go: no hole,
-- all blocks within the store, and the indirect blocks different from the data block.
abbrev pub IsPath : ℕ → (ℕ → Block) → ℕ → ℕ → ℕ → ℕ → Type 0
IsPath size d offset leaf zero b = (b ≢ 0) × (b < size) × (b ≡ leaf)
IsPath size d offset leaf (suc nlevels) b =
    (b ≢ 0)
    × (b < size)
    × (b ≢ leaf)
    × IsPath size d offset leaf nlevels (d b (offset / refs_per_block ^ nlevels % refs_per_block))

module _ {S : Type 0} {below : InodeStore S} {below_ino : ℕ} (arr : IsArray below below_ino) where
  open arr use {size, contents, put, contents_put, read_ok, write_ok}

  descend_lem :
      (offset leaf : ℕ) (block : Block) (nlevels slot parent_off : ℕ) (parent : Block)
      (snapshot : Snapshot) (s : S)
      → nlevels ≤ 5
      → IsPath size (contents s) offset leaf nlevels (parent slot)
      → descend below below_ino offset block nlevels slot parent_off parent snapshot s
        ≡ ok tt (put s leaf block)
  unfolding descend read_below write_below
  descend_lem offset leaf block zero slot parent_off parent snapshot s few p =
      rw (ne→== _ 0 p.0, p.2, write_ok s leaf block (rw p.2 at p.1), or_panic) refl
  descend_lem offset leaf block (suc nlevels) slot parent_off parent snapshot s few p =
      rw (ne→== _ 0 p.0, read_ok s (parent slot) p.1, or_panic)
        (descend_lem offset leaf block nlevels (index_at offset nlevels) (parent slot)
          (contents s (parent slot)) snapshot s (omega arith)
          (rw (index_at-digit offset nlevels (omega arith)) p.3))

  -- The walk in the store after the write.
  walk_back :
      (offset leaf : ℕ) (block : Block) (nlevels b : ℕ) (s : S)
      → nlevels ≤ 5
      → IsPath size (contents s) offset leaf nlevels b
      → walk below below_ino offset nlevels b (put s leaf block) ≡ ok block (put s leaf block)
  unfolding walk read_below
  walk_back offset leaf block zero b s few p =
      rw
        (
          ne→== b 0 p.0,
          read_ok (put s leaf block) b p.1,
          contents_put s leaf block,
          p.2,
          ==_refl leaf,
        )
        refl
  walk_back offset leaf block (suc nlevels) b s few p =
      rw
        (
          ne→== b 0 p.0,
          read_ok (put s leaf block) b p.1,
          contents_put s leaf block,
          ne→== b leaf p.2,
          index_at-digit offset nlevels (omega arith),
        )
        (walk_back offset leaf block nlevels _ s (omega arith) p.3)

  -- Block `offset` of the file is on the disk, in block `leaf`, away from the file system's own
  -- blocks.
  pub record IsWritten (ino offset leaf : ℕ) (s : S) : Type 0 where
    pub known : is_inode (contents s) ino ≡ true
    pub inside : offset < file_nblocks (contents s) ino
    pub inode_below : 1 + ino / inodes_per_block < size
    pub apart : leaf ≢ 1 + ino / inodes_per_block
    pub path :
        IsPath size
          (contents s)
          offset
          leaf
          (nlevels_of (file_nblocks (contents s) ino))
          (file_root (contents s) ino)
    pub not_super : leaf ≢ 0

  -- The write changes the data block, and nothing else.
  pub treedisk_write-put :
      (ino offset leaf : ℕ) (block : Block) (s : S)
      → IsWritten ino offset leaf s
      → treedisk_write below below_ino ino offset block s ≡ ok tt (put s leaf block)
  unfolding treedisk_write get_snapshot read_below write_levels grow
  treedisk_write-put ino offset leaf block s w =
      let nblocks = file_nblocks (contents s) ino in
      let inode = 1 + ino / inodes_per_block in
      let known = w.known in
      let small : leb (n_inodeblocks (contents s 0) * inodes_per_block % uint_mod) ino ≡ false =
        ground arith in
      let inside = w.inside in
      let held : leb nblocks offset ≡ false = lt→leb nblocks offset inside in
      let some_blocks : (nblocks == 0) ≡ false = ground arith in
      let level : nlevels_of nblocks - nlevels_of nblocks ≡ 0 = omega arith in
      let sum : nlevels_of nblocks + 0 ≡ nlevels_of nblocks = omega arith in
      rw
        (
          read_ok s 0 (omega (arith, w.inode_below)),
          small,
          read_ok s inode w.inode_below,
          held,
          some_blocks,
          level,
          sum,
        )
        (descend_lem offset leaf block (nlevels_of nblocks) _ _ _ _ s (nlevels_of-bound nblocks)
          w.path)

  read_back :
      (ino offset leaf : ℕ) (block : Block) (s : S)
      → IsWritten ino offset leaf s
      → treedisk_read below below_ino ino offset (put s leaf block) ≡ ok block (put s leaf block)
  unfolding treedisk_read get_snapshot read_below
  read_back ino offset leaf block s w =
      let t = put s leaf block in
      let nblocks = file_nblocks (contents s) ino in
      let inode = 1 + ino / inodes_per_block in
      let known = w.known in
      let small : leb (n_inodeblocks (contents s 0) * inodes_per_block % uint_mod) ino ≡ false =
        ground arith in
      let held : leb nblocks offset ≡ false = lt→leb nblocks offset w.inside in
      rw
        (
          read_ok t 0 (omega (arith, w.inode_below)),
          contents_put s leaf block,
          ne→== 0 leaf (λ e. w.not_super (sym e)),
          small,
          read_ok t inode w.inode_below,
          contents_put s leaf block,
          ne→== inode leaf (λ e. w.apart (sym e)),
          held,
        )
        (walk_back offset leaf block (nlevels_of nblocks) _ s (nlevels_of-bound nblocks) w.path)

  -- A write, and then a read.
  pub write_read : ℕ → ℕ → Block → Cmd S Block
  write_read ino offset block = do
    treedisk_write below below_ino ino offset block
    treedisk_read below below_ino ino offset

  -- Let block `offset` of an inode, below the file's length, be on the disk in block `leaf`:
  -- the references down to it are no holes, they lie within the store, and `leaf` is none of
  -- the indirect blocks, the inode's block and the superblock. Then `treedisk_write` to that
  -- offset changes block `leaf` alone, and `treedisk_read` returns what was written.
  pub treedisk-write_read :
      (ino offset leaf : ℕ) (block : Block) (s : S)
      → IsWritten ino offset leaf s
      → write_read ino offset block s ≡ ok block (put s leaf block)
  unfolding write_read
  treedisk-write_read ino offset leaf block s w =
      rw (treedisk_write-put ino offset leaf block s w) (read_back ino offset leaf block s w)
