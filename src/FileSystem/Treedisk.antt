-- ===== src/FileSystem/Treedisk.antt =====
-- library/file/file1.c: the tree file system. `below` is the inode store that it stands on, and
-- `below_ino` the inode of it that holds the file system.
pub mod Levels
pub mod Access
pub mod FreeList
pub mod Alloc
pub mod Setup
pub mod Create
pub mod Reading
pub mod Overwrite
pub mod Files
mod Examples
use egos.Base.{
  ℕ, zero, suc, ◌+◌, ◌-◌, ◌*◌, ◌/◌, ◌%◌, ◌^◌, Bool, true, false, ltb, leb, ◌==◌, if◌then◌else◌,
  ◌||◌, update,
}
use egos.FileSystem.Block.{
  Block, null_block, n_inodeblocks, free_list, root_word, nblocks_word, refs_per_block,
  inodes_per_block, uint_mod,
}
use egos.FileSystem.Run.{Cmd, pure, failed, panicked, ◌>>=◌, ◌>>◌, or_panic}
use egos.FileSystem.Store.{InodeStore}

-- The arithmetic of block trees.

-- `log_shift_r`: a shift by the width of the word, or more, gives 0.
pub log_shift_r : ℕ → ℕ → ℕ
log_shift_r x nbits = if leb 32 nbits then 0 else x / 2 ^ nbits

-- do log++ while ((REFS_PER_BLOCK - 1) >> log) != 0, from `treedisk_init`.
pub find_log : ℕ → ℕ → ℕ
find_log zero log = log
find_log (suc fuel) log =
    let more = find_log fuel (log + 1) in
    if (refs_per_block - 1) / 2 ^ (log + 1) == 0 then log + 1 else more

-- What `treedisk_init` leaves in the global; every operation goes through an opened store.
pub log_rpb : ℕ
unfolding find_log
log_rpb = find_log 32 0

-- while (log_shift_r(x, nlevels * log_rpb) != 0) nlevels++. Five rounds reach a shift of 35 bits.
pub count_levels : ℕ → ℕ → ℕ → ℕ
count_levels zero x nlevels = nlevels
count_levels (suc fuel) x nlevels =
    let more = count_levels fuel x (nlevels + 1) in
    if log_shift_r x (nlevels * log_rpb) == 0 then nlevels else more

-- Levels of indirect blocks in a tree that reaches block number `x`.
pub levels_for : ℕ → ℕ
unfolding count_levels log_shift_r
levels_for x = count_levels 5 x 0

-- Levels of the tree of a file of `nblocks` blocks.
pub nlevels_of : ℕ → ℕ
nlevels_of nblocks = if ltb 0 nblocks then levels_for (nblocks - 1) else 0

-- The slot of the indirect block at height `nlevels + 1` on the way to block `offset`.
pub index_at : ℕ → ℕ → ℕ
index_at offset nlevels = log_shift_r offset (nlevels * log_rpb) % refs_per_block

-- for (i = REFS_PER_BLOCK; --i > 0;) if (refs[i] != 0) break: the slot found, or 0.
pub scan : ℕ → Block → ℕ
scan zero refs = 0
scan (suc i) refs = let rest = scan i refs in if refs (suc i) == 0 then rest else suc i

-- struct treedisk_snapshot; `inode` is the index of the inode in its block.
pub record Snapshot : Type 0 where
  pub superblock : Block
  pub inodeblock : Block
  pub inode_blockno : ℕ
  pub inode : ℕ

abbrev pub root_of : Snapshot → ℕ
root_of s = s.inodeblock (root_word s.inode)

abbrev pub nblocks_of : Snapshot → ℕ
nblocks_of s = s.inodeblock (nblocks_word s.inode)

-- for (i = 1; i < REFS_PER_BLOCK && next_free < nblocks; i++) refs[i] = next_free++, on a block
-- whose other slots are 0; the block and the next free number.
pub fill_refs : ℕ → ℕ → ℕ → ℕ → Block → Block × ℕ
fill_refs zero i next_free nblocks refs = (refs, next_free)
fill_refs (suc rounds) i next_free nblocks refs =
    let more = fill_refs rounds (suc i) (suc next_free) nblocks (update refs i next_free) in
    if ltb next_free nblocks then more else (refs, next_free)

module _ {S : Type 0} (below : InodeStore S) (below_ino : ℕ) where
  pub read_below : ℕ → Cmd S Block
  read_below n = below.read below_ino n

  pub write_below : ℕ → Block → Cmd S (Unit {0})
  write_below n b = below.write below_ino n b

  pub get_snapshot : ℕ → Cmd S Snapshot
  unfolding read_below
  get_snapshot inode_no = do
    superblock ← read_below 0
    if leb (n_inodeblocks superblock * inodes_per_block % uint_mod) inode_no then failed else do
      inodeblock ← read_below (1 + inode_no / inodes_per_block)
      pure (record {
        superblock = superblock;
        inodeblock = inodeblock;
        inode_blockno = 1 + inode_no / inodes_per_block;
        inode = inode_no % inodes_per_block;
      })

  -- The block taken, and the snapshot with its superblock.
  pub alloc_block : Snapshot → Cmd S (ℕ × Snapshot)
  unfolding read_below write_below
  alloc_block snapshot = do
    let b = free_list snapshot.superblock
    if b == 0 then panicked else do
      freelistblock ← or_panic (read_below b)
      let i = scan (refs_per_block - 1) freelistblock
      let superblock = update snapshot.superblock 1 (freelistblock 0)
      if i == 0
          then (do
            or_panic (write_below 0 superblock)
            pure (b, record snapshot { superblock = superblock }))
          else (do
            or_panic (write_below b (update freelistblock i 0))
            pure (freelistblock i, snapshot))

  pub treedisk_getsize : ℕ → Cmd S ℕ
  treedisk_getsize ino = do snapshot ← get_snapshot ino; pure (nblocks_of snapshot)

  pub treedisk_setsize : ℕ → ℕ → Cmd S ℕ
  treedisk_setsize ino nblocks = panicked

  -- The walk of `treedisk_read` from block `b`, with `nlevels` levels to go.
  pub walk : ℕ → ℕ → ℕ → Cmd S Block
  unfolding read_below
  walk offset zero b = if b == 0 then pure null_block else read_below b
  walk offset (suc nlevels) b =
      if b == 0
      then pure null_block
      else do tib ← read_below b; walk offset nlevels (tib (index_at offset nlevels))

  pub treedisk_read : ℕ → ℕ → Cmd S Block
  unfolding get_snapshot walk
  treedisk_read ino offset = do
    snapshot ← get_snapshot ino
    if leb (nblocks_of snapshot) offset
        then failed
        else walk offset (nlevels_of (nblocks_of snapshot)) (root_of snapshot)

  -- while (nlevels_after > nlevels): a new root above the old one, `rounds` times.
  pub grow : ℕ → Snapshot → Cmd S Snapshot
  unfolding alloc_block write_below
  grow zero snapshot = pure snapshot
  grow (suc rounds) snapshot = do
    (indir, taken) ← alloc_block snapshot
    or_panic (write_below indir (update null_block 0 (root_of taken)))
    grow rounds
        (record taken { inodeblock = update taken.inodeblock (root_word taken.inode) indir })

  -- The walk of `treedisk_write` to the block at `offset`: `parent_block`, which stands at
  -- `parent_off`, refers to the next block in its word `slot`.
  pub descend : ℕ → Block → ℕ → ℕ → ℕ → Block → Snapshot → Cmd S (Unit {0})
  unfolding alloc_block write_below read_below
  descend offset block zero slot parent_off parent_block snapshot =
      if parent_block slot == 0
      then (do
        (b, taken) ← alloc_block snapshot
        or_panic (write_below parent_off (update parent_block slot b))
        or_panic (write_below b block))
      else or_panic (write_below (parent_block slot) block)
  descend offset block (suc nlevels) slot parent_off parent_block snapshot =
      if parent_block slot == 0
      then (do
        (b, taken) ← alloc_block snapshot
        or_panic (write_below parent_off (update parent_block slot b))
        descend offset block nlevels (index_at offset nlevels) b null_block taken)
      else (do
        tib ← or_panic (read_below (parent_block slot))
        descend offset block nlevels (index_at offset nlevels) (parent_block slot) tib snapshot)

  -- From the levels before the write, those needed after it, and whether the inode is dirty.
  pub write_levels : ℕ → Block → ℕ → ℕ → Bool → Snapshot → Cmd S (Unit {0})
  unfolding grow descend write_below
  write_levels offset block nlevels nlevels_after dirty snapshot = do
    let rounds = if nblocks_of snapshot == 0 then 0 else nlevels_after - nlevels
    let levels = if nblocks_of snapshot == 0 then nlevels_after else nlevels + rounds
    grown ← grow rounds snapshot
    (if dirty || ltb 0 rounds
        then or_panic (write_below grown.inode_blockno grown.inodeblock)
        else pure tt)
    descend offset block levels (root_word grown.inode) grown.inode_blockno grown.inodeblock grown

  pub treedisk_write : ℕ → ℕ → Block → Cmd S (Unit {0})
  unfolding get_snapshot write_levels
  treedisk_write ino offset block = do
    snapshot ← get_snapshot ino
    let nlevels = nlevels_of (nblocks_of snapshot)
    let longer = update snapshot.inodeblock (nblocks_word snapshot.inode) ((offset + 1) % uint_mod)
    if leb (nblocks_of snapshot) offset
        then write_levels offset block nlevels (levels_for offset) true
            (record snapshot { inodeblock = longer })
        else write_levels offset block nlevels nlevels false snapshot

  -- while (next_free < nblocks): one block of the free list in each round.
  pub setup_freelist : ℕ → ℕ → ℕ → ℕ → Cmd S ℕ
  unfolding write_below
  setup_freelist zero freelist_block next_free nblocks = pure freelist_block
  setup_freelist (suc fuel) freelist_block next_free nblocks =
      if ltb next_free nblocks
      then (do
        let filled =
            fill_refs (refs_per_block - 1) 1 (suc next_free) nblocks
              (update null_block 0 freelist_block)
        or_panic (write_below next_free filled.0)
        setup_freelist fuel next_free filled.1 nblocks)
      else pure freelist_block

  -- for (i = first; i < first + rounds; i++) below->write(i, &null_block)
  pub clear_inodeblocks : ℕ → ℕ → Cmd S (Unit {0})
  unfolding write_below
  clear_inodeblocks zero i = pure tt
  clear_inodeblocks (suc rounds) i = do write_below i null_block; clear_inodeblocks rounds (i + 1)

  pub treedisk_create : ℕ → Cmd S (Unit {0})
  unfolding setup_freelist clear_inodeblocks read_below write_below
  treedisk_create ninodes = do
    let blocks = (ninodes + inodes_per_block - 1) % uint_mod / inodes_per_block
    nblocks ← below.getsize below_ino
    if ltb nblocks ((blocks + 2) % uint_mod) then failed else do
      superblock ← read_below 0
      if n_inodeblocks superblock == 0
          then (do
            free ← setup_freelist nblocks 0 (blocks + 1) nblocks
            write_below 0 (update (update null_block 0 blocks) 1 free)
            clear_inodeblocks blocks 1)
          else pure tt

  -- The store that `treedisk_init` returns.
  unfoldable pub treedisk_init : InodeStore S
  unfolding treedisk_getsize treedisk_setsize treedisk_read treedisk_write
  treedisk_init = record {
    getsize = treedisk_getsize;
    setsize = treedisk_setsize;
    read = treedisk_read;
    write = treedisk_write;
  }
