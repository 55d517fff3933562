-- ===== src/FileSystem/Mydisk.antt =====
-- library/file/file0.c: the file system for exercises. Inode `ino` is the 128 blocks of the store
-- below from block 128 * ino on.
use egos.Base.{ℕ, ◌+◌, ◌*◌, ◌%◌, ◌<◌, ◌≡◌, refl, subst, ◌==◌, arith, ◌&&◌, if◌then◌else◌}
use egos.FileSystem.Block.{Block, uint_mod}
use egos.FileSystem.Run.{Cmd, pure, panicked, ok, ◌>>◌}
use egos.FileSystem.Store.{InodeStore, IsArray}

-- DUMMY_DISK_OFFSET(ino, offset)
abbrev pub disk_offset : ℕ → ℕ → ℕ
disk_offset ino offset = (ino * 128 + offset) % uint_mod

module _ {S : Type 0} (below : InodeStore S) where
  pub mydisk_read : ℕ → ℕ → Cmd S Block
  mydisk_read ino offset = below.read 0 (disk_offset ino offset)

  pub mydisk_write : ℕ → ℕ → Block → Cmd S (Unit {0})
  mydisk_write ino offset block = below.write 0 (disk_offset ino offset) block

module _ {S : Type 0} where
  -- FATAL
  pub mydisk_getsize : ℕ → Cmd S ℕ
  mydisk_getsize ino = panicked

  pub mydisk_setsize : ℕ → ℕ → Cmd S ℕ
  mydisk_setsize ino nblocks = panicked

  pub mydisk_create : ℕ → Cmd S ℕ
  mydisk_create ninodes = pure 0

pub mydisk_init : {S : Type 0} → InodeStore S → InodeStore S
unfolding mydisk_read mydisk_write mydisk_getsize mydisk_setsize
mydisk_init below = record {
  getsize = mydisk_getsize;
  setsize = mydisk_setsize;
  read = mydisk_read below;
  write = mydisk_write below;
}

module _ {S : Type 0} {below : InodeStore S} (arr : IsArray below 0) where
  open arr use {size, contents, put, read_ok, write_ok, contents_put}

  write_at :
      (ino offset : ℕ) (block : Block) (s : S)
      → ino * 128 + offset < size
      → size < uint_mod
      → mydisk_write below ino offset block s ≡ ok tt (put s (ino * 128 + offset) block)
  unfolding mydisk_write
  write_at ino offset block s fits small =
      let at : ino * 128 + offset ≡ disk_offset ino offset = omega arith in
      subst (λ n. below.write 0 n block s ≡ ok tt (put s (ino * 128 + offset) block)) at
        (write_ok s (ino * 128 + offset) block fits)

  read_at :
      (ino offset : ℕ) (s : S)
      → ino * 128 + offset < size
      → size < uint_mod
      → mydisk_read below ino offset s ≡ ok (contents s (ino * 128 + offset)) s
  unfolding mydisk_read
  read_at ino offset s fits small =
      let at : ino * 128 + offset ≡ disk_offset ino offset = omega arith in
      subst (λ n. below.read 0 n s ≡ ok (contents s (ino * 128 + offset)) s) at
        (read_ok s (ino * 128 + offset) fits)

  -- A write, and then a read.
  pub write_read : ℕ → ℕ → Block → ℕ → ℕ → Cmd S Block
  write_read ino offset block ino' offset' = do
    (mydisk_init below).write ino offset block
    (mydisk_init below).read ino' offset'

  -- With offsets below 128, and within a store of fewer than 2^32 blocks, a read of `mydisk`
  -- after a write returns the block written if inode and offset are the same, and otherwise
  -- what the block held before.
  pub mydisk-write_read :
      (ino offset ino' offset' : ℕ) (block : Block) (s : S)
      → offset < 128
      → offset' < 128
      → ino * 128 + offset < size
      → ino' * 128 + offset' < size
      → size < uint_mod
      → write_read ino offset block ino' offset' s
        ≡ ok
            (if ino' == ino && offset' == offset then block else contents s (ino' * 128 + offset'))
            (put s (ino * 128 + offset) block)
  unfolding write_read mydisk_init
  mydisk-write_read ino offset ino' offset' block s lt lt' fits fits' small =
      let same : (ino' * 128 + offset' == ino * 128 + offset) ≡ (ino' == ino && offset' == offset) =
        ground arith in
      rw
        (
          write_at ino offset block s fits small,
          read_at ino' offset' _ fits' small,
          contents_put s (ino * 128 + offset) block,
          ← same,
        )
        refl
