-- ===== src/FileSystem/Treedisk/Files.antt =====
-- library/file/file1.c: the files of a tree file system. Each block of a file has a key, its place
-- in the tree of the file; since a block has one key only, no two trees share a block.
pub mod Shift
pub mod Attach
pub mod Store
pub mod Raise
pub mod State
pub mod Grow
pub mod Kept
pub mod Link
pub mod Descend
pub mod Write
pub mod WriteLevels
pub mod Refines
pub mod Correct
pub mod Read
pub mod Fresh
pub mod Session
mod Examples
use egos.Base.{
  ℕ, zero, suc, ◌+◌, ◌*◌, ◌/◌, ◌%◌, ◌≤◌, ◌<◌, ◌≡◌, ◌≢◌, ◌⊎◌, Option, none, some, List, ◌==◌,
  if◌then◌else◌, has, true,
}
use egos.FileSystem.Block.{Block, null_block, root_word}
use egos.FileSystem.Treedisk.Reading.{file_root}
use egos.FileSystem.Treedisk.Files.Shift.{shift}

-- The inode, the height above the data blocks, and the number among the blocks of that height.
pub data Key : Type 0 where
  key : ℕ → ℕ → ℕ → Key

-- Which key each block has.
abbrev pub Keys : Type 0
Keys = ℕ → Option Key

-- A reference to the block with this key, or a hole.
abbrev pub IsRef : Keys → ℕ → ℕ → ℕ → ℕ → Type 0
IsRef keys ino l k b = (b ≡ 0) ⊎ (keys b ≡ some (key ino l k))

-- On a disk with n inode blocks, `levels` gives the height of the tree of each inode. The
-- references in the inodes and in the indirect blocks are to the blocks with the right keys, and
-- only blocks behind the inode blocks have keys.
pub record IsLayout (n size : ℕ) (e : ℕ → Block) (keys : Keys) (levels : ℕ → ℕ) : Type 0 where
  pub roots : (ino : ℕ) → ino / 64 < n → IsRef keys ino (levels ino) 0 (file_root e ino)
  pub children :
      (b ino l k i : ℕ)
      → keys b ≡ some (key ino (suc l) k)
      → i < 128
      → IsRef keys ino l (k * 128 + i) (e b i)
  pub above : (b : ℕ) (at : Key) → keys b ≡ some at → n < b
  pub below : (b : ℕ) (at : Key) → keys b ≡ some at → b < size

-- The block that the tree from b of height l holds at the offset.
pub block_at : (ℕ → Block) → ℕ → ℕ → ℕ → Block
block_at e off zero b = if b == 0 then null_block else e b
block_at e off (suc l) b =
    let child = block_at e off l (e b (shift off l % 128)) in if b == 0 then null_block else child

-- What inode `ino` holds at the offset, null bytes if its tree does not reach that far.
pub content : (ℕ → Block) → (ℕ → ℕ) → ℕ → ℕ → Block
unfolding block_at
content e levels ino off =
    if shift off (levels ino) == 0
    then block_at e off (levels ino) (file_root e ino)
    else null_block

-- The inode blocks, and the blocks of the files.
abbrev pub IsKnown : ℕ → Keys → ℕ → Type 0
IsKnown n keys b = ((1 ≤ b) × (b ≤ n)) ⊎ ((at : Key) × (keys b ≡ some at))
