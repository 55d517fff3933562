-- ===== src/FileSystem/Store.antt =====
-- library/file/inode.h: `struct inode_store`, the interface between the layers of the file system,
-- and what a layer relies on: one inode of the store below behaves as an array of blocks.
use egos.Base.{ℕ, ◌<◌, ◌≡◌, update}
use egos.FileSystem.Block.{Block}
use egos.FileSystem.Run.{Cmd, ok}

pub record InodeStore (S : Type 0) : Type 0 where
  pub getsize : ℕ → Cmd S ℕ
  pub setsize : ℕ → ℕ → Cmd S ℕ
  pub read : ℕ → ℕ → Cmd S Block
  pub write : ℕ → ℕ → Block → Cmd S (Unit {0})

-- Inode `ino` of the store is an array of `size` blocks: below `size`, reads and writes succeed, a
-- read returns what was written last, and a write changes its own block alone.
pub record IsArray {S : Type 0} (store : InodeStore S) (ino : ℕ) : Type 0 where
  pub size : ℕ
  pub contents : S → ℕ → Block
  pub put : S → ℕ → Block → S
  pub getsize_ok : (s : S) → store.getsize ino s ≡ ok size s
  pub read_ok : (s : S) (n : ℕ) → n < size → store.read ino n s ≡ ok (contents s n) s
  pub write_ok : (s : S) (n : ℕ) (b : Block) → n < size → store.write ino n b s ≡ ok tt (put s n b)
  pub contents_put : (s : S) (n : ℕ) (b : Block) → contents (put s n b) ≡ update (contents s) n b
