-- ===== src/FileSystem/Treedisk/Access.antt =====
-- Reading and writing the blocks of the store below, when the inode that holds the file system
-- behaves as an array: neither fails within its size.
use egos.Base.{ℕ, ◌<◌}
use egos.FileSystem.Block.{Block}
use egos.FileSystem.Run.{Cmd, Returns, returns, ◌>>=◌, ◌>>◌, or_panic}
use egos.FileSystem.Store.{InodeStore, IsArray}
use egos.FileSystem.Treedisk.{read_below, write_below}

module _ {S A : Type 0} {below : InodeStore S} {ino : ℕ} (arr : IsArray below ino) where
  open arr use {size, contents, put, read_ok, write_ok}

  module _ {P : A → S → Type 0} (n : ℕ) (s : S) (lt : n < size) where
    pub read_rule :
        (k : Block → Cmd S A)
        → Returns P (k (contents s n) s)
        → Returns P ((read_below below ino n >>= k) s)
    unfolding read_below
    read_rule k h = rw (read_ok s n lt) h

    pub read_or_panic_rule :
        (k : Block → Cmd S A)
        → Returns P (k (contents s n) s)
        → Returns P ((or_panic (read_below below ino n) >>= k) s)
    unfolding read_below
    read_or_panic_rule k h = rw (read_ok s n lt, or_panic) h

    pub write_or_panic_rule :
        (b : Block) (k : Cmd S A)
        → Returns P (k (put s n b))
        → Returns P ((or_panic (write_below below ino n b) >> k) s)
    unfolding write_below
    write_or_panic_rule b k h = rw (write_ok s n b lt, or_panic) h

    pub write_rule :
        (b : Block) (k : Cmd S A)
        → Returns P (k (put s n b))
        → Returns P ((write_below below ino n b >> k) s)
    unfolding write_below
    write_rule b k h = rw (write_ok s n b lt) h

module _ {S : Type 0} {below : InodeStore S} {ino : ℕ} (arr : IsArray below ino) where
  open arr use {size, put, write_ok}

  pub write_or_panic_last :
      {P : Unit {0} → S → Type 0} (n : ℕ) (s : S) (b : Block)
      → n < size
      → P tt (put s n b)
      → Returns P (or_panic (write_below below ino n b) s)
  unfolding write_below
  write_or_panic_last n s b lt h = rw (write_ok s n b lt, or_panic) (returns h)
