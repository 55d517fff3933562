-- ===== src/FileSystem/Session.antt =====
-- library/file/inode.h: a client of an inode store, which reads and writes blocks of its files, and
-- the answers that it expects.
use egos.Base.{ℕ, ◌+◌, ◌<◌, ◌&&◌, ltb, if◌then◌else◌, List, [], ◌∷◌}
use egos.FileSystem.Block.{Block, uint_mod}
use egos.FileSystem.Run.{Run, Cmd, ok, fail, panic, pure, ◌>>=◌}
use egos.FileSystem.Store.{InodeStore}
use egos.FileSystem.Files.{Files, block_of, write_at}

-- An inode, an offset, and what to write there.
pub data Op : Type 0 where
  read_op : ℕ → ℕ → Op
  write_op : ℕ → ℕ → Block → Op

pub data Answer : Type 0 where
  got : Block → Answer
  done : Answer
  refused : Answer

abbrev pub answer : {S A : Type 0} → (A → Answer) → Run S A → Run S Answer
answer f (ok a t) = ok (f a) t
answer f (fail t) = ok refused t
answer f (panic t) = panic t

abbrev pub run_op : {S : Type 0} → InodeStore S → Op → Cmd S Answer
run_op store (read_op ino offset) s = answer got (store.read ino offset s)
run_op store (write_op ino offset block) s = answer (λ _. done) (store.write ino offset block s)

unfoldable pub run_ops : {S : Type 0} → InodeStore S → List Op → Cmd S (List Answer)
run_ops store [] = pure []
run_ops store (op ∷ ops) = do first ← run_op store op; rest ← run_ops store ops; pure (first ∷ rest)

-- With so many inodes.
abbrev pub expect_op : ℕ → Files → Op → Answer × Files
expect_op ninodes fs (read_op ino offset) = (
  if ltb ino ninodes && ltb offset (fs ino).nblocks
      then got (block_of (fs ino) offset)
      else refused,
  fs,
)
expect_op ninodes fs (write_op ino offset block) =
    if ltb ino ninodes then (done, write_at fs ino offset block) else (refused, fs)

unfoldable pub expect_ops : ℕ → Files → List Op → List Answer × Files
expect_ops ninodes fs [] = ([], fs)
expect_ops ninodes fs (op ∷ ops) =
    let first = expect_op ninodes fs op in
    let rest = expect_ops ninodes first.1 ops in (first.0 ∷ rest.0, rest.1)

-- All offsets written lie below 2^32 - 1.
abbrev pub IsBounded : List Op → Type 0
IsBounded [] = Unit {0}
IsBounded (read_op ino offset ∷ ops) = IsBounded ops
IsBounded (write_op ino offset block ∷ ops) = (offset + 1 < uint_mod) × IsBounded ops
