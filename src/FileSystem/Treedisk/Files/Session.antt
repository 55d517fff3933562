-- ===== src/FileSystem/Treedisk/Files/Session.antt =====
-- library/file/file1.c: the tree file system gives a client the answers of files.
use egos.Base.{
  ℕ, ◌+◌, ◌*◌, ◌≤◌, ◌<◌, ◌≡◌, inl, inr, ◌&&◌, ltb, arith, refl, Bool-cases, length, List, [], ◌∷◌,
}
use egos.FileSystem.Block.{Block, n_inodeblocks, uint_mod}
use egos.FileSystem.Run.{Run, Returns, returns, Returns-and_then, Cmd, ◌>>◌}
use egos.FileSystem.Store.{InodeStore, IsArray}
use egos.FileSystem.Files.{Files, no_files}
use egos.FileSystem.Session.{
  Op, read_op, write_op, Answer, done, answer, run_op, run_ops, expect_op, expect_ops, IsBounded,
}
use egos.FileSystem.Treedisk.{treedisk_init, treedisk_create}
use egos.FileSystem.Treedisk.Create.{blocks_for}
use egos.FileSystem.Treedisk.Files.Refines.{IsFs}
use egos.FileSystem.Treedisk.Files.Correct.{treedisk_write-IsFs}
use egos.FileSystem.Treedisk.Files.Read.{treedisk_read-block_of, treedisk_write-refuses}
use egos.FileSystem.Treedisk.Files.Fresh.{treedisk_create-IsFs}

module _ {S : Type 0} {below : InodeStore S} {below_ino : ℕ} (arr : IsArray below below_ino) where
  open arr use {size, contents}

  -- The answer is the one expected, and the disk holds the files expected.
  abbrev pub Answers : ℕ → ℕ → Answer × Files → Answer → S → Type 0
  Answers n room expected a t = (a ≡ expected.0) × IsFs arr n room expected.1 t

  IsFs-less :
      {n room : ℕ} {fs : Files} {s : S} (room' : ℕ)
      → room' ≤ room
      → IsFs arr n room fs s
      → IsFs arr n room' fs s
  IsFs-less room' le f = record {
    keys = f.keys;
    free_blocks = f.free_blocks;
    snap = f.snap;
    opened = f.opened;
    enough = omega (arith, f.enough, le);
    lengths = f.lengths;
    small = f.small;
    holds = f.holds;
    fits = f.fits;
    counted = f.counted;
  }

  read_op-Answers :
      (n room ino off : ℕ) (fs : Files) (s : S)
      → IsFs arr n (11 + room) fs s
      → Returns
          (Answers n room (expect_op (n * 64) fs (read_op ino off)))
          (run_op (treedisk_init below below_ino) (read_op ino off) s)
  unfolding treedisk_init
  read_op-Answers n room ino off fs s f =
      elim (Bool-cases (ltb ino (n * 64) && ltb off (fs ino).nblocks)) [
        | inl inside ↦
            rw (treedisk_read-block_of arr n (11 + room) ino off fs s f, inside)
              (returns (refl, IsFs-less room (omega arith) f))
        | inr outside ↦
            rw (treedisk_read-block_of arr n (11 + room) ino off fs s f, outside)
              (returns (refl, IsFs-less room (omega arith) f))
      ]

  done_answer :
      {P : Answer → S → Type 0} {Q : Unit {0} → S → Type 0} {r : Run S (Unit {0})}
      → Returns Q r
      → ((t : S) → Q tt t → P done t)
      → Returns P (answer (λ _. done) r)
  done_answer (returns q) next = returns (next _ q)

  write_op-Answers :
      (n room ino off : ℕ) (block : Block) (fs : Files) (s : S)
      → IsFs arr n (11 + room) fs s
      → off + 1 < uint_mod
      → Returns
          (Answers n room (expect_op (n * 64) fs (write_op ino off block)))
          (run_op (treedisk_init below below_ino) (write_op ino off block) s)
  unfolding treedisk_init
  write_op-Answers n room ino off block fs s f small = elim (Bool-cases (ltb ino (n * 64))) [
    | inl there ↦ rw there (
        done_answer (treedisk_write-IsFs arr n room ino off block fs s f (ground arith) small)
          λ t f'. (refl, f'))
    | inr unknown ↦
        rw (treedisk_write-refuses arr n (11 + room) ino off block fs s f unknown, unknown)
          (returns (refl, IsFs-less room (omega arith) f))
  ]

  pub run_ops-IsFs :
      (n : ℕ) (ops : List Op) (fs : Files) (s : S)
      → IsFs arr n (11 * length ops) fs s
      → IsBounded ops
      → Returns
          (λ answers _. answers ≡ (expect_ops (n * 64) fs ops).0)
          (run_ops (treedisk_init below below_ino) ops s)
  unfolding run_ops expect_ops
  run_ops-IsFs n [] fs s f bounded = returns refl
  run_ops-IsFs n (read_op ino off ∷ ops) fs s f bounded =
      Returns-and_then _
        (read_op-Answers n (11 * length ops) ino off fs s
          (IsFs-less (11 + 11 * length ops) (omega arith) f))
        λ a t (same, f').
          Returns-and_then _ (run_ops-IsFs n ops _ t f' bounded)
            λ answers u same'. returns (rw (same, same') refl)
  run_ops-IsFs n (write_op ino off block ∷ ops) fs s f bounded =
      Returns-and_then _
        (write_op-Answers n (11 * length ops) ino off block fs s
          (IsFs-less (11 + 11 * length ops) (omega arith) f) bounded.0)
        λ a t (same, f').
          Returns-and_then _ (run_ops-IsFs n ops _ t f' bounded.1)
            λ answers u same'. returns (rw (same, same') refl)

  -- A new file system, and a client of it.
  abbrev pub serve : ℕ → List Op → Cmd S (List Answer)
  serve ninodes ops =
      treedisk_create below below_ino ninodes >> run_ops (treedisk_init below below_ino) ops

  -- On a store that is an array of fewer than 2^32 blocks, with no file system on it, with
  -- room for the superblock, the inode blocks, one more block, and 11 blocks for each read or
  -- write of a list: `treedisk_create` and then the reads and writes through the store of
  -- `treedisk_init` return, and the answers are those of files that are arrays of blocks. They
  -- start empty, a write makes them longer, blocks never written are null bytes, a read from
  -- the end on is refused, and so is an inode that does not exist. All writes are below offset
  -- 2^32 - 1.
  pub serve-expect_ops :
      (ninodes : ℕ) (ops : List Op) (s : S)
      → n_inodeblocks (contents s 0) ≡ 0
      → blocks_for ninodes + 2 ≤ size
      → size < uint_mod
      → blocks_for ninodes + 1 + 11 * length ops ≤ size
      → IsBounded ops
      → Returns
          (λ answers _. answers ≡ (expect_ops (blocks_for ninodes * 64) no_files ops).0)
          (serve ninodes ops s)
  serve-expect_ops ninodes ops s blank fits small enough bounded =
      Returns-and_then _ (treedisk_create-IsFs arr ninodes s blank fits small) λ _ t f.
        run_ops-IsFs (blocks_for ninodes) ops no_files t
          (IsFs-less (11 * length ops) (omega (arith, enough)) f) bounded
