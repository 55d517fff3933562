-- ===== src/FileSystem/Files.antt =====
-- library/file/inode.h: what an inode store promises, whatever its layout on the disk is: every inode
-- is a file, an array of blocks that grows with the writes to it.
use egos.Base.{
  ℕ, ◌+◌, ◌==◌, ◌≡◌, ◌≤◌, ◌<◌, ltb, if◌then◌else◌, update, true, false, refl, arith, inl, inr,
  Bool-cases, ==_refl,
}
use egos.FileSystem.Block.{Block, null_block}

pub record File : Type 0 where
  pub nblocks : ℕ
  pub blocks : ℕ → Block

abbrev pub Files : Type 0
Files = ℕ → File

abbrev pub no_files : Files
no_files ino = record { nblocks = 0; blocks = λ _. null_block }

-- Null bytes from the end on.
unfoldable pub block_of : File → ℕ → Block
block_of f offset = if ltb offset f.nblocks then f.blocks offset else null_block

-- A write from the end on makes the file longer; the blocks in between are null bytes.
unfoldable pub write_block : File → ℕ → Block → File
unfolding block_of
write_block f offset block = record {
  nblocks = if ltb offset f.nblocks then f.nblocks else offset + 1;
  blocks = λ o. if o == offset then block else block_of f o;
}

abbrev pub write_at : Files → ℕ → ℕ → Block → Files
write_at fs ino offset block = update fs ino (write_block (fs ino) offset block)

pub block_of-write_block :
    (f : File) (offset : ℕ) (block : Block) → block_of (write_block f offset block) offset ≡ block
unfolding block_of write_block
block_of-write_block f offset block =
    let inside : ltb offset (if ltb offset f.nblocks then f.nblocks else offset + 1) ≡ true =
      ground arith in
    rw (inside, ==_refl offset) refl

pub block_of-write_block_other :
    (f : File) (offset o : ℕ) (block : Block)
    → (o == offset) ≡ false
    → block_of (write_block f offset block) o ≡ block_of f o
unfolding block_of write_block
block_of-write_block_other f offset o block other = elim (Bool-cases (ltb o f.nblocks)) [
  | inl inside ↦
      let still : ltb o (if ltb offset f.nblocks then f.nblocks else offset + 1) ≡ true =
        ground arith in
      rw (still, other) refl
  | inr beyond ↦
      elim (Bool-cases (ltb o (if ltb offset f.nblocks then f.nblocks else offset + 1))) [
        | inl between ↦ rw (between, other) refl
        | inr behind ↦ rw (behind, beyond) refl
      ]
]

pub nblocks-write_block_beyond :
    (f : File) (offset : ℕ) (block : Block)
    → f.nblocks ≤ offset
    → (write_block f offset block).nblocks ≡ offset + 1
unfolding write_block
nblocks-write_block_beyond f offset block le = ground (arith, le)

pub nblocks-write_block_inside :
    (f : File) (offset : ℕ) (block : Block)
    → offset < f.nblocks
    → (write_block f offset block).nblocks ≡ f.nblocks
unfolding write_block
nblocks-write_block_inside f offset block lt = ground (arith, lt)
