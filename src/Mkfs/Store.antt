-- ===== src/Mkfs/Store.antt =====
-- tools/mkfs.c: writing blocks and texts to inodes of the new file system.
use egos.Base.{
  ℕ, zero, suc, ◌+◌, ◌*◌, ◌/◌, ◌%◌, ◌≤◌, ◌<◌, ◌≡◌, refl, ap, ◌∙◌, subst, true, false, arith,
  Bool-cases, inl, inr, ==_refl, ◌==◌, ltb, fun_ext,
}
use egos.FileSystem.Block.{uint_mod}
use egos.FileSystem.Run.{◌>>◌, Run, Returns, returns, Returns-and_then, Returns-weaken, ok}
use egos.FileSystem.Files.{
  File, Files, block_of, write_at, block_of-write_block, block_of-write_block_other,
  nblocks-write_block_beyond,
}
use egos.FileSystem.Ramdisk.{Disk, ramdisk_array}
use egos.FileSystem.Treedisk.{treedisk_init}
use egos.FileSystem.Treedisk.Files.Refines.{IsFs}
use egos.FileSystem.Treedisk.Files.Correct.{treedisk_write-IsFs}
use egos.Mkfs.{Bytes, to_block, filesys, ignored, write_inode, write_blocks}
use egos.Mkfs.Bytes.{byte_of, file_byte, byte_of-to_block}

-- The array holds these files in 128 inodes, with so many blocks free.
abbrev pub Holds : ℕ → Files → Disk → Type 0
Holds room files fs = IsFs (ramdisk_array 0) 2 room files fs

ignored-Returns :
    {S A : Type 0} {P : A → S → Type 0} {Q : Unit {0} → S → Type 0} {r : Run S A}
    → Returns P r
    → ((a : A) (t : S) → P a t → Q tt t)
    → Returns Q (ignored r)
ignored-Returns (returns p) next = returns (next _ _ p)

pub write_inode_lem :
    (room ino off : ℕ) (bytes : Bytes) (files : Files) (fs : Disk)
    → Holds (11 + room) files fs
    → ino < 128
    → off + 1 < uint_mod
    → Returns
        (λ _ t. Holds room (write_at files ino off (to_block bytes)) t)
        (write_inode ino off bytes fs)
unfolding filesys treedisk_init
write_inode_lem room ino off bytes files fs holds lt small =
    ignored-Returns
      (treedisk_write-IsFs (ramdisk_array 0) 2 room ino off (to_block bytes) files fs holds
        (omega (arith, lt)) small)
      (λ a t h. h)

-- The first b blocks of the file are these, and the other files are as before.
pub record Writing (before files : Files) (ino b : ℕ) (bytes : Bytes) : Type 0 where
  pub others : (j : ℕ) → (j == ino) ≡ false → files j ≡ before j
  pub nblocks : (files ino).nblocks ≡ b
  pub blocks : (o : ℕ) → o < b → block_of (files ino) o ≡ to_block (λ k. bytes (o * 512 + k))

pub Writing-suc :
    (before files : Files) (ino b : ℕ) (bytes : Bytes)
    → Writing before files ino b bytes
    → Writing before (write_at files ino b (to_block (λ k. bytes (b * 512 + k)))) ino (suc b) bytes
Writing-suc before files ino b bytes w =
    let here = ==_refl ino in
    record {
      others = λ j other. rw other (w.others j other);
      nblocks =
          rw here
            (nblocks-write_block_beyond (files ino) b _ (omega (arith, w.nblocks)) ∙ omega arith);
      blocks = λ o lt. rw here (elim (Bool-cases (o == b)) [
        | inl last ↦
            let same : o ≡ b = ground arith in rw same (block_of-write_block (files ino) b _)
        | inr earlier ↦
            block_of-write_block_other (files ino) b o _ earlier ∙ w.blocks o (ground arith)
      ]);
    }

write_blocks-next :
    (fuel ino b size : ℕ) (bytes : Bytes) (fs : Disk)
    → ltb (b * 512) size ≡ true
    → write_blocks (suc fuel) ino b size bytes fs
      ≡ (write_inode ino b (λ k. bytes (b * 512 + k)) >> write_blocks fuel ino (suc b) size bytes)
          fs
unfolding write_blocks
write_blocks-next fuel ino b size bytes fs more = rw (more, write_blocks) refl

write_blocks-ends :
    (fuel ino b size : ℕ) (bytes : Bytes) (fs : Disk)
    → ltb (b * 512) size ≡ false
    → write_blocks (suc fuel) ino b size bytes fs ≡ ok tt fs
unfolding write_blocks
write_blocks-ends fuel ino b size bytes fs ends = rw (ends, write_blocks) refl

module _ (before : Files) (ino size : ℕ) (bytes : Bytes) (lt : ino < 128)
    (small : size < uint_mod) where
  -- The blocks that are still to be written take 11 free blocks each.
  pub write_blocks_lem :
      (fuel b left room : ℕ) (files : Files) (fs : Disk)
      → Writing before files ino b bytes
      → b + left ≡ (size + 511) / 512
      → left < fuel
      → Holds (11 * left + room) files fs
      → Returns
          (λ _ t.
            (files' : Files) × Writing before files' ino ((size + 511) / 512) bytes
            × Holds room files' t)
          (write_blocks fuel ino b size bytes fs)
  write_blocks_lem zero b left room files fs w e enough holds = absurd (omega (arith, enough))
  write_blocks_lem (suc fuel) b zero room files fs w e enough holds =
      let ends : ltb (b * 512) size ≡ false = ground (arith, e) in
      let all : b ≡ (size + 511) / 512 = omega (arith, e) in
      rw (write_blocks-ends fuel ino b size bytes fs ends) (
        returns (
          files,
          subst (λ b. Writing before files ino b bytes) all w,
          subst (λ n. Holds n files fs) (omega arith) holds,
        ))
  write_blocks_lem (suc fuel) b (suc left) room files fs w e enough holds =
      let more : ltb (b * 512) size ≡ true = ground (arith, e) in
      let cost : 11 * suc left + room ≡ 11 + (11 * left + room) = omega arith in
      rw (write_blocks-next fuel ino b size bytes fs more) (
        Returns-and_then _
          (write_inode_lem (11 * left + room) ino b (λ k. bytes (b * 512 + k)) files fs
            (subst (λ n. Holds n files fs) cost holds) lt (omega (arith, e, small)))
          λ a t holds'.
            write_blocks_lem fuel (suc b) left room _ t (Writing-suc before files ino b bytes w)
              (omega (arith, e)) (omega (arith, enough)) holds')

-- Below `ino` the files are as before.
abbrev pub KeepsBelow : ℕ → Files → Files → Type 0
KeepsBelow ino files files' = (j : ℕ) → j < ino → files' j ≡ files j

abbrev pub EmptyFrom : ℕ → Files → Type 0
EmptyFrom ino files = (j : ℕ) → ino ≤ j → (files j).nblocks ≡ 0

pub Writing-none :
    (files : Files) (ino : ℕ) (bytes : Bytes)
    → (files ino).nblocks ≡ 0
    → Writing files files ino 0 bytes
Writing-none files ino bytes empty = record {
  others = λ j other. refl;
  nblocks = empty;
  blocks = λ o lt. absurd (omega (arith, lt));
}

pub Writing-KeepsBelow :
    (files files' : Files) (ino b : ℕ) (bytes : Bytes)
    → Writing files files' ino b bytes
    → KeepsBelow ino files files'
Writing-KeepsBelow files files' ino b bytes w j lt = w.others j (ground (arith, lt))

pub Writing-EmptyFrom :
    (files files' : Files) (ino b : ℕ) (bytes : Bytes)
    → Writing files files' ino b bytes
    → EmptyFrom ino files
    → EmptyFrom (suc ino) files'
Writing-EmptyFrom files files' ino b bytes w empty j le =
    ap (λ (f : File). f.nblocks) (w.others j (ground (arith, le))) ∙ empty j (omega (arith, le))

-- A byte of what has been written.
pub Writing-byte :
    (before files : Files) (ino b : ℕ) (bytes : Bytes) (x : ℕ)
    → Writing before files ino b bytes
    → x / 512 < b
    → ((j : ℕ) → j ≤ x → bytes j < 256)
    → file_byte (files ino) x ≡ bytes x
Writing-byte before files ino b bytes x w lt chars =
    let at : x / 512 * 512 + x % 512 ≡ x = omega arith in
    ap (λ block. byte_of block (x % 512)) (w.blocks (x / 512) lt)
    ∙ byte_of-to_block (λ k. bytes (x / 512 * 512 + k)) (x % 512)
        (λ j le. chars (x / 512 * 512 + j) (omega (arith, le)))
    ∙ ap bytes at

-- One block.
pub write_first_lem :
    (room ino : ℕ) (bytes : Bytes) (files : Files) (fs : Disk)
    → Holds (11 + room) files fs
    → ino < 128
    → (files ino).nblocks ≡ 0
    → Returns
        (λ _ t. (files' : Files) × Writing files files' ino 1 bytes × Holds room files' t)
        (write_inode ino 0 bytes fs)
write_first_lem room ino bytes files fs holds lt empty =
    let same : (λ k. bytes (0 * 512 + k)) ≡ bytes = fun_ext λ k. ap bytes (omega arith) in
    Returns-weaken (write_inode_lem room ino 0 bytes files fs holds lt (omega arith)) λ _ t holds'.
      (
        write_at files ino 0 (to_block bytes),
        subst (λ b. Writing files (write_at files ino 0 (to_block b)) ino 1 bytes) same
            (Writing-suc files files ino 0 bytes (Writing-none files ino bytes empty)),
        holds',
      )
