-- ===== src/FileSystem/Examples.antt =====
-- library/file/file1.c on the array of tools/mkfs.c.
use egos.Base.{ℕ, ◌≤◌, ◌<◌, ◌≡◌, refl, [], ◌∷◌, update, arith, ◌^◌}
use egos.FileSystem.Block.{null_block}
use egos.FileSystem.Run.{Returns, ok}
use egos.FileSystem.Ramdisk.{Disk, ramdisk, ramdisk_array}
use egos.FileSystem.Mydisk.{write_read, mydisk-write_read}
use egos.FileSystem.Treedisk.{Snapshot, levels_for, alloc_block, treedisk_create}
use egos.FileSystem.Treedisk.Levels.{levels_for-least}
use egos.FileSystem.Treedisk.FreeList.{slots, end, link}
use egos.FileSystem.Treedisk.Alloc.{IsFree, Taken, alloc_block-pop}
use egos.FileSystem.Treedisk.Create.{IsFresh, treedisk_create-IsFresh, treedisk_create-keeps}

abbrev blank : Disk
blank i = null_block

-- An image as that of mkfs: 40 inodes in one inode block.
treedisk_create-IsFresh_example :
    Returns (λ _ t. IsFresh (ramdisk_array 0) 1 t) (treedisk_create ramdisk 0 40 blank)
unfolding ramdisk_array
treedisk_create-IsFresh_example =
    treedisk_create-IsFresh (ramdisk_array 0) 40 blank refl (omega arith) (omega arith)

-- Block 3 lists the free blocks 9 and 3.
abbrev used : Disk
used = update (update blank 0 (update (update null_block 0 1) 1 3)) 3 (update null_block 1 9)

used-kept : treedisk_create ramdisk 0 40 used ≡ ok tt used
unfolding ramdisk_array
used-kept =
    treedisk_create-keeps (ramdisk_array 0) 40 used (λ e. absurd (omega (arith, e))) (omega arith)
      (omega arith)

abbrev snapshot : Snapshot
snapshot = record { superblock = used 0; inodeblock = null_block; inode_blockno = 1; inode = 0 }

snapshot-IsFree : IsFree (ramdisk_array 0) snapshot used (9 ∷ 3 ∷ [])
unfolding slots ramdisk_array
snapshot-IsFree = record {
  chain = link {rest = []} (λ e. absurd (omega (arith, e))) end refl;
  on_disk = refl;
  distinct = (refl, (refl, tt));
  in_range = (omega arith, omega arith, (omega arith, omega arith, tt));
}

alloc_block-pop_example :
    Returns (Taken (ramdisk_array 0) 9 (3 ∷ []) snapshot used) (alloc_block ramdisk 0 snapshot used)
unfolding ramdisk_array
alloc_block-pop_example = alloc_block-pop (ramdisk_array 0) snapshot used 9 (3 ∷ []) snapshot-IsFree

levels_for-least_example :
    (300 < 128 ^ levels_for 300) × ((k : ℕ) → k < levels_for 300 → 128 ^ k ≤ 300)
levels_for-least_example = levels_for-least 300 (omega arith)

mydisk-write_read_example :
    write_read (ramdisk_array 0) 1 5 null_block 0 5 used
    ≡ ok null_block (update used 133 null_block)
unfolding ramdisk_array
mydisk-write_read_example =
    mydisk-write_read (ramdisk_array 0) 1 5 0 5 null_block used (omega arith) (omega arith)
      (omega arith) (omega arith) (omega arith)
