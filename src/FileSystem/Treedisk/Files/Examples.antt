-- ===== src/FileSystem/Treedisk/Files/Examples.antt =====
-- library/file/file1.c: files on the array of tools/mkfs.c.
use egos.Base.{◌+◌, ltb, ◌&&◌, if◌then◌else◌, ◌≡◌, refl, [], ◌∷◌, update, arith, List}
use egos.FileSystem.Block.{Block, null_block}
use egos.FileSystem.Run.{Returns, ok, state_of, state_of_lem}
use egos.FileSystem.Ramdisk.{Disk, ramdisk, ramdisk_array}
use egos.FileSystem.Files.{no_files, block_of, write_block, write_at}
use egos.FileSystem.Session.{Op, read_op, write_op, got, done, refused, expect_ops}
use egos.FileSystem.Treedisk.{treedisk_read, treedisk_write}
use egos.FileSystem.Treedisk.FreeList.{slots, end, link}
use egos.FileSystem.Treedisk.Setup.{down, down-Distinct, down-InRange}
use egos.FileSystem.Treedisk.Files.Refines.{IsFs}
use egos.FileSystem.Treedisk.Files.Fresh.{empty-IsFs}
use egos.FileSystem.Treedisk.Files.Correct.{treedisk_write-IsFs}
use egos.FileSystem.Treedisk.Files.Read.{treedisk_read-block_of}
use egos.FileSystem.Treedisk.Files.Session.{serve, serve-expect_ops}

abbrev blank : Disk
blank i = null_block

abbrev sevens : Block
sevens i = 7

abbrev session : List Op
session = write_op 3 130 sevens ∷ read_op 3 130 ∷ read_op 3 5 ∷ read_op 3 131 ∷ read_op 64 0 ∷ []

-- 40 inodes take an inode block, which holds 64.
serve-expect_ops_example :
    Returns
      (λ answers _. answers ≡ done ∷ got sevens ∷ got null_block ∷ refused ∷ refused ∷ [])
      (serve (ramdisk_array 0) 40 session blank)
unfolding ramdisk_array expect_ops block_of write_block
serve-expect_ops_example =
    serve-expect_ops (ramdisk_array 0) 40 session blank refl (omega arith) (omega arith)
      (omega arith) (omega arith, tt)

-- Block 3 lists the blocks 4 to 13 and itself as free.
abbrev list_block : Block
list_block i = if ltb i 11 && ltb 0 i then i + 3 else 0

abbrev small_disk : Disk
small_disk = update (update blank 0 (update (update null_block 0 1) 1 3)) 3 list_block

small_disk-IsFs : IsFs (ramdisk_array 0) 1 11 no_files small_disk
unfolding slots ramdisk_array
small_disk-IsFs =
    empty-IsFs (ramdisk_array 0) 1 (down 3 11) small_disk (omega arith) (omega arith) refl
      (link {rest = []} (λ e. absurd (omega (arith, e))) end refl) (down-Distinct 3 11)
      (down-InRange 2 3 4096 11 (omega arith) (omega arith))
      (λ i pos le. let one : i ≡ 1 = omega (arith, pos, le) in rw one refl)

treedisk_write-IsFs_example :
    Returns
      (λ _ t. IsFs (ramdisk_array 0) 1 0 (write_at no_files 3 130 sevens) t)
      (treedisk_write ramdisk 0 3 130 sevens small_disk)
treedisk_write-IsFs_example =
    treedisk_write-IsFs (ramdisk_array 0) 1 0 3 130 sevens no_files small_disk small_disk-IsFs
      (omega arith) (omega arith)

-- The disk after the write.
long_file :
    Returns
      (λ _ t. IsFs (ramdisk_array 0) 1 0 (write_at no_files 3 130 sevens) t)
      (treedisk_write ramdisk 0 3 130 sevens small_disk)
long_file =
    treedisk_write-IsFs (ramdisk_array 0) 1 0 3 130 sevens no_files small_disk small_disk-IsFs
      (omega arith) (omega arith)

treedisk_read-block_of_example :
    treedisk_read ramdisk 0 3 130 (state_of long_file) ≡ ok sevens (state_of long_file)
unfolding block_of write_block
treedisk_read-block_of_example =
    treedisk_read-block_of (ramdisk_array 0) 1 0 3 130 (write_at no_files 3 130 sevens)
      (state_of long_file) (state_of_lem long_file)
