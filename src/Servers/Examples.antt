-- ===== src/Servers/Examples.antt =====
-- apps/system: the servers on a small disk and table.
use egos.Base.{ℕ, ◌≡◌, refl, arith, update}
use egos.FileSystem.Block.{Block, null_block}
use egos.FileSystem.Run.{Returns, ok, state_of, state_of_lem}
use egos.FileSystem.Files.{no_files, write_at, block_of, write_block}
use egos.FileSystem.Treedisk.{treedisk_create, treedisk_write}
use egos.FileSystem.Treedisk.Files.Refines.{IsFs}
use egos.FileSystem.Treedisk.Files.Correct.{treedisk_write-IsFs}
use egos.FileSystem.Treedisk.Files.Fresh.{treedisk_create-IsFs}
use egos.Servers.File.{
  EarthDisk, IsDisk, disk, disk-IsArray, file_system, file_read, file_read-block_of,
}

abbrev Blocks : Type 0
Blocks = ℕ → Block

abbrev earth : EarthDisk Blocks
earth = record { disk_read = λ n d. ok (d n) d; disk_write = λ n b d. ok tt (update d n b) }

abbrev earth-IsDisk : IsDisk earth
earth-IsDisk = record {
  blocks = λ d. d;
  put = λ d n b. update d n b;
  read_ok = λ d n lt. refl;
  write_ok = λ d n b lt. refl;
  blocks_put = λ d n b. refl;
}

abbrev blank : Blocks
blank n = null_block

-- A new file system on the blank disk, and a file in it.
created :
    Returns
      (λ _ t. IsFs (disk-IsArray earth-IsDisk 0) 1 4094 no_files t)
      (treedisk_create (disk earth) 0 40 blank)
unfolding disk-IsArray
created =
    treedisk_create-IsFs (disk-IsArray earth-IsDisk 0) 40 blank refl (omega arith) (omega arith)

abbrev sevens : Block
sevens i = 7

long_file :
    Returns
      (λ _ t. IsFs (disk-IsArray earth-IsDisk 0) 1 4083 (write_at no_files 3 130 sevens) t)
      (treedisk_write (disk earth) 0 3 130 sevens (state_of created))
long_file =
    treedisk_write-IsFs (disk-IsArray earth-IsDisk 0) 1 4083 3 130 sevens no_files
      (state_of created) (state_of_lem created) (omega arith) (omega arith)

file_read-block_of_example :
    file_read (file_system earth) null_block 3 130 (state_of long_file)
    ≡ ok (0, sevens) (state_of long_file)
unfolding block_of write_block
file_read-block_of_example =
    file_read-block_of earth-IsDisk 1 4083 3 130 null_block (write_at no_files 3 130 sevens)
      (state_of long_file) (state_of_lem long_file)
