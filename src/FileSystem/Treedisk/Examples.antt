-- ===== src/FileSystem/Treedisk/Examples.antt =====
-- library/file/file1.c: a file of 200 blocks, all holes except for block 128.
use egos.Base.{◌≡◌, refl, update, arith, ◌==◌, if◌then◌else◌}
use egos.FileSystem.Block.{null_block}
use egos.FileSystem.Run.{ok}
use egos.FileSystem.Ramdisk.{Disk, ramdisk_array}
use egos.FileSystem.Treedisk.{find_log, log_rpb, log_shift_r, count_levels, levels_for, nlevels_of}
use egos.FileSystem.Treedisk.Overwrite.{IsWritten, write_read, treedisk-write_read}

-- Inode 0 has its root in block 5; slot 1 of that refers to block 9, and slot 0 of that to block 11.
abbrev sparse : Disk
sparse n i =
    if n == 0
    then (if i == 0 then 1 else 0)
    else if n == 1
    then (if i == 0 then 5 else if i == 1 then 200 else 0)
    else if n == 5
    then (if i == 1 then 9 else 0)
    else if n == 9
    then (if i == 0 then 11 else 0)
    else if n == 11
    then 7
    else 0

sparse-IsWritten : IsWritten (ramdisk_array 0) 0 128 11 sparse
unfolding ramdisk_array nlevels_of levels_for count_levels log_shift_r log_rpb find_log
sparse-IsWritten = record {
  known = refl;
  inside = omega arith;
  inode_below = omega arith;
  apart = λ e. absurd (omega (arith, e));
  path = (
    λ e. absurd (omega (arith, e)),
    omega arith,
    λ e. absurd (omega (arith, e)),
    (
      λ e. absurd (omega (arith, e)),
      omega arith,
      λ e. absurd (omega (arith, e)),
      (λ e. absurd (omega (arith, e)), omega arith, refl),
    ),
  );
  not_super = λ e. absurd (omega (arith, e));
}

sparse-overwritten :
    write_read (ramdisk_array 0) 0 128 null_block sparse
    ≡ ok null_block (update sparse 11 null_block)
unfolding ramdisk_array
sparse-overwritten =
    treedisk-write_read (ramdisk_array 0) 0 128 11 null_block sparse sparse-IsWritten
