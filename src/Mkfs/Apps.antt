-- ===== src/Mkfs/Apps.antt =====
-- tools/mkfs.c: the loop over the programs, each of which gets an inode and an entry of /bin.
use egos.Base.{ℕ, suc, ◌+◌, ◌*◌, ◌/◌, ◌<◌, ◌≡◌, refl, ◌∙◌, arith, ◌++◌, length, lt→ltb}
use egos.FileSystem.Block.{uint_mod}
use egos.FileSystem.Run.{Returns, returns, Returns-and_then}
use egos.FileSystem.Files.{Files}
use egos.FileSystem.Ramdisk.{Disk}
use egos.Servers.Directory.{dir_entry}
use egos.Mkfs.{Bytes, HostFile, Mkfs, load_file, app_name, write_elf}
use egos.Mkfs.Bytes.{HasBytes}
use egos.Mkfs.Store.{
  Holds, Writing, Writing-byte, Writing-none, write_blocks_lem, KeepsBelow, EmptyFrom,
  Writing-KeepsBelow, Writing-EmptyFrom,
}

-- The blocks of a file.
abbrev pub blocks_of : HostFile → ℕ
blocks_of app = (app.st_size + 511) / 512

-- A size, and bytes.
abbrev pub IsHostFile : HostFile → Type 0
IsHostFile app = (app.st_size < uint_mod) × ((k : ℕ) → k < app.st_size → app.contents k < 256)

HasBytes-Writing :
    (files files' : Files) (ino : ℕ) (inode : Bytes) (app : HostFile)
    → IsHostFile app
    → Writing files files' ino (blocks_of app) (load_file app inode)
    → HasBytes app.st_size app.contents (files' ino)
HasBytes-Writing files files' ino inode app is_file w = (
  w.nblocks,
  λ x lt.
      Writing-byte files files' ino (blocks_of app) (load_file app inode) x w (omega (arith, lt))
        (λ j le.
          rw (lt→ltb j app.st_size (omega (arith, le, lt))) (is_file.1 j (omega (arith, le, lt))))
      ∙ rw (lt→ltb x app.st_size lt) refl,
)

-- What a program adds.
abbrev pub Adds : ℕ → Files → HostFile → Mkfs → Mkfs → Disk → Type 0
Adds room files app m m' t =
    (files' : Files) × Holds room files' t
    × (m'.app_ino ≡ suc m.app_ino)
    × (m'.bin_dir ≡ m.bin_dir ++ dir_entry (app_name app) m.app_ino)
    × HasBytes app.st_size app.contents (files' m.app_ino)
    × KeepsBelow m.app_ino files files'
    × EmptyFrom (suc m.app_ino) files'

pub write_elf_lem :
    (room : ℕ) (files : Files) (app : HostFile) (m : Mkfs) (fs : Disk)
    → Holds (11 * blocks_of app + room) files fs
    → m.app_ino < 128
    → IsHostFile app
    → length (m.bin_dir ++ dir_entry (app_name app) m.app_ino) < 256
    → EmptyFrom m.app_ino files
    → Returns (Adds room files app m) (write_elf app m fs)
unfolding write_elf
write_elf_lem room files app m fs holds lt is_file short empty =
    let bytes = load_file app m.inode in
    let test = lt→ltb _ 256 short in
    Returns-and_then _
      (write_blocks_lem files m.app_ino app.st_size bytes lt is_file.0 (app.st_size + 1) 0
        (blocks_of app) room files fs
        (Writing-none files m.app_ino bytes (empty m.app_ino (omega arith))) (omega arith)
        (omega arith) holds)
      λ a t (files', w, holds'). rw test (
        returns (
          files',
          holds',
          omega arith,
          refl,
          HasBytes-Writing files files' m.app_ino m.inode app is_file w,
          Writing-KeepsBelow files files' m.app_ino _ bytes w,
          Writing-EmptyFrom files files' m.app_ino _ bytes w empty,
        ))
