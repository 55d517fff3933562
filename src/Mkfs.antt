-- ===== src/Mkfs.antt =====
-- tools/mkfs.c: building the file system of the disk image. The programs that a directory of the
-- host holds, and the memory behind the array `bin_dir`, are arguments.
pub mod Bytes
pub mod Store
pub mod Texts
pub mod Apps
pub mod Loop
pub mod Image
pub mod Binaries
mod Examples
use egos.Base.{
  ℕ, zero, suc, ◌+◌, ◌-◌, ◌*◌, ◌/◌, ◌%◌, ◌^◌, Bool, true, false, ◌&&◌, ◌||◌, ◌==◌, leb, ltb,
  if◌then◌else◌, List, [], ◌∷◌, ◌++◌, length,
}
use egos.FileSystem.Block.{Block, block_size}
use egos.FileSystem.Run.{Run, Cmd, ok, fail, panic, pure, panicked, ◌>>=◌, ◌>>◌}
use egos.FileSystem.Store.{InodeStore}
use egos.FileSystem.Ramdisk.{Disk, ramdisk}
use egos.FileSystem.Treedisk.{treedisk_create, treedisk_init}
use egos.Servers.Directory.{dir_entry}

-- The bytes of a buffer.
abbrev pub Bytes : Type 0
Bytes = ℕ → ℕ

-- The words of a block of bytes.
abbrev pub to_block : Bytes → Block
to_block bytes i =
    bytes (4 * i)
    + 256 * bytes (4 * i + 1)
    + 65536 * bytes (4 * i + 2)
    + 16777216 * bytes (4 * i + 3)

-- Character k of a string, with null bytes behind it.
abbrev pub char_at : List ℕ → ℕ → ℕ
char_at [] k = 0
char_at (c ∷ cs) zero = c
char_at (c ∷ cs) (suc k) = char_at cs k

abbrev pub ninodes : ℕ
ninodes = 128

-- The number of the inode for /bin: there are six texts before it.
abbrev pub bin_dir_inode : ℕ
bin_dir_inode = 6

-- A file of the host: its name, its size and its contents.
pub record HostFile : Type 0 where
  pub d_name : List ℕ
  pub st_size : ℕ
  pub contents : Bytes

-- load_file: the rest of the buffer stays.
abbrev pub load_file : HostFile → Bytes → Bytes
load_file file dst k = if ltb k file.st_size then file.contents k else dst k

-- strncpy of BLOCK_SIZE bytes.
abbrev pub strncpy : Bytes → List ℕ → Bytes
strncpy dst text k = if ltb k block_size then char_at text k else dst k

starts_with : List ℕ → List ℕ → Bool
starts_with [] cs = true
starts_with (p ∷ ps) [] = false
starts_with (p ∷ ps) (c ∷ cs) = (p == c) && starts_with ps cs

contains : List ℕ → List ℕ → Bool
unfolding starts_with
contains pattern_ [] = starts_with pattern_ []
contains pattern_ (c ∷ cs) = starts_with pattern_ (c ∷ cs) || contains pattern_ cs

-- strstr(ep->d_name, ".elf")
pub is_elf : List ℕ → Bool
unfolding contains
is_elf name = contains (46 ∷ 101 ∷ 108 ∷ 102 ∷ []) name

abbrev pub take : ℕ → List ℕ → List ℕ
take zero cs = []
take (suc n) [] = []
take (suc n) (c ∷ cs) = c ∷ take n cs

-- ep->d_name[strlen(ep->d_name) - 4] = 0
abbrev pub app_name : HostFile → List ℕ
app_name file = take (length file.d_name - 4) file.d_name

-- The file system in `fs`.
unfoldable pub filesys : InodeStore Disk
filesys = treedisk_init ramdisk 0

-- A call whose result is not looked at.
abbrev pub ignored : {S A : Type 0} → Run S A → Run S (Unit {0})
ignored (ok a t) = ok tt t
ignored (fail t) = ok tt t
ignored (panic t) = panic t

abbrev pub write_inode : ℕ → ℕ → Bytes → Cmd Disk (Unit {0})
write_inode ino offset bytes fs = ignored (filesys.write ino offset (to_block bytes) fs)

-- The loop over the texts from inode `ino` on, with the buffer `inode`.
unfoldable pub write_contents : List (List ℕ) → ℕ → Bytes → Cmd Disk Bytes
write_contents [] ino inode = pure inode
write_contents (text ∷ texts) ino inode = do
  let copied = strncpy inode text
  write_inode ino 0 copied
  write_contents texts (suc ino) copied

-- The loop over the blocks of a file, with fuel.
unfoldable pub write_blocks : ℕ → ℕ → ℕ → ℕ → Bytes → Cmd Disk (Unit {0})
write_blocks zero ino b file_size inode = panicked
write_blocks (suc fuel) ino b file_size inode = elim (ltb (b * block_size) file_size) [
  | true ↦
      write_inode ino b (λ k. inode (b * block_size + k))
      >> write_blocks fuel ino (suc b) file_size inode
  | false ↦ pure tt
]

-- `inode`, `app_ino` and `bin_dir`.
pub record Mkfs : Type 0 where
  pub inode : Bytes
  pub app_ino : ℕ
  pub bin_dir : List ℕ

-- strcat to bin_dir[256]. A write beyond the array has no meaning in C.
abbrev pub strcat : List ℕ → List ℕ → Cmd Disk (List ℕ)
strcat bin_dir entry =
    if ltb (length (bin_dir ++ entry)) 256 then pure (bin_dir ++ entry) else panicked

unfoldable pub write_elf : HostFile → Mkfs → Cmd Disk Mkfs
write_elf app m = do
  let inode = load_file app m.inode
  write_blocks (app.st_size + 1) m.app_ino 0 app.st_size inode
  bin_dir ← strcat m.bin_dir (dir_entry (app_name app) m.app_ino)
  pure (record { inode = inode; app_ino = m.app_ino + 1; bin_dir = bin_dir })

unfoldable pub write_app : HostFile → Mkfs → Cmd Disk Mkfs
write_app app m = if is_elf app.d_name then write_elf app m else pure m

-- The loop over the directory of the host.
unfoldable pub write_apps : List HostFile → Mkfs → Cmd Disk Mkfs
write_apps [] m = pure m
write_apps (app ∷ apps) m = write_app app m >>= write_apps apps

-- The bytes from bin_dir on: the array has 256.
abbrev pub bin_bytes : List ℕ → Bytes → Bytes
bin_bytes bin_dir beyond k = if ltb k 256 then char_at bin_dir k else beyond k

-- An assert(... >= 0).
abbrev pub asserted : {S A : Type 0} → Run S A → Run S A
asserted (ok a t) = ok a t
asserted (fail t) = panic t
asserted (panic t) = panic t

-- The part of `main` that makes the file system; it ends with the whole /bin directory.
unfoldable pub mkfs : List (List ℕ) → List ℕ → List HostFile → Bytes → Bytes → Cmd Disk (List ℕ)
mkfs contents bin_dir apps inode beyond = do
  (λ fs. asserted (treedisk_create ramdisk 0 ninodes fs))
  inode ← write_contents contents 0 inode
  m ← write_apps apps (record { inode = inode; app_ino = bin_dir_inode + 1; bin_dir = bin_dir })
  write_inode bin_dir_inode 0 (bin_bytes m.bin_dir beyond)
  pure m.bin_dir

abbrev pub egos_bin_max_nbyte : ℕ
egos_bin_max_nbyte = 128 * 1024

abbrev pub size_2mb : ℕ
size_2mb = 2 * 1024 * 1024

-- The loop that loads the kernel and the servers into `exec`, from number i on.
unfoldable pub write_binaries : List HostFile → ℕ → Bytes → Bytes
write_binaries [] i exec = exec
write_binaries (file ∷ files) i exec =
    let at = i * egos_bin_max_nbyte in
    write_binaries files (suc i)
      (λ k. if leb at k && ltb k (at + file.st_size) then file.contents (k - at) else exec k)

-- Byte k of the file system.
abbrev pub fs_byte : Disk → Bytes
fs_byte fs k = fs (k / block_size) (k % block_size / 4) / 256 ^ (k % 4) % 256

-- disk.img, and bootROM.bin, which starts with the file at CPU_BIN_FILE.
unfoldable pub disk_image : Bytes → Disk → Bytes
disk_image exec fs k = if ltb k size_2mb then exec k else fs_byte fs (k - size_2mb)

unfoldable pub rom_image : Bytes → Bytes → Disk → Bytes
unfolding disk_image
rom_image vexriscv exec fs k =
    if ltb k (size_2mb * 2) then vexriscv k else disk_image exec fs (k - size_2mb * 2)
