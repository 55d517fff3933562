-- ===== src/FileSystem/Ramdisk.antt =====
-- tools/mkfs.c: the inode store on the 2MB array `fs`, on which mkfs builds the file system.
use egos.Base.{ℕ, refl, ltb, lt→ltb, update, if◌then◌else◌}
use egos.FileSystem.Block.{Block, fs_disk_blocks}
use egos.FileSystem.Run.{Cmd, panicked, ok, panic}
use egos.FileSystem.Store.{InodeStore, IsArray}

-- The array `fs`, block by block.
abbrev pub Disk : Type 0
Disk = ℕ → Block

pub getsize : ℕ → Cmd Disk ℕ
getsize ino fs = ok fs_disk_blocks fs

-- assert(0)
pub setsize : ℕ → ℕ → Cmd Disk ℕ
setsize ino newsize = panicked

-- A copy from beyond the array has no meaning in C.
pub ramread : ℕ → ℕ → Cmd Disk Block
ramread ino offset fs = if ltb offset fs_disk_blocks then ok (fs offset) fs else panic fs

pub ramwrite : ℕ → ℕ → Block → Cmd Disk (Unit {0})
ramwrite ino offset block fs =
    if ltb offset fs_disk_blocks then ok tt (update fs offset block) else panic fs

pub ramdisk : InodeStore Disk
unfolding getsize setsize ramread ramwrite
ramdisk = record { getsize = getsize; setsize = setsize; read = ramread; write = ramwrite }

-- Each of its inodes is the whole array.
unfoldable pub ramdisk_array : (ino : ℕ) → IsArray ramdisk ino
unfolding ramdisk getsize ramread ramwrite
ramdisk_array ino = record {
  size = fs_disk_blocks;
  contents = λ fs. fs;
  put = λ fs n b. update fs n b;
  getsize_ok = λ fs. refl;
  read_ok = λ fs n lt. rw (lt→ltb n fs_disk_blocks lt);
  write_ok = λ fs n b lt. rw (lt→ltb n fs_disk_blocks lt);
  contents_put = λ fs n b. refl;
}
