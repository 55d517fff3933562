-- ===== src/FileSystem/Treedisk/Reading.antt =====
-- library/file/file1.c: the words of an inode on the disk, and the bound of its levels.
use egos.Base.{ℕ, ◌+◌, ◌-◌, ◌*◌, ◌/◌, ◌%◌, ◌≤◌, Bool, ltb, arith}
use egos.FileSystem.Block.{
  Block, n_inodeblocks, root_word, nblocks_word, inodes_per_block, uint_mod,
}
use egos.FileSystem.Treedisk.{nlevels_of}
use egos.FileSystem.Treedisk.Levels.{levels_for-bound}

pub nlevels_of-bound : (nblocks : ℕ) → nlevels_of nblocks ≤ 5
unfolding nlevels_of
nlevels_of-bound nblocks = ground (arith, levels_for-bound (nblocks - 1))

-- The inode's words on the disk.
abbrev pub inode_word : (ℕ → Block) → ℕ → ℕ → ℕ
inode_word d ino k = d (1 + ino / inodes_per_block) k

abbrev pub file_nblocks : (ℕ → Block) → ℕ → ℕ
file_nblocks d ino = inode_word d ino (nblocks_word (ino % inodes_per_block))

abbrev pub file_root : (ℕ → Block) → ℕ → ℕ
file_root d ino = inode_word d ino (root_word (ino % inodes_per_block))

-- The inode exists.
abbrev pub is_inode : (ℕ → Block) → ℕ → Bool
is_inode d ino = ltb ino (n_inodeblocks (d 0) * inodes_per_block % uint_mod)
