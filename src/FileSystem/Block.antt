-- ===== src/FileSystem/Block.antt =====
-- library/file/disk.h and file1.h: the contents of a block. A 512-byte block is the array of its
-- 128 little-endian 32-bit words; the members of `union treedisk_block` are views of those words.
use egos.Base.{ℕ, ◌+◌, ◌*◌, ◌/◌}

abbrev pub block_size : ℕ
block_size = 512

-- sizeof(block_no), and sizeof(struct treedisk_inode): two block numbers.
abbrev pub block_no_size : ℕ
block_no_size = 4

abbrev pub inode_size : ℕ
inode_size = 2 * block_no_size

abbrev pub refs_per_block : ℕ
refs_per_block = block_size / block_no_size

abbrev pub inodes_per_block : ℕ
inodes_per_block = block_size / inode_size

abbrev pub fs_disk_blocks : ℕ
fs_disk_blocks = 2 * 1024 * 1024 / block_size

-- The modulus of `uint` arithmetic.
abbrev pub uint_mod : ℕ
uint_mod = 4294967296

-- Word i of the block, for i < 128.
abbrev pub Block : Type 0
Block = ℕ → ℕ

-- A block filled with null bytes.
abbrev pub null_block : Block
null_block i = 0

-- struct treedisk_superblock: words 0 and 1.
abbrev pub n_inodeblocks : Block → ℕ
n_inodeblocks b = b 0

abbrev pub free_list : Block → ℕ
free_list b = b 1

-- struct treedisk_inode number k of an inode block: words 2k and 2k + 1.
abbrev pub root_word : ℕ → ℕ
root_word k = 2 * k

abbrev pub nblocks_word : ℕ → ℕ
nblocks_word k = 2 * k + 1
