-- ===== src/FileSystem.antt =====
-- library/file: blocks, inode stores, and the tree file system on top of one inode.
pub mod Block
pub mod Run
pub mod Store
pub mod Session
pub mod Files
pub mod Treedisk
pub mod Ramdisk
pub mod Mydisk
mod Examples
