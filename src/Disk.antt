-- ===== src/Disk.antt =====
-- earth/dev_disk.c: the driver of the disk, an SD card on an SPI bus or the ROM of the board.
pub mod Spi
pub mod Sd
pub mod Card
pub mod Exchange
pub mod Transfer
pub mod Blocks
pub mod Device
mod Examples
