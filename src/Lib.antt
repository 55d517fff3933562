-- ===== src/Lib.antt =====
-- egos-2000: a teaching operating system of about 2000 lines of C for RISC-V.
--
-- The earth layer drives the hardware; the grass layer is the kernel, which schedules processes and
-- passes messages between them; servers and user programs run above it. The kernel calls the earth
-- layer through `struct earth`, and the file system stacks inode stores on each other through
-- `struct inode_store`. Both are records here: Kernel/Earth and FileSystem/Store.
--
-- FileSystem. Block, Run and Store give the data that the layers share (library/file/disk.h,
--   file1.h, inode.h): a block is the array of its 128 words, and a command returns a value, fails
--   with -1, or panics, and leaves a state in each case. IsArray states what a layer relies on: an
--   inode of the store below reads and writes as an array of blocks. Treedisk is
--   library/file/file1.c, function by function and with its names; Levels, FreeList, Alloc, Setup,
--   Create and Overwrite below it prove what they are named for, Reading has the words of an inode,
--   and Access the rules for reads and writes.
--   FileSystem/Files and FileSystem/Session are what a client of an inode store expects: files that
--   are arrays of blocks, and the answers to a list of reads and writes. Treedisk/Files shows that
--   the tree file system gives these answers: every block of a file has a key, its place in the
--   tree, and no block of the free list has one. Shift, Attach, Store and Raise are on the disk
--   alone; State, Grow, Kept, Link, Descend, Write and WriteLevels follow `treedisk_write`.
--   Ramdisk is the store of tools/mkfs.c, with `ramdisk_array` as its proof of IsArray, and Mydisk
--   is library/file/file0.c.
-- Disk. earth/dev_disk.c: Spi has the bus, Sd the commands to the card and the driver's functions.
--   The hardware is a parameter: Card says what the driver relies on, a controller that exchanges
--   each byte within `fuel` reads of its status, and a card that follows the protocol of SD cards
--   in SPI mode. Exchange, Transfer and Blocks go from bytes to ranges of blocks. The memory that
--   a caller passes is the result, or the argument, as a list of blocks.
-- Kernel. Process is grass/process.h, grass/process.c and library/syscall/syscall.h. Messages and
--   Scheduler are grass/kernel.c: `proc_try_send`, `proc_try_recv` and `proc_try_syscall` in the
--   first, the handlers, `proc_yield` and `kernel_entry` in the second. `Option` is FATAL: none
--   stops the kernel. A process is passed by its index in the table. The CSRs mhartid, mcause and
--   mepc and the registers saved at the trap are arguments and results of `kernel_entry`. In
--   Messages, Rendezvous is about the entry that a send concerns, and Delivery about both ends of a
--   message. Quiet, Running, Yield and Traps follow the invariant of the table through a trap, RoundRobin and
--   Timer the order in which processes run.
-- Memory. earth/cpu_mmu.c: the allocation of pages and the software TLB, with PageTable for the
--   identity map. Physical memory is an array of pages of 1024 words. Isolation is about switching
--   between processes; PageTable/Walk has the Sv32 walk of the hardware, and PageTable/Map what
--   it makes of the tables.
-- Loader. library/elf/elf.c, on the memory of Memory by bytes, with `soft_tlb_map` as mmu_map. A
--   reader is a function from the number of a block to its bytes. Pages and NewPage are about the
--   pages of the process, Segment, Round and Blocks about the loops over a segment, Program and
--   Segments about the program headers, Arguments and Loads about the pages behind them. The loops
--   have the bytes of the segment as fuel.
-- Mkfs. tools/mkfs.c with the tree file system, after the declarations of FileSystem/Ramdisk. The
--   files of the host and the memory behind `bin_dir` are arguments. Store, Texts, Apps and Loop
--   follow its loops, and Binaries is about the images.
-- Servers. File is apps/system/sys_file.c with `file_read` of library/syscall/servers.c. Process is
--   apps/system/sys_proc.c, one request at a time, with the process table of Kernel/Process; the
--   ELF loader and `dir_lookup` are arguments. The message of a request and that of its reply are
--   an argument and a result. Directory is `dir_lookup` of library/syscall/servers.c, with the
--   directories of tools/mkfs.c. Terminal is apps/system/sys_terminal.c, one request at a time, with
--   the calls of it in library/syscall/servers.c; the keys that will be typed and the characters on
--   the screen are its state.
-- Terminal. The `term_read` of library/syscall/servers.c that the kernel uses.
-- Programs. apps/user: cd, ls, cat and echo, with the working directory of apps/app.h as the state.
--   A string is the list of its characters; `dir_lookup` and `file_read` are arguments. Paths has
--   the working directory as a list of names.
-- Boot. `grass_entry` of grass/init.c and `sys_spawn` of apps/system/sys_proc.c, with the loader of
--   Loader and the table of Kernel/Process. The disk is a function from the number of a block to
--   its bytes; Binary says where on it the servers are.
-- Timer. earth/cpu_intr.c: the clock is a function from the number of a read to its value, and the
--   comparators are set by a list of writes.
-- Platform. The two machines of library/egos.h.
-- Network. `checksum` of apps/user/udp_demo.c, on the list of bytes; `char` is unsigned on RISC-V.
-- Shell. `parse_request` of apps/system/sys_shell.c, on the characters before the null byte. Loop is
--   a round of the loop of `main` there, with the process server of Servers/Process as the one that
--   it sends to; the processes that exit meanwhile are an argument.
--
-- Numbers are 32-bit patterns as natural numbers; the places where the C code may wrap have `%`
-- written out, and `sizeof` has 32 bits, as on RISC-V, although tools/mkfs.c runs on the host.
-- Loops have their number of rounds as fuel: the table has 16 entries and the page table 2048; the
-- count of levels needs 5 rounds, since a shift by 35 bits is 0; `find_log` has 32 and stops after
-- 7; `setup_freelist` needs at most a round for each block; folding carries and reading the clock
-- need 2. A walk of the tree recurses on the number of its levels.
--
-- Not modelled: booting and the trap entry in assembly, the tty driver, the C library, the prompt of
-- the shell, the Ethernet device of the UDP demo, and the other demo programs. They are I/O, or pass
-- on messages. The functions that are left empty as exercises have nothing to model.
mod Base
pub mod Boot
pub mod Disk
pub mod FileSystem
pub mod Kernel
pub mod Loader
pub mod Memory
pub mod Mkfs
pub mod Network
pub mod Platform
pub mod Programs
pub mod Servers
pub mod Shell
pub mod Terminal
pub mod Timer
