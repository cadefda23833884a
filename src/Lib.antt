-- ===== src/Lib.antt =====
-- A kernel for RISC-V, after Linux 0.11: processes, signals, memory and files (linux-0.11/).
--
-- The parts, with the files that model them:
--
-- - Kernel.Task: the task structure and the task table (linux-0.11/include/linux/sched.h). A pointer to
--   a task is its slot, and an empty slot is `none`.
-- - Kernel.Sched: schedule(), sys_pause() and sys_nice() (linux-0.11/kernel/sched.c); Kernel.Timer:
--   add_timer() and do_timer(); Kernel.Sleep: sleep_on(), interruptible_sleep_on() and wake_up(), each cut
--   where it calls schedule(). switch_to() (linux-0.11/kernel/trap.S) sets the current slot.
-- - Kernel.Sys: ids, groups, sessions, the heap end and the time (linux-0.11/kernel/sys.c).
-- - Kernel.Signal: actions, delivery and sys_sigreturn() (linux-0.11/kernel/signal.c); Kernel.Kill and
--   Kernel.Wait: sys_kill(), what do_exit() does to the task table, and sys_waitpid() and release()
--   (linux-0.11/kernel/exit.c); Kernel.Fork: find_empty_process(), copy_process() and kernel_thread()
--   (linux-0.11/kernel/fork.c).
-- - Kernel.Mktime: kernel_mktime() (linux-0.11/kernel/mktime.c); Kernel.Vsprintf: number() and
--   vsprintf() (linux-0.11/kernel/vsprintf.c); Kernel.Tty: copy_to_cooked() and the queues
--   (linux-0.11/kernel/chr_drv/tty_io.c, linux-0.11/include/linux/tty.h).
-- - Mm: frames, page tables, copy-on-write, verify_area() (linux-0.11/mm/memory.c) and put_fs_long()
--   (linux-0.11/include/asm/segment.h). A memory is the count of users of each frame and the word at
--   each address; a function ends with a value, in panic() or in do_exit(), so that its type is a state
--   monad with these ends. Mm.Malloc: the kernel's heap (linux-0.11/lib/malloc.c), on a list of free
--   pages.
-- - Fs.Pipe: read_pipe() and write_pipe() (linux-0.11/fs/pipe.c); Fs.Bitmap: the zone bitmap
--   (linux-0.11/fs/bitmap.c); Fs.Inode: _bmap() and truncate() (linux-0.11/fs/inode.c,
--   linux-0.11/fs/truncate.c); Fs.Files and Fs.Open: descriptors
--   and sys_open() (linux-0.11/fs/fcntl.c, linux-0.11/fs/open.c).
-- - Fs.DiskInode: read_inode() and write_inode() (linux-0.11/fs/inode.c).
-- - Fs.Vfs: the inode table and the super blocks, and the calls on them as a state monad
--   (linux-0.11/include/linux/fs.h); Fs.Table: get_empty_inode(), iget(), iput(), sync_inodes()
--   (linux-0.11/fs/inode.c), new_inode() and free_inode() (linux-0.11/fs/bitmap.c); Fs.Walk: the walk
--   along a path, namei() and open_namei(); Fs.Links: the calls that make and remove names
--   (linux-0.11/fs/namei.c); Fs.Mount: read_super(), sys_mount() and sys_umount()
--   (linux-0.11/fs/super.c), with the blocks of each device as an argument. Fs.Vfs.Turns counts the
--   references to the slots before and after a call, with a rule for each way to build one.
-- - Fs.FileDev: file_read() and file_write() (linux-0.11/fs/file_dev.c); Fs.Seek: sys_lseek(), and where
--   sys_read(), sys_write() and rw_char() go on (linux-0.11/fs/read_write.c, linux-0.11/fs/char_dev.c);
--   Fs.Namei: permission(), match(), find_entry() and add_entry() (linux-0.11/fs/namei.c).
-- - Fs.Exec: copy_strings() (linux-0.11/fs/exec.c).
-- - Block.Buffers and Block.Cache: the buffer heads, their hash chains and the free list, getblk(),
--   brelse() and buffer_init() (linux-0.11/fs/buffer.c); Block.Requests: the queue of a device and the
--   elevator (linux-0.11/kernel/blk_drv/ll_rw_blk.c, linux-0.11/kernel/blk_drv/blk.h); Block.Ramdisk: the
--   driver of the ram disk (linux-0.11/kernel/blk_drv/ramdisk.c).
-- - Common: lists by native numbers, Boolean tests and bits of words. Tests: the theorems at concrete
--   states.
--
-- How they interact: Timer calls Sched when a slice has run out; Fork calls Mm for the pages and tables
-- of a child; Signal puts its frame on the user's stack; Wait empties the slot that Fork looks for,
-- gives the page of the task back to Mm and writes the status through it; Inode calls Bitmap for its
-- blocks, FileDev and Namei call Inode for the blocks of a file or a directory; Ramdisk takes the
-- requests that Requests makes, and both change the heads of Buffers.
-- Table takes the bits of inodes with Bitmap, reads and writes them with DiskInode and frees their blocks
-- with Inode; Walk looks up and adds names with Namei, and takes and gives back inodes with Table.
-- Inode, FileDev and Namei see the blocks as the cache shows them: whether bread() succeeds for a block,
-- and the words in it.
--
-- A word of 32 bits is its pattern, with the wrap-around written out, and so are counters, priorities
-- and the addresses of the ram disk; pids and times are the numbers below 2 ^ 31. The loop of schedule()
-- runs on fuel, and two rounds are enough where every task has a positive priority. The loops of the
-- pipes run on fuel, and one round for each byte and one more are enough. number() has fuel for 36
-- digits, the size of its buffer, and 32 are the most in base 2. read_loop and write_loop have a round
-- for each byte, the search of a directory one for each entry, and add_entry() two more; the loop of
-- buffer_init() has as many rounds as the memory has bytes.
-- iget() crosses at most one mount point for each super block, and iput() writes an inode once.
-- find_empty_process() has fuel for 65 pids, one more than there are tasks. A call that goes to
-- schedule() ends there in a value that says so, and what it does when it is woken is a
-- function of its own.
--
-- Not modelled: the drivers of the hard disk, the floppy disk, the console and the serial lines, traps and
-- start-up (machine registers and assembler); bread() and the writing back of buffers; the
-- loading of a program but for its arguments; what else runs while an inode is locked; user programs
-- and the build tools.
-- Interrupts come only between operations, as the kernel turns them off inside.
pub mod Common
pub mod Kernel
pub mod Mm
pub mod Block
pub mod Fs
mod Tests
