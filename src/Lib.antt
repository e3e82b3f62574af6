-- ===== src/Lib.antt =====
-- A verification development for the Linux 0.11 kernel: parts of its memory manager, file layer and
-- process layer as functions, with the theorems that make them correct.
--
-- Parts of the kernel, and the files that model them:
--
-- * mm/memory.c. Mm.antt is the state: `mem_map`, `HIGH_MEMORY` and physical memory by longwords, with
--   the masks on addresses and entries. Mm/Frame.antt has get_free_page, free_page and mem_init;
--   Mm/Fault.antt has put_page, un_wp_page, do_wp_page, write_verify, get_empty_page and try_to_share;
--   Mm/Space.antt has copy_page_tables and free_page_tables, one function per loop. A call that may
--   panic or kill the task returns an `Outcome`. Page faults take frames from Mm/Frame, and copying
--   and freeing an address space change the same counts.
-- * fs/pipe.c. Fs/Pipe.antt has read_pipe and write_pipe. A pipe is its head, tail, page and user
--   count; a call returns or goes to sleep with the rest of its work.
-- * fs/fcntl.c, fs/open.c, fs/read_write.c and sys_pipe of fs/pipe.c. Fs/Files.antt is a process's
--   descriptors and the system's file table, with dup, dup2 and close; Fs/Files/Control.antt has
--   sys_fcntl, Fs/Files/Seek.antt sys_lseek; Fs/Files/PipeEnds.antt has sys_pipe. `iput` is recorded as a list of the
--   inodes that it has been called with.
-- * fs/bitmap.c. Fs/Bitmap.antt has new_block and free_block on the zone map of a superblock; what the
--   buffer cache answers is an argument.
-- * _bmap of fs/inode.c and fs/truncate.c. Fs/Zones.antt has bmap, create_block and truncate over the
--   interface Fs/ZoneMap.antt to the zone map of the device, which Fs/Bitmap/Device.antt fills,
--   for any use counts of the buffers that free_block finds.
-- * fs/namei.c. Fs/Dirs.antt has match and the searches of find_entry and add_entry in the entries of a
--   directory, where create_block is a function that may find no room and whose answer may change from
--   call to call; Fs/Names.antt has permission, find_entry with its cases of `..`, get_dir, dir_namei and
--   namei over the interface InodeTable to the inodes in memory.
-- * kernel/sched.c. Kernel/Task.antt is the task table, Kernel/Sched.antt is schedule up to the task
--   that it switches to. Kernel/Timers.antt is the timer list of add_timer and do_timer.
-- * kernel/blk_drv/ll_rw_blk.c. Kernel/Requests.antt has add_request and make_request for one device;
--   the queue is the list of entries of the request table from the one being worked on.
-- * kernel/signal.c, and send_sig and sys_kill of kernel/exit.c. Kernel/Signals.antt has the actions and
--   the mask of a process, the delivery of a signal to it, and kill over the task table.
-- * kernel/exit.c. Kernel/Exit.antt has release, the work of do_exit on the task table, and waitpid up to
--   its sleep and from there on; Kernel/Exit/Leave.antt has do_exit with free_page_tables of Mm/Space and
--   sys_close of Fs/Files, while iput is an argument.
-- * kernel/fork.c. Kernel/Fork.antt has find_empty_process.
-- * kernel/sys.c. Kernel/Ids.antt has setreuid, setregid, setpgid, setsid and umask.
-- * kernel/mktime.c. Kernel/MkTime.antt has kernel_mktime on 32-bit words, with the `long` that it returns.
-- * kernel/chr_drv/tty_io.c and tty_ioctl.c, with include/linux/tty.h and include/termios.h.
--   Kernel/TtyQueue.antt has the queues of characters, Kernel/Tty.antt the structures, and its children
--   copy_to_cooked (Cook), tty_read (Read), tty_write (Write), tty_ioctl (Ioctl) and the table of
--   terminals as it starts (Table). The function that a terminal's `write` points to is a parameter.
--   tty_read and tty_write take a list of functions that stand for what other code does before each
--   round of their loops, interrupts and sleeps included. Kernel/Sleep.antt has wake_up.
-- * kernel/vsprintf.c. Kernel/Number.antt has number and skip_atoi on lists of characters, and
--   Kernel/Vsprintf.antt has vsprintf, which reads a format with its final 0.
-- * lib/malloc.c. Malloc.antt has malloc and free_s; pages come from Mm/Frame, and the free objects of a
--   page are linked through the memory of Mm.
--
-- Common/ has what the parts share: Boolean tests, lists with a default out of range, 32-bit words,
-- the bits of a word, and error returns.
--
-- Numbers are natural numbers. Unsigned bytes, shorts and words keep their wrap-around, written as a
-- remainder; signed words are their bit patterns. The fuel of read_loop and write_loop is the count
-- plus one, since each round moves a byte, schedule_loop has two rounds, since one recharge with
-- positive priorities leaves time to each running task, the loop of vsprintf has two rounds more
-- than the format has characters, choose_pid has 65 rounds, since there are 64 tasks, and the loops
-- of copy_to_cooked and tty_write have 1024 rounds, since a queue holds 1023 characters, that of get_dir
-- has one round more than the path has characters, and those of find_entry and add_entry have as many
-- as the directory has entries, and two more; the theorems show that it never runs out.
--
-- Not modelled: the buffer cache, the table of inodes, the calls
-- that make and remove names, drivers of disks, the console and the
-- serial lines, the rest
-- of fork, exec, what other tasks do while one has called schedule, and code that is inline assembly or output
-- only. A page table entry's low bits are read as the masks of the source read them; the processor's
-- own use of the tables is outside.
pub mod Common
pub mod Fs
pub mod Kernel
pub mod Malloc
pub mod Mm
