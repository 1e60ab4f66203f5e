-- ===== src/Lib.antt =====
-- Dionysus, a small kernel for 32-bit x86: a verification library for its C sources under kernel/.
--
-- The parts and the files that model them. The modules follow the program's parts, and a child module
-- holds what is proved of its parent's definitions or an example of it.
--
-- - kernel/structures/hashmap.c: HashMap. A map is a list of buckets, each the chain of its entries.
--   `hashmap_create`, `hashmap_insert`, `hashmap_find` and `hashmap_remove` are the functions of these
--   names; whether each allocation succeeds is an argument, and the hash function may be any. The VFS
--   keeps the types of file systems in such a map.
-- - kernel/structures/list.c: NodeList. A memory holds nodes, headers and payloads at addresses, and each
--   function is a command on it, with `kmalloc`'s result as an argument. A command faults at an address
--   that holds nothing, and an ASSERT that fails stops it. NodeList.Links says what a well-formed list is.
-- - kernel/time.c: Time. `mktime` and `gmtime`, on seconds modulo 2^32 and on the calendar's tables.
-- - kernel/vfs.c, paths: Vfs.Canonical. `canonicalize_path` on strings of character codes, with the walk over
--   the bytes of its buffers; the list that it builds is a list of strings, and the pointer `prev` is
--   one of three: NULL, the last node, or a freed one.
-- - kernel/vfs.c, nodes: Vfs.Nodes. The calls of a file system's functions and their guards.
-- - kernel/vfs.c, mounts: Vfs.Mounts for the tree of mount points and `mount`, with Unmounting and Lookup
--   below it. The tree is a value: a call goes down it along the path and gives the changed tree back on
--   its way up.
-- - kernel/fileops.c: Fileops. The table of a task's open files, the offsets and the checks of permission, and
--   the path of a file that is made or removed.
-- - kernel/task.c: Task.Schedule for the run queue and the wait queues, Task.Pids for the numbers, groups and
--   sessions of processes, Task.Ids for the three user and group ids and the niceness. The scheduler's
--   calls act on a state with the tasks at their addresses and the queues as lists of them; a step
--   relation has one constructor for each call. The calls on numbers act on the list of processes.
-- - kernel/structures/mutex.c: Mutex. Each atomic operation of a lock is a step of one task, and the tasks'
--   steps interleave in any order. `sem->semaphore--` is one such step, which the source does not ensure.
-- - kernel/block.c: Block.Drivers for the drivers and the adding of a device, Block.Devices for the search of
--   devices and partitions and the making of a request, and Block.Request for what happens to one:
--   transfers, the queue, waiting and ending.
-- - kernel/elf.c: Elf. A program's segments, their pages as the calls of `alloc_frame`, and the arguments, on a
--   memory of bytes.
-- - kernel/char.c: Chardev. The table of the character drivers.
-- - kernel/timer.c: Timer. The ticks, the list of timers, and a task that sleeps until a tick; a task that is
--   woken is taken to run before the next tick, and no tick comes between its test of the tick and its sleep.
-- - kernel/printf.c: Printf. The formats, the conversion of numbers and the padding; what is written is a
--   string, and the arguments are a list.
-- - kernel/fs/dev.c: Devfs for the table of files, Devfs.Names for the calls on a directory's names. The
--   table is the list of the files by ascending inode, a caller's node is known by its inode, and what a
--   driver's function returns is an argument. Devfs.Blocks is the reading and writing of block devices,
--   on a memory of bytes at physical addresses, with the block layer as a parameter.
-- - kernel/paging.c: Paging. The bitset of frames, as words of 32 bits, and the pages that take from it.
--
-- Prelude has what the components share: tests on numbers, lists by native numbers, bits, integers,
-- strings and the least free number of a range. Errno has kernel/Include/errno.h.
--
-- Conventions. A number of the program is a natural number; where the code relies on the width of an
-- unsigned type, the wrap is written out (`% 2 ^ 32`). Signed results are integers without a bound. A
-- negative errno is `err n`. `none` stands for what the code must not do, a fault or a failed ASSERT,
-- where a result has no type of its own for these, and for a loop that is still running when its fuel
-- is used up. Fuel bounds the loops along `next` of list_find, list_destroy and list_merge, for which
-- the number of the nodes and one more are enough; the loop of next_ready_request_blkdev, for which the
-- length of the queue and one more are; the count of years of gmtime, which gets one more than the
-- time has days, of which each year takes some; the loop over a format's conversions, which gets one
-- more than the format is long; the loop over the bios of a transfer, which gets one more than there
-- are sectors; the division by the base in printi, which gets one more than the number;
-- the walk up the tree of processes in setpgid, for which one more than the tree's depth is enough; and
-- the loop over a segment's pages, which gets one round for each page of the address space.
--
-- Parameters: the allocator (kernel/kmalloc.c, an adapted liballoc), the functions of a file system and of a
-- block driver, the block layer in Devfs.Blocks, the hash function. Outside of Mutex locks are
-- left out: each operation runs alone, and what happens while a task sleeps is an explicit sequence in Block.Request and Timer.
--
-- Not modelled: what fork copies besides the ids, waiting for a child, the tree of processes, the opening
-- of a program's file, and the drivers and tables of the machine. The FAT32 code under kernel/fs is
-- written for other interfaces than those of kernel/Include/vfs.h.
pub mod Prelude
pub mod Block
pub mod Chardev
pub mod Devfs
pub mod Elf
pub mod Errno
pub mod Fileops
pub mod HashMap
pub mod Mutex
pub mod NodeList
pub mod Paging
pub mod Printf
pub mod Task
pub mod Time
pub mod Timer
pub mod Vfs
