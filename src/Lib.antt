-- ===== src/Lib.antt =====
-- Verification of the kernel of an xv6 with multi-level scheduling, paging to a simulated RAID array
-- and disk scheduling (`XV6 CODE/kernel`).
--
-- A page that leaves memory is chosen by the clock algorithm of `kalloc.c`, gets a slot of the swap
-- area (`swap.c`), and is stored on the array (`raid.c`), from where a page fault (`vm.c`) fetches it. File
-- blocks go through the log (`log.c`), the buffer cache (`bio.c`) and the queue in front of the disk
-- (`disksched.c`). Processes live in the table of `proc.c`; its scheduler and the timer interrupt
-- of `trap.c` move them between four levels. A pipe (`pipe.c`) joins two processes.
--
-- - Prelude: shared names, C's unsigned and signed 32-bit numbers on ℕ, arrays as lists, `panic` as
--   an outcome, and the laws of exclusive or.
-- - Raid (`XV6 CODE/kernel/raid.c`, `raid.h`): `raid_write`, `raid_read`, `raid_copy` and the routines
--   of the modes 0, 1 and 5 under their names. Raid/Layout is the contract of a mode; Striping,
--   Mirroring, Parity with Rebuild implement it; Array and Pages lift it to pages; Faults shows what
--   the array does not survive; Xor has the algebra of blocks.
-- - DiskSched (`disksched.c`): the queue, `pick_fcfs`, `pick_sstf`, `disksched_submit` and
--   `disksched_flush`. `take_out` and `choose` are the code that the last two share.
-- - Swap (`swap.c`, `swap.h`): slots and `swap_write`, `swap_read` over Raid.
-- - Frames (`kalloc.c`): the frame table and `clock_pick_victim`.
-- - Memory (`kalloc.c`): `kalloc`, `kfree` and `kinit` on the free list and the contents of pages.
-- - PageTable (`vm.c`, `riscv.h`): `walk`, `mappages`, `walkaddr` and the bits of entries. Sound and Grow
--   follow `walk` as it adds tables; Map is about `mappages` of one page, There where its tables exist.
-- - Evict (`kalloc.c`): `kalloc_user` and `evict_page` over Frames, Swap, Memory, PageTable and Proc;
--   `evict_to` is the part of `kalloc_user` after the choice of a victim. Mark says what it leaves in the
--   entry of the page that goes out. The state, `Machine`, is what the virtual memory works on.
-- - Vm (`vm.c`): `uvmunmap`, `uvmdealloc`, `uvmalloc`; Vm/Fault: `vmfault`; Vm/Fork: `uvmcopy`;
--   Vm/Transfer: `copyout`, `copyin`, `copyinstr`; Vm/Grow: `growproc` and `sys_sbrk` (`sysproc.c`). Forget
--   says when a page table is tidy; In, Return, Access, Rounds, Unmap and Shrink prove what the
--   operations do, Hazards and Stale what goes wrong.
-- - Bio (`bio.c`): the buffer cache over the queue in front of the disk. View is the map from blocks to
--   contents that the cache and the disk make up.
-- - Lock (`spinlock.c`, `sleeplock.c`): the locks. Nest is `push_off` and `pop_off` on one CPU, Steps
--   the step relation of CPUs on one lock; Disabled follows the interrupts along it, Exclusion the lock.
-- - Sys (`sysproc.c`, `getvmstats` of `proc.c`): the calls that report on processes; Sys/Wait: the
--   `copyout` of `kwait` and `proc_freepagetable` (`proc.c`).
-- - Proc (`proc.c`, `proc.h`): the table and `allocproc`, `freeproc`, `wakeup`, `sleep`, `kkill`;
--   Proc/Exit: `reparent`, `kexit`, `kwait`.
-- - Scheduler (`scheduler` in `proc.c`, the timer in `trap.c`): a round is `schedule` up to `swtch`
--   and `deschedule` after it.
-- - Pipe (`pipe.c`): `pipewrite` and `piperead`, each up to its return or its sleep.
-- - Log (`log.c`): transactions and recovery. The disk changes at `bwrite` and `write_head`, and
--   there the power may fail.
-- - Str (`string.c`): its routines on a memory of bytes.
-- - Fs (`fs.c`, `fs.h`, `file.h`): blocks and bitmap; Fs/Inode, Fs/Table: inodes and their table;
--   Fs/Content: `readi` and `writei`; Fs/Directory, Fs/Names: directories and paths. Marks, Alloc and Free
--   are about the bitmap; Iget, Unique, Touch and Reach about the table; Slots, Filled, Direct, Indirect and
--   Bmap about the blocks of a file, Store, Moved, Loops, Write and Read about its bytes; Freeing,
--   Clear and Trunc about giving its blocks back; Elements about paths.
--
-- State is passed explicitly. A critical section is one step, since its lock is held throughout. A
-- process is its index in `proc[NPROC]`. Loops over arrays recurse on the array or on a count of
-- rounds that is the code's own bound. Only `disksched_flush` has an endless loop: its fuel is one
-- round for each of the 64 entries of the queue and one to see it empty. A run of the log gets the
-- number of disk writes before the power fails, and the theorems say which number suffices. `copyout`,
-- `copyin`, `copyinstr`, `readi`, `writei` and `namex` get one round for each byte, and `strlen` one more
-- than the string has.
--
-- Not modelled: `freewalk` and the kernel's own page table, open files and the system calls on them,
-- devices, start-up and assembly, and the user programs. What `kalloc` and `proc_pagetable` return is an
-- argument of `allocproc`, what `copyin` and `copyout` return one of the pipe's routines, and what
-- `proc_freepagetable` and the `copyout` of `kwait` do to the tables of the kernel are functions that
-- `freeproc` and `kwait_round` take, and Sys/Wait has them. The log has
-- its own store for what `bread` yields, and the file system a map from block numbers to contents, which
-- `log_write` updates, with room for them in the transaction; the inode blocks are read there as arrays
-- of `struct dinode`.
-- Outside Lock a critical section is atomic.
pub mod Prelude
pub mod Raid
pub mod DiskSched
pub mod Swap
pub mod Frames
pub mod Proc
pub mod Scheduler
pub mod Pipe
pub mod Log
pub mod Memory
pub mod PageTable
pub mod Evict
pub mod Vm
pub mod Bio
pub mod Lock
pub mod Sys
pub mod Str
pub mod Fs
