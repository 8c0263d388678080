-- ===== src/Lib.antt =====
-- The xv6 kernel of this repository, a port for RISC-V with system-call tracing and sysinfo added: models of
-- its core and the theorems that hold of them.
--
-- The program and its parts. User programs enter the kernel by system calls, which kernel/syscall.c dispatches.
-- A call works on the process table (kernel/proc.c), on open files (kernel/file.c) and through them on pipes
-- (kernel/pipe.c), on inodes (kernel/fs.c) or on the console (kernel/console.c). Inode code changes disk blocks
-- inside transactions of the log (kernel/log.c), pages of memory come from kernel/kalloc.c, and everything
-- is protected by the locks of kernel/spinlock.c and kernel/sleeplock.c.
--
-- Which file models what. A module stands in the file of its name, with its theorems in the folder beside it
-- and its tests and examples in Tests there; Proc and Fs have a second file of them, LifeTests and DiskTests.
--   Prelude: names and lemmas that all modules share; Boolean tests, lists, arrays, machine words, integers.
--   Pipe: kernel/pipe.c. The record Pipe is struct pipe; write and read are pipewrite and piperead from a start
--     or a wakeup up to the next sleep or the return, with their wakeups as a list of calls.
--   Kalloc: kernel/kalloc.c. Kmem is kmem and the link word of every page; kinit, freerange, kfree, kalloc
--     and kcollect_free keep their names.
--   Log: kernel/log.c, on a Store: the disk, the cached blocks, their pins, and the power left, which every
--     disk write uses up, so that a crash can come between any two writes.
--   Proc: kernel/proc.c. Table is proc, nextpid and initproc. Critical sections of wait, exit, kill, sleep and
--     wakeup are functions on the table; Life has allocproc, fork, exit, wait and growproc with the rest of
--     the kernel as the interface Services.
--   Text: kernel/string.c, on memory as a function from addresses to bytes.
--   Console: kernel/console.c. Cons is the input ring; consoleintr is one interrupt, consoleread one turn.
--   Uart: kernel/uart.c, the transmit ring between uartputc and the transmitter.
--   Lock: kernel/spinlock.c and kernel/sleeplock.c, with acquire and release cut at their atomic instructions.
--   File: kernel/file.c. The table of open files; pipes, inodes and devices are the interface Services.
--   Syscall: kernel/syscall.c, with the handlers as a parameter, and sys_trace of kernel/sysproc.c.
--   Fs: kernel/fs.c. Fs has the inode table and skipelem; Disk the blocks of the disk, their bitmap and the
--     inodes on it, Content readi and writei; a Disk holds the log of Log, and each change of a block calls its
--     log_write, whose panic leaves no log. The proofs go from the bitmap (Bits, Bitmap, Balloc, Bfree) over the
--     blocks of a file (Blocks, Extend, Index, Bmap) and the blocks that the operations log (Logging) to its bytes
--     (Write, Writing, Reading, Access).
--   Vm: kernel/vm.c and proc_mapstacks of kernel/proc.c. Ram is the allocator, the page-table entries and the
--     bytes; Space has the growth, copy and end of an address space, Copy the copies between the kernel and the
--     user, Boot the kernel's own table. The proofs see a page table as a tree (Tree, Pool) and as a map from
--     addresses to entries (Leaf, Grow, Walk, Mapping, Range, Unmap, Release) and to bytes (User, Copyin,
--     Copyout, Roundtrip).
--   Grep: the matcher of user/grep.c, on strings as lists; Meaning says what a pattern means, Decide that the
--     matcher decides it.
--
-- Conventions. Numbers are natural numbers; uint and uint64 wrap at 2 ^ 32 and 2 ^ 64 where the code can reach
-- that, and an int that the code compares with 0 is its 32 bits, from 2 ^ 31 on negative. A panic is none.
-- Pointers into a table are indices, 0 is null where the code tests for it. Concurrency is a step relation
-- whose steps are the stretches that run under one lock.
--
-- Fuel. Loops that the language does not see to end take fuel: freerange one round for each page below its
-- end, kcollect_free one for each page below PHYSTOP, kill_line and uartstart one for each place of their
-- buffers, write_inode one for each byte, skipelem the length of the path, balloc one for each block of the
-- bitmap, readi and writei one for each byte, mappages, uvmunmap, uvmalloc and uvmcopy one for each page, the
-- copies one for each byte, and freewalk one for each level of the table.
--
-- Not modelled. The context switch, traps, the disk driver and boot code, which are registers and
-- assembly; the list of buffers in kernel/bio.c; directories and paths of the file system, but for skipelem; exec;
-- the user programs, but for the matcher of grep; the C library of the host in mkfs.
-- Apart are kept the page-table entries and the bytes of RAM, and the bytes, words and inodes of a disk block, which
-- well-formed tables and disks do not let overlap; the permissions of mappages are below 2 ^ 10. Balloc's int counter
-- is exact for disks of less than 2 ^ 31 blocks. That uartputc halts after a panic is left out.
-- The memory fences of the locks have no counterpart: memory is sequentially consistent.
-- The handlers of system calls, the services of memory, files and inodes, user memory and the disk itself are
-- parameters.
pub mod Prelude
pub mod Console
pub mod File
pub mod Fs
pub mod Grep
pub mod Kalloc
pub mod Lock
pub mod Log
pub mod Pipe
pub mod Proc
pub mod Syscall
pub mod Text
pub mod Uart
pub mod Vm
