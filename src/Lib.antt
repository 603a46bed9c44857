-- ===== src/Lib.antt =====
-- MOS, the teaching kernel of this repository: its memory, environments, scheduler and system
-- calls, its file system server and parts of its user library.
--
-- The kernel runs one env at a time. A trap enters a system call (kern/syscall_all.c), which checks
-- its arguments, names envs through `envid2env` (kern/env.c), changes page tables through `page_insert`,
-- `page_lookup` and `page_remove` (kern/pmap.c), and puts envs on and off the queue `env_sched_list`
-- (include/queue.h), from which `schedule` (kern/sched.c) picks the env that runs next. On top of the
-- calls stand the user library (user/lib), with copy-on-write `fork`, pipes and descriptors, and the
-- file system server (fs), which answers the requests that clients send it.
--
-- Files:
--   Base: lists, tests, `Run` (a call returns a value and a state, or the kernel stops in `panic`),
--   the error codes of include/error.h, binary digits, sums.
--   Tailq: the TAILQ macros of include/queue.h on pointers; Tailq/Chain says which list a queue holds.
--   Pmap: kern/pmap.c, include/pmap.h and the macros of include/mmu.h. A `struct Page *` is the index
--   of the page; the state `Machine` has `pages[].pp_ref`, `page_free_list`, the words of memory and
--   the TLB entries flushed. Pmap/Inv ties counts, free list and page tables together by a ghost
--   assignment of roles to pages.
--   Kernel: the kernel's state: `struct Env`, `struct Trapframe` and the variables of kern/env.c,
--   kern/sched.c and kern/syscall_all.c. Env: kern/env.c. Sched: kern/sched.c and `env_destroy`, which
--   calls it. Syscall: kern/syscall_all.c, one function per call.
--   Trap: the dispatch `do_syscall`. Boot: the part of kern/pmap.c that runs at boot. Elf: lib/elfloader.c,
--   with the callback `map_page` as an argument.
--   Tlb: the refill of kern/tlbex.c. Str: lib/string.c, on a memory of bytes.
--   Start: the part of kern/env.c that runs at boot. Fs: fs/fs.c, the block cache
--   and the bitmap, with Fs/Files, Fs/Dirs and Fs/Init for what stands above them.
--   Serve: fs/serv.c, the requests on the table of open files. Fork: user/lib/fork.c, two address
--   spaces page by page. Fd: user/lib/fd.c, descriptors on the page table of the env, with the devices and
--   the memory that is left as arguments.
--   Pipe: user/lib/pipe.c, the two ends of a pipe as a machine that takes turns. Print: lib/print.c.
--   Tests: the theorems at a small machine.
--
-- Words are natural numbers with the wrap-around written out; a kernel virtual address is a page and a
-- word in it. The loops of the model run on the bounds that the source's `for` loops state (64 ASIDs,
-- 1024 entries, 509 user entries of a directory), so no fuel can run out; the refill loop is
-- given two rounds, which are enough for it, the loops of the loader and of `memcpy` and `memset` a round
-- for each byte, and the string functions as many as the caller bounds the string by;
-- `readn` has a round for each byte that it is asked for. `env_run` leaves
-- for user mode in assembly: in the model the call ends with the env as `curenv`, and what follows it in
-- the source does not run. User memory that a system call reads is an argument of its model.
--
-- Not modelled: the assembly, the console and the devices, `do_tlb_mod`, the FAT file system and the disk
-- under fs, the user library but for the pipes, the descriptors and fork, and the programs under user,
-- the host tools under tools, and the tests. The LIST macros of include/queue.h appear as lists only.
pub mod Base
pub mod Boot
pub mod Elf
pub mod Env
pub mod Fd
pub mod Fork
pub mod Fs
pub mod Kernel
pub mod Pipe
pub mod Pmap
pub mod Print
pub mod Sched
pub mod Serve
pub mod Start
pub mod Str
pub mod Syscall
pub mod Tailq
pub mod Tests
pub mod Tlb
pub mod Trap
