-- ===== src/Lib.antt =====
-- The homework programs of a course on practical embedded software: a sorting system call for the
-- Linux kernel, kernel modules, and programs whose two threads talk over an IPC mechanism.
--
-- HW2_APES/PROBLEM5/system_call/sys.c adds `my_sort` to the kernel. MySort has its `merge` and
-- `mergesort` (the arrays are lists; a read or write outside of one is a fault), MySort.Syscall the
-- call with its two buffers, its error codes and its copies. The loops have fuel, which the theorems show to be enough
-- wherever they say that the call returns. An `int32_t` is an integer: the code only compares and
-- moves them. `buffer_size` is below 2^30, so that `4 * buffer_size` does not wrap.
--
-- HW4_APES/PROBLEM2 has the same exchange of ten messages and ten answers over pipes, message
-- queues and sockets. Ipc.Packets and Ipc.Messages have the records and the texts, Ipc.Transport what
-- a channel promises, and Ipc.Exchange the two handlers, `main` and the signal handler as steps that
-- are taken in any order. Pipes, Queues and Sockets fill in what each program writes in one call,
-- who closes the channels, and how it starts; Sockets has its own table of thread 1's messages, with
-- two commands that sockets.c never sets as parameters. SIGINT may also break off a call in which a thread
-- waits. Time stamps, thread identifiers and the return codes that are only printed are left out, and
-- the calls that open logs and channels and create threads are taken to succeed. Ipc.Fifo is a
-- channel on which the threads run by evaluation.
--
-- HW4_APES/PROBLEM2/ipc_shared_memory_thread/shared_memory.c is Shared: two records in memory, a flag
-- `send` for which thread 1 waits, and a thread 2 that never waits. Each byte of a text is stored and
-- read by itself, so that a record may be read while it is half written. Shared.Bytes is about
-- where such bytes come from, Shared.Inside about the offsets in the arrays, Shared.Starving about an
-- announcement that is lost, and Shared.Killed about SIGINT.
--
-- HW3_APES/PROBLEM3/timer_kernel_module/timer_lkm.c is Timer: its entry function, callback and exit
-- function as steps between those of the kernel, in any order, on 32-bit words. The kernel's timers are
-- the parameter of Timer.Kernel; `HZ` and the module parameters are parameters too. Timer.Clock has a
-- kernel that runs a due timer at each tick, and Timer.Strikes the clock that the module then is.
--
-- HW3_APES/PROBLEM4/animal_lkm.c is Animals: the exchange sort of the names, the list of the animals
-- with their counts, the filters, and the exit function. The seed array is a parameter, as are the two
-- module parameters; nodes are counted where the code calls `kmalloc`.
--
-- HW3_APES/PROBLEM4/sort_strings.c is SortStrings: the same exchange sort on rows of bytes, where
-- `strcpy` moves the names through a buffer. CStrings has the strings in blocks of memory.
--
-- HW2_APES/PROBLEM2/src/myfileIO.c is FileProgram, on the streams of FileProgram.Stdio: a file of bytes,
-- a stream that keeps what is written until it is flushed or closed. What `fopen`, `fflush`, `fclose`
-- and `malloc` answer, and what the user types, is a parameter. The last `free` is left out.
--
-- HW4_APES/PROBLEM1/BBG_pthread.c is Bbg: Bbg.Letters counts the letters of a text, Bbg.Cpu reads a
-- line of /proc/stat as `fgets`, `strtok` and `atoi` do and sums its fields, up to the bound of an `int`,
-- past which C promises nothing and the model has a crash; and Bbg.Threads has the two threads, `main`
-- and the signals as steps that are taken in any order. What the two files hold is a parameter.
--
-- Clients has the programs that make the system call, on a machine that says what `rand` and `malloc`
-- answer: HW2_APES/PROBLEM5/regression_test/regression_test.c is Clients.Regression, one function for
-- each test case, and my_sort.c beside it and HW2_APES/PROBLEM6/cron.c are Clients.Programs. They call
-- MySort.Syscall. A pointer is NULL or its block, and a use of NULL is a fault.
--
-- HW3_APES/PROBLEM2/memory.c is Memory: a `memcpy` on a memory of bytes, where the two ranges may
-- overlap, and its `main`.
--
-- Base and Run have the names, lists, numbers and results that all parts use.
--
-- Not modelled: HW1_APES and the hello module of HW3_APES/PROBLEM3, which only print; the rest of sys.c
-- and syscalls.h, which are a copy of the Linux kernel's; and the generated module files.
pub mod Animals
pub mod Base
pub mod Bbg
pub mod CStrings
pub mod Clients
pub mod FileProgram
pub mod Ipc
pub mod Memory
pub mod MySort
pub mod Pipes
pub mod Queues
pub mod Run
pub mod Shared
pub mod Sockets
pub mod SortStrings
pub mod Timer
