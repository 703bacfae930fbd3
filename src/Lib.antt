-- ===== src/Lib.antt =====
-- A verification library of System-DeviceProgramming: exercises in system and
-- device programming in C, the largest of them system calls added to the xv6
-- kernel.
--
-- The parts and their files
--
-- Kernel is what Lab6/xv6-semaphores adds to xv6, and the code of xv6 around it.
--   - Kernel/Sched: the channels on which processes sleep, and the interface
--     Sched of sleep and wakeup (proc.c of xv6, not in the repository): a record
--     of two operations with their documented laws. `plain` is an instance.
--   - Kernel/Outcome: how a call of the kernel ends: it returns (done), sleeps
--     (sleeping), waits for ever for a spinlock that is taken (spinning), leaves
--     a table (fault) or panics (panicked). Code between two possible ends is
--     a do block.
--   - Kernel/Semaphore: semaphore_table and sem_alloc, sem_init, sem_destroy,
--     sem_wait, sem_post (file.c), the system calls on them (sysfile.c) in Sys.
--     sem_wait is two functions: up to the sleep, and from its return on.
--     System runs calls of many processes, in any order, as a step relation.
--   - Kernel/Cond: conditions and mutexes (file.c) and their system calls
--     (sysfile.c, in Cond/Sys). cond_wait is three functions, for its two
--     sleeps. The system calls check the number here, as `checked`. Clients is
--     the step relation of processes that use one condition and its mutex, and
--     allocate and release others.
--   - Kernel/File, Kernel/Fd: ftable with filealloc, filedup, fileclose, and
--     the descriptors of a process: argfd, fdalloc, sys_dup, sys_close. They
--     meet in the count of references: Fd/Count. The calls of pipe.c, fs.c
--     and log.c are recorded in order as Extern. File/Io and Fd/Io have
--     fileread, filewrite, filestat and the system calls that use them; what
--     the recorded calls return is a parameter `answer` of all calls so far.
--     Fd/Pipe is sys_pipe, with pipealloc of pipe.c as a parameter.
--   - Kernel/Fs: the system calls on paths (sysfile.c), a module for each: Link,
--     Unlink, Create (create, sys_mkdir, sys_mknod), Chdir, Open, Exec. Their
--     state Ctx is what the process owes: an open transaction, locked inodes,
--     references. What fs.c and log.c answer is the parameter World. A `goto`
--     or a join of two branches is a function of its own (link_bad). Clean and
--     Answers are the rules by which the proofs run the statements in order.
--     Open works on Ctx and on the files of Kernel/Fd together.
--   - Kernel/Args, Kernel/Dispatch: the arguments of system calls and the table
--     of their functions (syscall.c, syscall.h).
-- Chardev is the character device of
--   Lab7/modules/chardev_SDP_lab/chardev_SDP_lab.c. copy_to_user and
--   copy_from_user are the parameter Uaccess: which bytes they copy. Loading is
--   init_module and cleanup_module, with what the kernel has registered.
-- Office is Lab3/Lab3.c with Lab3/office.h: students, offices and a special
-- office as threads.
--   - Office/Ring: Buffer as the threads use it, with its queue in Ring/Refines.
--   - Office: the shared state, send and receive, and the code of the offices,
--     cut where a thread can wait. A thread that sends or receives has the lock
--     of the buffer all the time, so a call either waits (none) or is one step.
--   - Office/System: the threads in any order as a step relation. Students send
--     the requests of `student`, with the guards on `urgent` there, but in any
--     number. Office/Tokens: counters against buffers. What stands in the
--     counters `urgent` at the start is a parameter, since the program does not
--     set them.
--   - Office/Students: each student as a thread with its place in `student`, beside
--     the offices of System, up to the signal of the last one. Students/Track takes
--     the buffers as lists and follows the request of each student.
--
-- Merge is Lab2/merge.c: merge and mergeSort on a list of cells. An access outside
-- the cells is none. The loops that copy the halves go one cell too far; `pad`
-- says how many unused cells a temporary array has behind it, and what the
-- memory held before is the parameter junk. mergeSort has fuel for its levels,
-- of which there are at most as many as cells.
--   Merge/Threads is threaded_sort of Lab2/Lab2.1.c and Lab2/Lab2.2.c: Run lists
--   the merges that it makes under the lock, in any order that the creation and
--   the joining of threads allow, and run makes them. Merge/Mains is main of the
--   three programs, with rand and the memory behind malloc as parameters.
--
-- Product is Lab2/Lab2.3_1.c and Lab2/Lab2.3_2.c, over any operations on float.
--   The threads of the second are places in the code, with a step for the row
--   that a thread computes and one for the section under the lock.
--
-- Regions is Lab4/Lab4_2.c: Regions has the sort of a region, the swaps at the
--   borders and the rounds; Regions/Barrier the barrier, whose threads are
--   places in the code and whose sections under the lock are steps, in any
--   order. Program puts the two together: the threads with the file, in any
--   order, where the sort of a region and the section behind it are one step.
--   The loop `rounds` takes a round as a whole. Main is main, with
--   ceil(log10(n)) threads, and Lab4/Lab4_1.c, which writes files of random
--   numbers; what open, fstat, mmap and pthread_create return is a parameter.
--   The length of the file is stored in an int there, `len`, which wraps.
-- Vectors is Lab1/Lab1.1.c: the sort, the writing of files and main. The cell in
--   front of each vector, which the sort reads, is a parameter, and so are what
--   rand returns and the files that fopen can open; a fwrite to a NULL stream is
--   `none`. The numbers of main are not negative.
-- Concatenate is exam/20110629/file_concatenate.c: how a thread looks for two
--   files under dir_lock, from pthread_mutex_lock to pthread_mutex_unlock. What
--   the calls of readdir return is a parameter, since other threads change the
--   directory meanwhile. The loops have fuel for twice the calls in which the end
--   of the directory comes up; that it suffices is part of the theorem.
--   The name that the first entry holds when a later call has returned is the
--   parameter `now`: that call may overwrite it. Concatenate/Copy is what a thread
--   does then with the two files, as the list of calls that it makes; what open,
--   read and fstat return are parameters.
-- Clients is Lab1/Lab1.3.c as a step relation of the two clients and the handler
--   of SIGUSR1, which runs in any thread, `main` among them, and stops that thread
--   meanwhile; it may run in several threads at once, but is not interrupted by
--   itself. A client's fopen works or fails. A signal that comes while one is
--   pending is lost.
-- Alternation is Lab1/Lab1.2.c. The child is the list of its alarms, with fuel for
--   as many as there are seconds; the parent is what it prints, with the number
--   of signals between two calls of fgets as a parameter.
-- Readers is homework/reader_writer.c, with the places of the threads and a
--   step for what each does between two locks.
--
-- Conventions
--
-- Numbers are native; an int is an integer of the module Base/Int that wraps at
-- 2 ^ 32 where the code can overflow, and a uint a number below 2 ^ 32. Memory
-- outside a table is not modelled: an access there is the outcome `fault`.
-- A spinlock is the Boolean of the entry it guards: acquire on a taken one is
-- `spinning`, since the processor then waits until another gives it back.
-- Loops over tables recurse on the entries that are left, and the string loop
-- on the bytes that are left. The loop of filewrite has fuel for as many rounds
-- as there are bytes to write, and each round writes at least one, so it does
-- not run out; if it did, the outcome would be `spinning`.
-- The loop of isdirempty has fuel for as many entries as the largest file of xv6
-- can hold, MAXFILE * BSIZE bytes; that it suffices is part of the theorem on
-- sys_unlink.
-- The rounds of Regions have fuel for more of them than there are pairs in the
-- wrong order; that it suffices is part of the theorem on them.
-- Base holds lists over the native numbers, tests and integers.
--
-- Not modelled: the set-up of locks, files and memory maps, test programs, the
-- build, and the code of the exercises that no file here names.
pub mod Base
pub mod Kernel
pub mod Chardev
pub mod Alternation
pub mod Clients
pub mod Concatenate
pub mod Merge
pub mod Office
pub mod Product
pub mod Readers
pub mod Regions
pub mod Vectors
