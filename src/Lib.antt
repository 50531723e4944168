-- ===== src/Lib.antt =====
-- ZeOS: a small teaching kernel for the 80386 with processes, threads, semaphores and a game.
--
-- The kernel is in zeos/*.c. Its state is a record, `Kernel.Kernel`: the task structures, the
-- pointers of every list head, the semaphores, the frames and page tables, the console, the typed
-- keys and what the kernel sees of the processor. An operation is a function from a state to a
-- state with its result; a system call ends in an `Outcome`: a result for the caller, a switch to
-- the context that a task has saved, or a page fault. An `int` is its 32-bit pattern.
--
-- Which file models what:
--   Config: the constants of zeos/include.
--   Links, with Links/Chain, Links/Remove, Links/Queues and Links/Heads: zeos/list.c. A list head is
--     an address; NULL is 0, the link of task i is i + 1, then come the heads of the free queue, of
--     the ready queue and of the semaphores' lists. Queues says of several lists over the same nodes
--     that each node is in one at most.
--   Ring, Ring/Queue and Ring/Trace: the circular buffers of zeos/io.c and zeos/user.c and the bounded
--     queue that they implement.
--   Mm, Mm/Frames and Mm/Free: zeos/mm.c. A page table is named by its index, which stands for its address.
--   Stats and Stats/Account: zeos/p_stats.c and get_ticks of zeos/utils.c. The readings of the time
--     stamp counter are a function in the state.
--   Access: access_ok, copy_data and memset of zeos/utils.c.
--   Console, Console/Cursor and Console/Dump: the screen of zeos/io.c and zeos/devices.c.
--   Kernel: the state. Sched: zeos/sched.c; Sched/Invariant has the well-formedness of the queues
--     and counters, and the other children show that the scheduler keeps it.
--   Sys: zeos/sys.c, in Sys/Sem (semaphores), Sys/Pages (alloc and dealloc), Sys/Process (fork, exit
--     and the small calls), Sys/Thread and Sys/Io; their children hold the proofs.
--   Interrupt: the routines of zeos/interrupt.c.
--   Boot: the start, from zeos/system.c; Boot/Queues says what becomes of the queues, Boot/Pages of the
--     table of task 1, Boot/Copied and Boot/User of the user's program.
--   Hardware and Hardware/Enter: zeos/hardware.c and the way of main into the kernel and to the user.
--   Tables: the gates of zeos/interrupt.c, the descriptor and the segment of the task of zeos/mm.c,
--     with their types of zeos/include/types.h; Tables/Installed reads them as the processor does.
--   Image: zeos/build.c. A file is its size and its bytes; Image/Parts and Image/Headers say what
--     stands where.
--   Libc, with Libc/Rounds and Libc/Decimal: zeos/libc.c. A char pointer is an address in a memory
--     of bytes.
--   Game: the board and the other globals of zeos/user.c; Game/Fleet has the aliens (its children say
--     where their moves take them), Game/Ship the ship, Game/Shoots the shots, Game/Play the loop of
--     main, Game/Screen the frame that is drawn, Game/Picture and Game/Welcome the first picture,
--     Game/Frames the threads that share the buffer of frames. Game/Kept and Game/Play/Kept carry
--     what the cells keep through the loops; the other children hold the proofs.
--   Reach: the start and then any sequence of interrupts, system calls and user code, as a relation on
--     states; Reach/Quiet has those that leave the queues alone, Reach/Units counts the waits and
--     signals of a semaphore, Reach/Sems says what leaves it alone.
--   Tests and its children: the theorems at concrete states.
--
-- Bounds and fuel: alloc_scan has 385 rounds, more than the steps of 2 from frame 256 to 1024;
-- find_page has one round for each page from 284 to 1024; wake_all has 11 rounds, one more than
-- there are tasks; copy_data (copy_words, copy_logical)
-- and write_chunks have one more than the bytes. The theorems about them
-- show that this is enough. put_digits has as many rounds as the number is large, strlen of what
-- perror has written 256, as the buffer has bytes, and copy_file as many as the file has bytes; each
-- is more than the loop makes. The loops of the game are counted.
--
-- Not modelled: the assembly files, the lines that main prints, and the wait in setup of zeos/user.c.
-- Of the processor there are the registers that zeos/hardware.c names; reserved flags are left out.
-- What a kernel stack holds is reduced to where its task goes on. That the boot sector puts the image
-- at KERNEL_START is a hypothesis, and the kernel's own variables stand outside the frames' contents.
-- The copy at the start does not look at the flags of the pages that it goes through, and the
-- processor's buffer of translations (TLB) is left out: a page is looked up in its table. What user
-- code does is an argument of a step.
-- zeos_show_clock and set_handlers, in a binary library, are parameters, and so are what a system
-- call reads from user memory, the function that a thread runs, and in the game the keys, the
-- readings of the clock and the pages that alloc answers. A clock that goes back is left out, and so
-- are files that change while the image is built.
pub mod Prelude
pub mod Ring
pub mod Links
pub mod Config
pub mod Mm
pub mod Stats
pub mod Console
pub mod Kernel
pub mod Sched
pub mod Sys
pub mod Boot
pub mod Access
pub mod Interrupt
pub mod Tests
pub mod Tables
pub mod Hardware
pub mod Image
pub mod Libc
pub mod Game
pub mod Reach
