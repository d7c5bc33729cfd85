-- ===== src/Lib.antt =====
-- A model of the core of hos, a kernel for the i386 in C, with theorems about it.
--
-- hos boots by a multiboot loader, sets up a bitmap of physical frames and its page tables, mounts
-- a file system and runs user tasks, which enter it by system calls and interrupts. After every
-- interrupt `scheduler_run` delivers pending signals and picks the next task. The parts modelled are:
--
-- - Pmm, with its child modules: the physical frame allocator, src/kernel/memory/pmm.c. `Pmm.Pmm`
--   is the static state of the file, `Pmm.Init.init` is `pmm_init` on the boot information and memory
--   map, and the other definitions have the C names less `pmm_`. The bitmap is a map from word
--   indices to 32-bit words. The searches run on fuel: one round for each word, or for each frame
--   and word, below `max_frames`: every round moves on to the next one, so no more are needed. The
--   page tables, the heap and user memory are made of its frames.
-- - Kheap, with its child modules: the block allocator of the heap, src/kernel/memory/kheap.c. The
--   fields of the blocks are maps from addresses, and a run may fail an assertion. `Kheap` has
--   the operations with the C names less `block_` and `__`; `Chunks`, `Segments`, `FreeList` and
--   `Represents` say when a heap stands for a row of chunks and a list of the free ones, `BestFit` is
--   about the search, `Taken`, `SplitOff`, `Grow`, `Outcome` and `Malloc` about `__do_malloc`,
--   `Merge`, `Join`, `FreeCases`, `FreeNext` and `Free` about `__do_free`, `Held` and `Reach` about the
--   two in any order. The loops run on fuel: `heap_top` is more than the number of blocks, which have 12
--   bytes or more each. The contents of the blocks are not modelled, nor is `kmalloc_align`.
-- - Vmm, with its child modules: the page tables, src/kernel/memory/vmm.c, in physical frames that `Pmm`
--   allocates. `Vmm` has the functions with the C names less `vmm_`, for one address space;
--   `Translation` has what the processor makes of an address and when the tables are in order,
--   `Entries`, `Put` and `Tables` the steps the functions share, `Pages`, `Create`, `Range` and `Lookup`
--   the functions. The loops over ranges run on fuel, a round for each page and one more.
-- - HashMap: the chained hash table, src/kernel/lib/hashmap.c, with its key functions and `strcmp`
--   of src/kernel/misc/string.c. A table is generic in its keys and takes a record of functions, as
--   the C table takes function pointers; `IsLawful` is what it needs of them, and `Keys` has
--   the functions for numbers and strings. Recursion is on the chains. The freeing of a table and
--   the listing of its keys and values are left out.
-- - Signal: src/kernel/system/signal.c. `Signal` has the sets and the queue of pending signals up
--   to `__dequeue_signal`, `Signal.Tasks` what concerns a task: sending, the effect of stop and
--   continue signals, `sys_kill`, `sys_signal`, `sys_sigaction` and `sys_sigprocmask`. Running the
--   handlers (`do_signal`, `__handle_signal`, `sys_sigreturn`) needs registers and the user stack
--   and is left out.
-- - Scheduler: the run queue, the round robin and the calls of src/kernel/process/scheduler.c and
--   src/kernel/process/sched_algo.c. Tasks are addresses into a memory of tasks, so the children of
--   a task and the run queue share them. The context switch, exit and the other algorithms are left
--   out.
-- - RingBuffer: the fixed-size ring buffer of include/kernel/ring_buffer.h, generic in its entries,
--   as the queue of key codes that it is for the keyboard driver.
-- - Strings: functions on blocks of bytes and on terminated strings of src/kernel/misc/string.c, on a
--   memory that is a map from addresses to bytes. The loops that end at a terminator run on
--   fuel, more than the length of the string; `Bytes`, `Copies`, `Terminated`, `Bounded` and
--   `Searches` are about them by what they do. The token functions and the conversion of numbers are
--   left out.
-- - Timers, with its child modules: the timing wheel of src/arch/i386/timer.c with its soft interrupt,
--   `sys_alarm` and the interval timers. A list of timers is a sequence, `find_tvec` is `__find_tvec`
--   and `add_timer` `__add_timer_tvec_base`. What the functions of timers do is an argument: the timers
--   that they add. `Members` is about the lists of a wheel, `Placement` and `Due` about the
--   place of a timer, `Walk`, `Cascade`, `Replenish` and `Trigger` about the loops, `Softirq`
--   about one tick, `Elapsed` about a run and `Wheel` about all operations in any order; `Alarm` and
--   `Itimer` have the calls. A run has fuel for one round for each tick that it is behind, and one more.
--   Sending the signals and waking tasks is left out.
-- - ListHead, with its child modules: the doubly linked rings of include/kernel/list_head.h on maps from
--   addresses, and the sequences of entries they stand for, which the other parts use in their place.
--   `list_head_size` runs on fuel, a round for each entry and one more.
-- - Time, with its child modules: the calendar of src/kernel/lib/time.c. `Days` has the calendar that
--   it is compared with, day by day for all that 32 bits of seconds reach, and `Calendar` the functions.
-- - Base: the names all modules share, Boolean tests on numbers, lists over native numbers, and the
--   bits of a number.
--
-- Numbers are natural numbers with the wrap-around of the C type written out; an `int` argument is
-- its 32 bits. `kmalloc` is an argument where its failure is handled. Locks are left out: the
-- kernel runs on one processor, and each operation is one step. Not modelled are the file
-- systems and drivers, which are disk transfers and ports for the most part, the creation of tasks and
-- the loading of programs, formatted output, paths, and the start-up code.
pub mod Base
pub mod Pmm
pub mod HashMap
pub mod Signal
pub mod Scheduler
pub mod RingBuffer
pub mod Kheap
pub mod Strings
pub mod Timers
pub mod Vmm
pub mod Time
pub mod ListHead
