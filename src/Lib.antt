-- ===== src/Lib.antt =====
-- Verification of the data processing network of FlightOS, of its schedulers and the scheduler core,
-- and of the memory, time and string functions below them.
--
-- A task (struct proc_task) is a buffer with steps to be done, each with an op code. A tracker (struct
-- proc_tracker) queues the tasks whose next step has its op code, and has an operator function for
-- them. A network (struct proc_net) is a queue of trackers with an input and an output node: tasks
-- come in at the input node, are sorted to the trackers, move from tracker to tracker as their
-- steps are done, and leave by the output node. The threads of the kernel wait and run in the queues of
-- two schedulers, for deadlines and round robin; the core asks the schedulers in the order of their
-- priority for the next thread and the time until the next event.
--
-- Files:
--   * ProcTask: lib/data_proc_task.c and include/data_proc_task.h. `pt_f` is `f`. The linked lists are
--     lists, first entry first. ProcTask/Steps has the order of the steps, ProcTask/Pool where they are.
--   * ProcTracker: lib/data_proc_tracker.c and include/data_proc_tracker.h. `pt_track_f` is `f`; where the
--     function checks its pointers for NULL it takes options, and `f_task` is the rest of it.
--     ProcTracker/Queue has its theorems.
--   * ProcNet: lib/data_proc_net.c and include/data_proc_net.h, the network and the choice of the next
--     tracker. ProcNet/Process is `pn_process_next`, ProcNet/Io the input and the output node,
--     ProcNet/Setup creation and destruction; the theorems are in their children and ProcNet/Rotate.
--   * RoundRobin: kernel/sched/rr.c, with the fields that it uses of the structures in
--     include/kernel/kthread.h and include/kernel/sched.h. `rr_f` is `f`. RoundRobin/Verdicts,
--     RoundRobin/Rounds and RoundRobin/Pick are about the choice, RoundRobin/Wake about waking.
--   * Edf: kernel/sched/edf.c, the choice of the next task (`edf_f` and `schedule_edf_f` are `f`). Edf/Calls is
--     waking, the attributes and the time to the next wakeup, Edf/Admission the tests before a task is
--     enqueued. Edf/Moves, Edf/Rounds, Edf/Pick and Edf/Earliest are about the choice; the children of
--     Edf/Calls and Edf/Admission have the other theorems.
--   * Sched: kernel/sched/core.c and struct scheduler, whose function pointers are a record of functions
--     (`sched_f` is `f`). Sched/Register sorts the schedulers, Sched/Next is about the next task,
--     Sched/Loop about the loop of `schedule`, which
--     Sched/Run runs with both schedulers, Sched/Attributes about the attributes of a task.
--   * MemMove: lib/string.c, memcpy and memmove; a memory is a function from addresses to bytes.
--     MemMove/Copies compares the copies by words with one simultaneous copy, and MemMove/Aligned is about where
--     they are. MemMove/Fill is memset and the other functions on bytes, and MemMove/Fill/Filled has the theorem.
--   * CString: lib/string.c, comparison, search and tokens; a string is the list of its bytes before the
--     terminator, and a `char *` into it is the rest of the string. CString/Compare, CString/Search
--     and CString/Tokens have the theorems. CString/Numbers is the conversion to numbers, and
--     CString/Numbers/Decimal what it reads.
--   * MemPool: lib/mm.c and include/kernel/mm.h, the buddy allocator (`mm_f` and `mm_blk_f` are `f`). The
--     block index, the bitmap and the orders are as in the source, with functions for the arrays.
--     MemPool has the blocks, MemPool/Calls allocation and release; MemPool/Init the
--     initialisation; MemPool/Merge, MemPool/Covers, MemPool/Alloc, MemPool/Release with its child, and
--     MemPool/Init/Ready have the theorems. MemPool/Sound says when the bitmap, the orders and the lists fit together, and its children
--     what a merge and the last step of a release keep of it; MemPool/Freed and its children follow the rounds of a
--     release, with the neighbours of MemPool/Halves.
--   * Chunk: lib/chunk.c and include/chunk.h, the chunk allocator (`chunk_f` and `chunk_pool_f` are `f`). The headers
--     are a function of their addresses. Chunk/Align is about ALIGN_PTR, Chunk/Carved about a split,
--     Chunk/Fresh and Chunk/Cases about allocation, Chunk/Youngest and Chunk/Return about a block that comes back.
--   * Time: kernel/time.c and include/kernel/time.h, timespecs and ktimes (`timespec_f` is `f`); Time/Sum is about sums.
--   * Log2: include/kernel/log2.h, powers of two, with bounds in Log2/Bounds.
--   * Common: the shared names, words, status codes and list lemmas.
--
-- A pointer to a tracker or a task is its address, a number. `unsigned long` and `size_t` have 32
-- bits, and wrap. Memory comes as the result of the allocator, an argument; what is freed is a
-- list of addresses in the order of the calls. Operator functions are fields of the trackers, any
-- function that may change its task; they do not reach the network. Tasks that leave the network
-- are logged, so that it can be said where they went.
--
-- Loops that the source bounds by a list are recursion on it. `pt_track_destroy`, `pn_process_next` and the loops
-- of the input and the output node run on fuel, one more than what is queued (for `pn_process_next`,
-- counted with its pending steps); that this is enough for the last three is among the theorems.
-- `rr_pick_next` has twice the length of the run queue and one, since a task is visited at most twice.
-- So has `edf_pick_next`, where a task is visited again after it has been reinitialised. The bubble sort of
-- `sched_register` has the square of the length and one, since each pass that swaps removes an inversion;
-- the loop of `schedule` has any fuel, and ends in its first round under the laws of Sched/Loop. The loop that
-- subtracts in `edf_hyperperiod` has the sum of its numbers. The fuel of `chunk_free` is the number of its
-- calls in a row, one where the parent has other references. The loops of `timespec_normalise` need two
-- rounds for a sum.
-- The rotation of the queue has as many rounds as the source's counter allows.
--
-- The runtime of a thread may fall below zero: it is a budget less what has been spent. A trap that
-- `schedule_edf_reinit_task` raises is counted, and what it does is not modelled. The times of the
-- schedulers are unbounded, but for the products of `edf_hyperperiod`, which have no value from 2 ^ 63 on.
-- The arithmetic of `double` is a parameter. What stands in memory before the head of the list of
-- schedulers, which `sched_register` reads, is one too.
--
-- Not modelled: printing, locks, and the hardware; the attributes for sysctl, and the rest of the kernel.
-- Shifts by more than 31 have no meaning in the source: sizes above 2 ^ 31 are left out of the allocator's
-- theorems.
pub mod CString
pub mod Chunk
pub mod Common
pub mod Edf
pub mod Log2
pub mod MemMove
pub mod MemPool
pub mod ProcNet
pub mod ProcTask
pub mod ProcTracker
pub mod RoundRobin
pub mod Sched
pub mod Time
