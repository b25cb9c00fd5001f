-- ===== src/Lib.antt =====
-- davros: a model of the two operating systems of the repository, both in C, with theorems about
-- them: the davros-3 kernel, a small real-time kernel, and davroska, an OSEK-like scheduler. A
-- third part is what they share of the library: formatted output, arrays of words, strings and ring
-- buffers of characters.
--
-- The parts of davros-3. Executables (tasks) run in threads. The kernel keeps the threads that can
-- run in a thread queue, a doubly-linked ring ordered by priority, and the sleepers in a sleep
-- queue, ordered by time. A thread that is busy keeps the executables that wait for it in a ring
-- buffer, its job queue. All objects come from fixed tables with an allocator each. A system call
-- enters at the kernel's entry, which checks that the caller is the first of the thread queue,
-- calls the service, and ends in the dispatcher, which returns to the first thread of the queue.
-- Mutexes raise the priority of the thread that takes them to a ceiling.
--
-- The parts of davroska. Tasks and interrupt service routines are executables with a priority each.
-- Each priority has a queue, a ring buffer in an array of slots, and the scheduler runs the heads
-- of the queues above the priority of its caller until those queues are empty; an activation and
-- the drop of a mutex call it. Mutexes raise the priority of the executable that takes them to a
-- ceiling. Counters have lists of alarms in the order of their times; the advance of a counter
-- calls the expiry functions of those that are due, which may activate tasks. Executables, groups,
-- mutexes, counters and alarms are configured at the start.
--
-- Which file models which part (C files in davros-3/kernel/c, headers in davros-3/kernel/h):
-- - Base: numbers, tests, lists and updates of functions that all files share.
-- - Run: a command on a state, which ends with a result, a panic (dv_panic and dv_assert of
--   dv-error.h), a fault (a null pointer is followed) or out of fuel.
-- - Dll: the elements and operations of dv-doublylinkedlist.h, dv-dllinit.c,
--   dv-dllinsertaftersame.c, dv-dllinsertbeforesame.c and dv-dllinserttime.c (dv_dllremove is
--   dllremove, and so on). Dll/Ring says what a ring stands for; Links, Insert, Walk, Remove,
--   Queue, Demote and Keys prove what the operations do to it.
-- - RingBuffer: dv-ringbuffer.h, dv-rbappendsimple.c, dv-rbremovesimple.c. RingBuffer/Bytes is
--   about elements in memory, RingBuffer/Queue about the queue that a buffer holds.
-- - Allocator: dv-allocateobj.c, dv_allocate_buf of dv-allocatebuf.c, and the allocator of
--   dv-kernel.h. Search and Count hold its proofs.
-- - Kernel/State: the structures of dv-kernel.h, dv-coreconfig.h, dv-executable.h, dv-thread.h,
--   dv-semaphore.h, dv-event.h, dv-mempage.h, dv-error.h and
--   davros-3/cpufamily/arm/h/dv-arm-registers.h.
-- - Kernel/Alloc: the other dv-allocate files. Kernel/Executable: dv-createexecutable.c,
--   dv-destroyexecutable.c.
-- - Kernel/Thread: dv-spawnexecutable.c, dv-spawnexecutableinthread.c, dv-resumeexecutable.c,
--   dv-terminateexecutableinthread.c; Queueing, Leaving, Ending and Jobs hold its proofs.
-- - Kernel/Semaphore: dv-immediateceiling.c, dv-semaphore-inline.h; Taking, Release and Round hold
--   its proofs.
-- - Kernel/Sleep: dv-syssleep.c, dv-syssleepuntil.c, dv-syssuspend.c, dv-wakeup.c. Kernel/Services:
--   the other system calls; Spawn holds the proofs for spawn, Ceiling those for the ceiling of a
--   mutex.
-- - Kernel/Dispatch: dv-syscall.c, dv-dispatch.c, dv-initkvars.c, dv-start.c; Entry holds its
--   proofs, and Preemption and Exit those on a spawn and an exit from entry to return.
-- - Davroska/State: the types and tables of davroska/h/davroska.h, davroska/h/davroska-osek.h and
--   davroska/c/davroska.c, and callout_reporterror. Davroska/Queue: the queues of
--   davroska/h/davroska-inline.h; Fifo holds the proofs. Davroska/Priority, Mutex and Schedule: the
--   runtime services of davroska/c/davroska.c (dv_takemutex is takemutex, and so on); Mutex/Pairs,
--   and Schedule/Drain, Rounds, Complete and Activate hold the proofs. Davroska/Extended:
--   davroska/c/davroska-extended.c (dv_runextended is in Schedule); Extended/Alert, Request,
--   Release and Stacks and Schedule/Anchor hold the proofs. Davroska/Interrupts:
--   davroska/hardware/common/c/dv-arm-bcm2835-interruptcontroller.c and
--   devices/h/dv-arm-bcm2835-interruptcontroller.h, with levels (dv_setirqlevel is setirqlevel, and
--   so on); Lines, Levels, Switches, Disabling and Handler hold the proofs. Davroska/Config and
--   Start: the rest of davroska/c/davroska.c; Config/Slots and Ceilings hold the proofs.
-- - Davroska/Time: davroska/c/davroska-time.c; Links, Insert, Expire and Stop hold the proofs.
--   Davroska/Osek, with Objects and Expiry: davroska/c/davroska-osek.c (SetRelAlarm and SetAbsAlarm
--   are set_rel_alarm and set_abs_alarm); SetAlarm holds the proofs.
-- - Printf: the conversion of numbers in lib/c/dv-xprintf.c (prt10, prt16 and convert);
--   Printf/Decimal and Digits hold its proofs. Printf/Format: the rest of dv_xprintf there;
--   Printf/Format/Ends holds its proof.
-- - Strings: lib/h/dv-string.h and lib/c/dv-memset32.c (dv_strcmp is strcmp, and so on);
--   Strings/Copying and Comparing hold the proofs.
-- - ByteRing: lib/h/dv-ringbuf.h (dv_rb_u8_put is rb_u8_put, and so on); ByteRing/Kernel holds the
--   proofs.
-- - Examples: runs of the whole kernel, and the theorems at small inputs.
--
-- Conventions. A pointer to an object of a table is its index, and a null pointer is none; a list
-- element is at an address, and 0 is null. The addresses of different elements differ. The union of
-- a 32-bit and a 64-bit key is two fields, since a list uses one of them. A signed 32-bit number x
-- is written as x + 2^31, so that 0 is the least; other numbers wrap where the source's types do.
-- Assertions are on. Debug output, trace and coverage are left out.
--
-- In davroska an id that is stored is an option, none for -1, and 16-bit ids, priorities and
-- quantities that come from outside are two's complement words. What an executable does is a
-- sequence of calls, after whose last it returns; the jump of dv_terminatetask is the end of that
-- sequence. The stack of an extended task that waits is what the task has still to do, and a jump
-- to the kernel stack is a call; a jump to a call that has returned is a fault. No interrupt is
-- taken in between; the handler of one is modelled on its own. The project's callouts, functions
-- and expiry functions are parameters, and so is the interrupt controller where another part calls
-- its driver. In the formatted output an int has 32 bits and a long 64, both in two's complement.
--
-- Bounds and fuel. The walks along a ring take the fuel walk_fuel, which is more than the number of
-- elements that the tables have (one for each thread, one for each list element), so a ring of
-- distinct elements ends within it; the theorems on insertions have the bound as a hypothesis and
-- show that the walk returns. The loop of dv_wakeup takes fuel too. In davroska the walks along
-- lists of alarms and mutexes take the number of those as fuel, and the scheduler and the loop over
-- the alarms that are due take any; the theorems on them say how much is enough. The loop of
-- dv_xprintf takes the length of the format and one more; the walks along strings take any fuel,
-- and the length of a string and one more is enough. All other loops go round a table.
--
-- Not modelled: assembly code, interrupts and hardware of davros-3/cpufamily and davros-3/board,
-- the kernel's console, c0 and cores; davroska's printing and USB code, and the rest of
-- davroska/hardware; the rest of lib and of devices, demos and testsuite. The system timer, user
-- memory and the addresses of pages are fields of the configuration.
pub mod Base
pub mod Run
pub mod Dll
pub mod RingBuffer
pub mod Allocator
pub mod Kernel
pub mod Davroska
pub mod Printf
pub mod Strings
pub mod ByteRing
pub mod Examples
