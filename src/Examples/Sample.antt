-- ===== src/Examples/Sample.antt =====
-- A kernel in which two threads are queued, one of them with a job waiting, and facts about it.
use davros.Base.{ℕ, ◌+◌, refl, Option, none, some, List, [], ◌∷◌, arith, ◌==◌, if◌then◌else◌}
use davros.Dll.{Element, Heap, dll_thread, dll_exe, dll_max_u64_key}
use davros.Dll.Ring.{IsRing}
use davros.Dll.Queue.{IsPriorityQueue, IsTimeQueue, CanInsert}
use davros.RingBuffer.{RbState, rb_simple, rb_increment, load}
use davros.RingBuffer.Bytes.{four}
use davros.RingBuffer.Queue.{IsQueue}
use davros.Kernel.State.{
  Kernel, Executable, Thread, Semaphore, exe_active, exe_idle, thread_running, thread_ready,
  semaphore_immediateceiling, i32_zero, thread_queue, sleep_queue,
}
use davros.Examples.System.{blank, blank_element}

abbrev pub linked : (succ pred key : ℕ) → Option ℕ → Element
linked succ pred key payload = record {
  successor = succ;
  predecessor = pred;
  i32_key = i32_zero + key;
  u64_key = 0;
  payload_type = dll_thread;
  payload = payload;
}

abbrev pub timed : (link time : ℕ) → Element
timed link time = record {
  successor = link;
  predecessor = link;
  i32_key = i32_zero;
  u64_key = time;
  payload_type = dll_exe;
  payload = none;
}

-- The thread queue holds the links of threads 1 and 0, and the sleep queue one element.
abbrev pub sample_heap : Heap
sample_heap a =
    if a == 1
    then record (linked 8 4 0 none) { i32_key = 0 }
    else if a == 8
    then linked 4 1 5 (some 1)
    else if a == 4
    then linked 1 8 1 (some 0)
    else if a == 16
    then linked 0 0 3 (some 3)
    else if a == 2
    then timed 5 dll_max_u64_key
    else if a == 5
    then timed 2 100
    else if a == 9
    then timed 0 50
    else blank_element

-- The thread queue holds the link of thread 0 only.
abbrev pub short_heap : Heap
short_heap a =
    if a == 1
    then record (linked 4 4 0 none) { i32_key = 0 }
    else if a == 4
    then linked 1 1 1 (some 0)
    else blank_element

abbrev pub sample_exe : ℕ → Executable
sample_exe i = record (blank.exe i) {
  function = 65536 + i;
  thread = some (if i == 2 then 1 else i);
  registers = some i;
  id = i;
  initial_sp = 4096;
  baseprio = i32_zero + (if i == 0 then 1 else if i == 3 then 3 else 5);
  runprio = i32_zero + (if i == 1 then 6 else 1);
  state = if i == 3 then exe_idle else exe_active;
}

abbrev pub sample_thr : ℕ → Thread
sample_thr t =
    if t == 0
    then record (blank.thr 0) { executable = some 0; state = thread_ready }
    else if t == 1
    then record (blank.thr 1) {
      regs = some 1;
      executable = some 1;
      jobqueue = some 0;
      state = thread_running;
    }
    else blank.thr t

-- Mutex 0 is free, executable 0 has mutex 1, and executable 1 has mutex 2.
abbrev pub sample_sem : ℕ → Semaphore
sample_sem i = record (blank.sem i) {
  protocol = semaphore_immediateceiling;
  ceiling = i32_zero + 7;
  oldprio = i32_zero + 5;
  owner = if i == 1 then some 0 else if i == 2 then some 1 else none;
  count = i32_zero + (if i == 0 then 1 else 0);
}

abbrev pub sample : Kernel
sample = record blank {
  current_thread = some 1;
  heap = sample_heap;
  exe = sample_exe;
  thr = sample_thr;
  reg = λ i. record (blank.reg i) { gpr0 = 3 };
  sem = sample_sem;
  rbs = λ _. record {
    rb_type = rb_simple;
    writer_index = 1;
    reader_index = 0;
    length = 8;
    size = 4;
    n_alloc = 8;
    buf = some 0;
  };
  bytes = λ a. if a == 0 then 2 else 0;
}

-- The same where the caller's register names executable 2, which is active.
abbrev pub asking : Kernel
asking = record sample { reg = λ i. record (blank.reg i) { gpr0 = 2 } }

-- The same without a job queue.
abbrev pub workless : Kernel
workless = record sample { thr = λ t. record (sample_thr t) { jobqueue = none } }

-- The same when thread 0 was the last to run.
abbrev pub late : Kernel
late = record sample { current_thread = some 0 }

abbrev pub short : Kernel
short = record sample { heap = short_heap }

abbrev pub sample_queue : RbState
sample_queue = record { rb = sample.rbs 0; bytes = sample.bytes }

abbrev pub sample_links : List ℕ
sample_links = 8 ∷ (4 ∷ [])

abbrev pub sample_jobs : List ℕ
sample_jobs = 2 ∷ []

pub sample_heap-IsRing : IsRing sample_heap thread_queue (8 ∷ (4 ∷ []))
sample_heap-IsRing = record {
  chain = (refl, refl, (refl, refl, (refl, refl)));
  head_ne_null = omega arith;
  no_null = refl;
  head_outside = refl;
  distinct = (refl, (refl, tt));
}

pub short_heap-IsRing : IsRing short_heap thread_queue (4 ∷ [])
short_heap-IsRing = record {
  chain = (refl, refl, (refl, refl));
  head_ne_null = omega arith;
  no_null = refl;
  head_outside = refl;
  distinct = (refl, tt);
}

pub sample_heap-IsPriorityQueue : IsPriorityQueue sample_heap thread_queue (8 ∷ (4 ∷ []))
sample_heap-IsPriorityQueue = record {
  ring = sample_heap-IsRing;
  sorted = ((omega arith, tt), (tt, tt));
  least = refl;
}

pub sample_heap-IsTimeQueue : IsTimeQueue sample_heap sleep_queue (5 ∷ [])
sample_heap-IsTimeQueue = record {
  ring = record {
    chain = (refl, refl, (refl, refl));
    head_ne_null = omega arith;
    no_null = refl;
    head_outside = refl;
    distinct = (refl, tt);
  };
  sorted = (tt, tt);
  greatest = refl;
}

pub sample_heap-CanInsert : CanInsert 12 thread_queue 16 (8 ∷ (4 ∷ []))
sample_heap-CanInsert = record { ne_null = omega arith; outside = refl; enough = omega arith }

pub sample_heap-CanInsert_time : CanInsert 12 sleep_queue 9 (5 ∷ [])
sample_heap-CanInsert_time = record { ne_null = omega arith; outside = refl; enough = omega arith }

-- The one job that waits is executable 2.
pub sample_queue-IsQueue : IsQueue sample_queue 0 (2 ∷ [])
unfolding rb_increment load
sample_queue-IsQueue = record {
  buffer = refl;
  simple = refl;
  width = four;
  reader_lt = omega arith;
  writer_lt = omega arith;
  holds = (omega arith, refl, refl);
}
