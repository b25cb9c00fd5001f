-- ===== src/Examples/System.antt =====
-- A small system: the kernel started with an idle executable and an initial one, and some calls.
use davros.Base.{ℕ, ◌+◌, ◌*◌, ◌≡◌, refl, Option, none, some, false}
use davros.Run.{Run, ok, panic, fault, out_of_fuel, Cmd, ◌>>=◌, ◌>>◌}
use davros.Dll.{
  Element, dll_free, load, edit, dllinit, dllinsertbefore, dllremove, walk, dllinsertaftersame,
  dllinsertaftersame_elem, dllinsertbeforesame_elem, dllinserttime, dlldemote, dllisempty,
}
use davros.RingBuffer.{
  RingBuffer, rb_unused, rb_configure, rb_increment, store, append_element, rb_append_simple,
  remove_element, rb_remove_simple,
}
use davros.RingBuffer
use davros.Allocator.{
  ObjAllocator, init_allocator, find_free, allocate_obj, allocate_buf, deallocate_obj,
}
use davros.Kernel.State.{
  Config, Kernel, ExeState, ThreadState, ExeConfig, exe_free, exe_active, exe_sleep, thread_idle,
  thread_ready, semaphore_none, i32_zero, get_p0, get_p1, get_p2, set_rv0, set_rv1, return_error,
  readtime, set_system_timer_alarm, get_prio, set_prio, threadqueuehead, current, executable_of,
  current_regs, edit_reg,
}
use davros.Kernel.Alloc.{
  find_sharer, logical_and, shares_thread, shares_registers, shares_stack, allocate_new_thread,
  allocate_thread, allocate_new_registers, allocate_registers, allocate_eventstatus,
  allocate_dllelement, allocate_ringbuffer, allocate_page, allocate_stack, rb_allocate,
  deallocate_thread, deallocate_registers, deallocate_eventstatus, deallocate_dllelement,
}
use davros.Kernel.Thread.{
  set_registers, thread_rb_length, resume_executable_in_thread, spawn_executable_in_thread,
  get_thread_jobqueue, enqueue_job_in_jobqueue, spawn_executable, resume_executable, start_next_job,
  remove_executable_from_thread, terminate_executable_in_thread,
}
use davros.Kernel.Semaphore.{
  acquire_mutex, relinquish_mutex, wait_semimmceil, signal_semimmceil, set_runprio,
}
use davros.Kernel.Executable.{
  attach_thread, attach_registers, attach_events, attach_dllelement, attach_stack,
  configure_executable, create_executable, destroy_executable,
}
use davros.Kernel.Sleep.{
  return_error_to, fall_asleep, sys_sleep, sys_sleep_until, sys_suspend, wake_first, wakeup,
}
use davros.Kernel.Services.{
  sys_null, sys_empty, protocol_of, sys_exit, sys_yield, sys_create_exe, spawn_if_idle, sys_spawn,
  resume_if_suspended, sys_resume, new_semaphore, sys_create_semaphore, destroy_semaphore,
  sys_destroy_semaphore, uses_semaphore, sys_uses_semaphore, wait_semaphore, sys_wait,
  signal_semaphore, sys_signal,
}
use davros.Kernel.Dispatch.{dispatch, call_service, syscall, init_kvars, start}

abbrev pub blank_element : Element
blank_element = record {
  successor = 0;
  predecessor = 0;
  i32_key = i32_zero;
  u64_key = 0;
  payload_type = dll_free;
  payload = none;
}

-- A job at priority `p`, with the flags given, at a place in memory that tells the two.
abbrev exe_cfg : ℕ → ℕ → ExeConfig
exe_cfg p flags = record {
  name = 64 * p;
  function = 65536 * p;
  core = 0;
  n_stack = 16;
  priority = i32_zero + p;
  flags = flags;
}

-- The configuration at address 4 * p is a job at priority p, blocking if p is at most 5.
abbrev pub cfg : Config
cfg = record {
  n_executables = 6;
  n_threads = 6;
  n_registers = 6;
  n_events = 2;
  n_dll_elements = 4;
  n_ringbuffers = 2;
  n_ringbufferwords = 40;
  n_semaphores = 2;
  n_pages = 6;
  page_size = 4096;
  page_gap = 0;
  stack_extra = 0;
  min_threadrb = 8;
  round_threadrb = 4;
  min_sleep = 10;
  exit_address = 4096;
  page_address = λ i. 4096 * i;
  execonfig_at = λ p. exe_cfg p 8;
  clock = λ k. 100 * k;
}

abbrev no_allocator : ObjAllocator
no_allocator = record { n_free = 0; next = 0 }

-- Memory as the program loader leaves it.
abbrev pub blank : Kernel
blank = record {
  current_thread = none;
  heap = λ _. blank_element;
  exe = λ _. record {
    name = 0;
    function = 0;
    thread = none;
    registers = none;
    dll_element = none;
    events = none;
    stackpage = none;
    initial_sp = 0;
    semtaken = none;
    n_stack = 0;
    id = 0;
    baseprio = i32_zero;
    runprio = i32_zero;
    maxprio = i32_zero;
    flags = 0;
    state = exe_free;
  };
  thr = λ _. record {
    regs = none;
    executable = none;
    parent = none;
    jobqueue = none;
    state = thread_idle;
    current_prio = i32_zero;
    n_exe = 0;
  };
  reg = λ _. record {
    gpr0 = 0;
    gpr1 = 0;
    gpr2 = 0;
    gpr3 = 0;
    pc = 0;
    cpsr = 0;
    sp = 0;
    lr = 0;
    n_exe = 0;
  };
  evs = λ _. record { pending_events = 0; awaited_events = 0; allocated = false };
  rbs = λ _. record {
    rb_type = rb_unused;
    writer_index = 0;
    reader_index = 0;
    length = 0;
    size = 0;
    n_alloc = 0;
    buf = none;
  };
  sem = λ _. record {
    name = 0;
    owner = none;
    link = none;
    oldprio = i32_zero;
    ceiling = i32_zero;
    protocol = semaphore_none;
    count = i32_zero;
  };
  mem = λ _. record { page = none; n_use = 0 };
  bytes = λ _. 0;
  exe_allocator = no_allocator;
  thr_allocator = no_allocator;
  reg_allocator = no_allocator;
  evs_allocator = no_allocator;
  rb_allocator = no_allocator;
  rbbuf_allocator = no_allocator;
  dllelem_allocator = no_allocator;
  page_allocator = no_allocator;
  sem_allocator = no_allocator;
  reads = 0;
  alarm = none;
}

-- The idle executable has priority 1, the initial one 5.
boot : Cmd Kernel ℕ
boot = start cfg (exe_cfg 1 0) (exe_cfg 5 8)

-- Everything that a run computes with.
machine : Cmd Kernel ℕ
unfolding load edit dllinit dllinsertbefore dllremove walk dllinsertaftersame
    dllinsertaftersame_elem dllinsertbeforesame_elem dllinserttime dlldemote dllisempty rb_configure
    rb_increment store RingBuffer.load append_element rb_append_simple remove_element
    rb_remove_simple init_allocator find_free allocate_obj allocate_buf deallocate_obj get_p0 get_p1
    get_p2 set_rv0 set_rv1 return_error readtime set_system_timer_alarm get_prio set_prio current
    executable_of current_regs threadqueuehead find_sharer logical_and shares_thread
    shares_registers shares_stack allocate_new_thread allocate_thread allocate_new_registers
    allocate_registers allocate_eventstatus allocate_dllelement allocate_ringbuffer allocate_page
    allocate_stack rb_allocate deallocate_thread deallocate_registers deallocate_eventstatus
    deallocate_dllelement set_registers thread_rb_length resume_executable_in_thread
    spawn_executable_in_thread get_thread_jobqueue enqueue_job_in_jobqueue spawn_executable
    resume_executable start_next_job remove_executable_from_thread terminate_executable_in_thread
    acquire_mutex relinquish_mutex wait_semimmceil signal_semimmceil set_runprio attach_thread
    attach_registers attach_events attach_dllelement attach_stack configure_executable
    create_executable destroy_executable return_error_to fall_asleep sys_sleep sys_sleep_until
    sys_suspend wake_first wakeup sys_null sys_empty protocol_of sys_exit sys_yield sys_create_exe
    spawn_if_idle sys_spawn resume_if_suspended sys_resume new_semaphore sys_create_semaphore
    destroy_semaphore sys_destroy_semaphore uses_semaphore sys_uses_semaphore wait_semaphore
    sys_wait signal_semaphore sys_signal dispatch call_service syscall init_kvars start boot
machine = boot

-- What is left of a run: the panic, fault and lack of fuel are `none`.
view_of : {A B : Type 0} → (Kernel → A → B) → Run Kernel A → Option B
view_of view (ok a k) = some (view k a)
view_of view (panic p) = none
view_of view fault = none
view_of view out_of_fuel = none

observe : {A B : Type 0} → (Kernel → A → B) → Cmd Kernel A → Option B
unfolding view_of
observe view m = view_of view (m blank)

-- After the start the thread of the initial executable runs.
boot_runs_init : observe (λ k t. t) boot ≡ some 1
unfolding machine observe
boot_runs_init = refl

-- A system call by the running executable: its number, and the words that it passes.
call : (sc p0 p1 p2 : ℕ) → Cmd Kernel ℕ
call sc p0 p1 p2 = do
  r ← current_regs
  edit_reg r (λ g. record g { gpr0 = p0; gpr1 = p1; gpr2 = p2 })
  syscall cfg sc

-- What the call left in the first two registers of register store `r`.
result : ℕ → Kernel → ℕ × ℕ
result r k = ((k.reg r).gpr0, (k.reg r).gpr1)

-- A job of priority 8 is created as executable 2, and runs as soon as it is spawned.
spawn_preempts :
    observe {B = ℕ × ThreadState × ExeState × (ℕ × ℕ)}
      (λ k t. (t, (k.thr 1).state, (k.exe 2).state, result 1 k))
      (boot >>= λ _. call 3 8 0 0 >>= λ _. call 5 2 0 0)
    ≡ some (2, thread_ready, exe_active, (0, 0))
unfolding machine observe call result
spawn_preempts = refl

-- A job of priority 4 has to wait: the caller goes on running.
spawn_waits :
    observe {B = ℕ × ThreadState × (ℕ × ℕ)}
      (λ k t. (t, (k.thr 2).state, result 1 k))
      (boot >>= λ _. call 3 4 0 0 >>= λ _. call 5 2 0 0)
    ≡ some (1, thread_ready, (0, 0))
unfolding machine observe call result
spawn_waits = refl

-- After the initial executable has gone to sleep until time 300 + 1000 the idle one runs.
sleep_runs_idle :
    observe {B = ℕ × ExeState × Option ℕ × (ℕ × ℕ)}
      (λ k t. (t, (k.exe 1).state, k.alarm, result 1 k))
      (boot >>= λ _. call 8 1000 0 0)
    ≡ some (0, exe_sleep, some 1000, (0, 0))
unfolding machine observe call result
sleep_runs_idle = refl

-- The mutex raises its taker to the ceiling, and the signal puts the priority back.
mutex_round :
    observe {B = ℕ × Option ℕ × (ℕ × ℕ)}
      (λ k t. ((k.heap 8).i32_key, (k.sem 0).owner, result 1 k))
      (boot >>= λ _.
        call 12 1 5 1 >>= λ _. call 14 0 1 0 >>= λ _. call 15 0 0 0 >>= λ _. call 16 0 0 0)
    ≡ some (i32_zero + 5, none, (0, 0))
unfolding machine observe call result
mutex_round = refl
