-- ===== src/Kernel/Thread.antt =====
-- Executables in threads: davros-3/kernel/c/dv-spawnexecutableinthread.c, dv-spawnexecutable.c,
-- dv-resumeexecutable.c and dv-terminateexecutableinthread.c. Objects are given by their indices.
pub mod Queueing
pub mod Ending
pub mod Leaving
pub mod Jobs
use davros.Base.{ℕ, ◌+◌, ◌-◌, ◌%◌, none, some, ltb, ◌==◌, is_some, if◌then◌else◌}
use davros.Run.{
  unimplemented, object_search_failed, internal_error, Cmd, pure, dv_panic, ◌>>=◌, ◌>>◌, get,
  modify, skip, deref,
}
use davros.Dll.{dll_exe, null, edit, dllremove, dllinsertaftersame}
use davros.RingBuffer.{rb_simple, rb_configure, rb_append_simple, rb_remove_simple}
use davros.Kernel.State.{
  Config, Kernel, ErrorId, eid_none, thread_job_queue_full, thread_idle, thread_running,
  thread_ready, exe_active, exe_idle, thread_queue, thread_link, dll_element_at, walk_fuel,
  edit_exe, edit_thr, edit_reg, edit_evs, on_heap, on_ringbuffer, on_queue, executable_of, set_prio,
  out_of_range,
}
use davros.Kernel.Alloc.{allocate_ringbuffer, rb_allocate}

-- `dv_set_registers(exe->registers, exe)`; 0x5f is DV_ARM_MODE_SYS | DV_ARM_FIQ_DIS.
unfoldable pub set_registers : Config → (exe : ℕ) → Cmd Kernel (Unit {0})
set_registers cfg exe = do
  k ← get
  r ← deref (k.exe exe).registers
  edit_reg r (λ g. record g {
    pc = (k.exe exe).function;
    cpsr = 0x5f;
    sp = (k.exe exe).initial_sp;
    lr = cfg.exit_address;
  })

unfoldable pub thread_rb_length : Config → ℕ → ℕ
thread_rb_length cfg n =
    if ltb n cfg.min_threadrb
    then cfg.min_threadrb
    else n + cfg.round_threadrb - n % cfg.round_threadrb

module _ (cfg : Config) where
  unfoldable pub resume_executable_in_thread : (exe thr : ℕ) → Cmd Kernel (Unit {0})
  resume_executable_in_thread exe thr = do
    k ← get
    edit_thr thr (λ t. record t {
      executable = some exe;
      parent = none;
      state = thread_ready;
      regs = (k.exe exe).registers;
    })
    set_prio thr (k.exe exe).baseprio
    on_heap (dllinsertaftersame (walk_fuel cfg) thread_queue (thread_link thr))

  unfoldable pub spawn_executable_in_thread : (exe thr : ℕ) → Cmd Kernel (Unit {0})
  spawn_executable_in_thread exe thr = do set_registers cfg exe; resume_executable_in_thread exe thr

  unfoldable pub get_thread_jobqueue : (exe : ℕ) → Cmd Kernel ℕ
  get_thread_jobqueue exe = do
    k ← get
    t ← deref (k.exe exe).thread
    elim ((k.thr t).jobqueue) [
      | some q ↦ pure q
      | none ↦ do
        rb ← allocate_ringbuffer cfg
        edit_thr t (λ x. record x { jobqueue = rb })
        elim rb [
          | none ↦ dv_panic object_search_failed
          | some q ↦ do
            on_ringbuffer q (rb_configure rb_simple 4 (thread_rb_length cfg (k.thr t).n_exe))
            rb_allocate q
            pure q
        ]
    ]

  unfoldable pub enqueue_job_in_jobqueue : (exe : ℕ) → Cmd Kernel ErrorId
  enqueue_job_in_jobqueue exe = do
    q ← get_thread_jobqueue exe
    k ← get
    n ← on_queue q (rb_append_simple (k.exe exe).id)
    pure (if n == 0 then thread_job_queue_full else eid_none)

  -- `exe->thread->state == dv_thread_idle`, and what follows it in both callers.
  abbrev run_or_enqueue :
      (start : (exe thr : ℕ) → Cmd Kernel (Unit {0})) (exe : ℕ) → Cmd Kernel ErrorId
  run_or_enqueue start exe = do
    k ← get
    t ← deref (k.exe exe).thread
    elim ((k.thr t).state) [
      | thread_idle ↦ do start exe t; pure eid_none
      | thread_running ↦ enqueue_job_in_jobqueue exe
      | thread_ready ↦ enqueue_job_in_jobqueue exe
    ]

  unfoldable pub spawn_executable : (exe : ℕ) → Cmd Kernel ErrorId
  spawn_executable exe = do
    edit_exe exe (λ e. record e { state = exe_active })
    k ← get
    elim ((k.exe exe).events) [
      | none ↦ skip
      | some v ↦ edit_evs v (λ s. record s { pending_events = 0; awaited_events = 0 })
    ]
    elim ((k.exe exe).dll_element) [
      | none ↦ skip
      | some i ↦ on_heap (
          edit (dll_element_at i) (λ x. record x {
            successor = null;
            predecessor = null;
            u64_key = 0;
            payload_type = dll_exe;
            payload = some exe;
          }))
    ]
    run_or_enqueue spawn_executable_in_thread exe

  unfoldable pub resume_executable : (exe : ℕ) → Cmd Kernel ErrorId
  resume_executable exe = do
    edit_exe exe (λ e. record e { state = exe_active })
    run_or_enqueue resume_executable_in_thread exe

  -- The next job of the thread's queue, if there is one, takes the thread.
  unfoldable pub start_next_job : (thr : ℕ) → Cmd Kernel (Unit {0})
  start_next_job thr = do
    k ← get
    elim ((k.thr thr).jobqueue) [
      | none ↦ skip
      | some q ↦ do
        job ← on_queue q rb_remove_simple
        elim job [
          | none ↦ skip
          | some exe_id ↦
              if out_of_range exe_id cfg.n_executables
              then dv_panic internal_error
              else spawn_executable_in_thread exe_id thr
        ]
    ]

  unfoldable pub remove_executable_from_thread : (thr : ℕ) → Cmd Kernel (Unit {0})
  remove_executable_from_thread thr = do
    on_heap (dllremove (thread_link thr))
    edit_thr thr (λ t. record t { state = thread_idle })
    exe ← executable_of thr
    k ← get
    if is_some (k.exe exe).semtaken then dv_panic unimplemented else skip
    edit_thr thr (λ t. record t { executable = none; regs = none; parent = none })
    modify (λ s. record s { current_thread = none })
    start_next_job thr

  unfoldable pub terminate_executable_in_thread : (thr : ℕ) → Cmd Kernel (Unit {0})
  terminate_executable_in_thread thr = do
    exe ← executable_of thr
    edit_exe exe (λ e. record e { state = exe_idle })
    remove_executable_from_thread thr
