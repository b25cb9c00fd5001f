-- ===== src/Kernel/Dispatch.antt =====
-- Entry and exit of the kernel: davros-3/kernel/c/dv-syscall.c, dv-dispatch.c, dv-initkvars.c and
-- dv-start.c. The return to a thread is assembly code: `dispatch` ends with the thread returned to.
pub mod Entry
pub mod Preemption
pub mod Exit
use davros.Base.{ℕ, Option, none, some, List, [], ◌∷◌, same_ref, is_some, get_elem?, if◌then◌else◌}
use davros.Run.{
  thread_queue_empty, current_thread_not_queue_head, Cmd, pure, dv_panic, dv_assert, ◌>>=◌, ◌>>◌,
  get, modify, skip, deref,
}
use davros.Dll.{dll_priority, dll_time, dllinit, dllisempty}
use davros.Allocator.{init_allocator}
use davros.Kernel.State.{
  Config, Kernel, ExeConfig, thread_running, thread_ready, thread_queue, sleep_queue, edit_thr,
  on_heap, threadqueuehead,
}
use davros.Kernel.Thread.{spawn_executable}
use davros.Kernel.Executable.{create_executable}
use davros.Kernel.Semaphore.{set_runprio}
use davros.Kernel.Sleep.{sys_sleep, sys_sleep_until, sys_suspend}
use davros.Kernel.Services.{
  sys_null, sys_empty, sys_exit, sys_yield, sys_create_exe, sys_spawn, sys_resume,
  sys_create_semaphore, sys_destroy_semaphore, sys_uses_semaphore, sys_wait, sys_signal,
}

abbrev pub mark_ready : Option ℕ → Cmd Kernel (Unit {0})
mark_ready none = skip
mark_ready (some t) = edit_thr t (λ x. record x { state = thread_ready })

unfoldable pub dispatch : Cmd Kernel ℕ
dispatch = do
  k ← get
  head ← threadqueuehead
  dv_assert (is_some head) thread_queue_empty
  incoming ← deref head
  if same_ref k.current_thread head then skip else do
    mark_ready k.current_thread
    edit_thr incoming (λ x. record x { state = thread_running })
    modify (λ s. record s { current_thread = some incoming })
  set_runprio incoming
  pure incoming

-- The system calls by number.
abbrev pub syscalltable : Config → List (Cmd Kernel (Unit {0}))
syscalltable cfg =
    sys_null
    ∷ sys_exit cfg
    ∷ sys_yield cfg
    ∷ sys_create_exe cfg
    ∷ sys_empty
    ∷ sys_spawn cfg
    ∷ sys_empty
    ∷ sys_empty
    ∷ sys_sleep cfg
    ∷ sys_sleep_until cfg
    ∷ sys_suspend cfg
    ∷ sys_resume cfg
    ∷ sys_create_semaphore cfg
    ∷ sys_destroy_semaphore cfg
    ∷ sys_uses_semaphore cfg
    ∷ sys_wait cfg
    ∷ sys_signal cfg
    ∷ []

-- An index past the table is the unknown call.
unfoldable pub call_service : Config → (sc_index : ℕ) → Cmd Kernel (Unit {0})
call_service cfg sc_index = elim (get_elem? (syscalltable cfg) sc_index) [
  | none ↦ sys_empty
  | some service ↦ service
]

unfoldable pub syscall : Config → (sc_index : ℕ) → Cmd Kernel ℕ
syscall cfg sc_index = do
  empty ← on_heap (dllisempty thread_queue)
  if empty then dv_panic thread_queue_empty else do
    k ← get
    head ← threadqueuehead
    if same_ref k.current_thread head
        then (do call_service cfg sc_index; dispatch)
        else dv_panic current_thread_not_queue_head

-- The trace output and the stack pointer of the kernel are left out.
unfoldable pub init_kvars : Config → Cmd Kernel (Unit {0})
init_kvars cfg = do
  modify (λ k. record k { current_thread = none })
  on_heap (dllinit thread_queue dll_priority)
  on_heap (dllinit sleep_queue dll_time)
  modify (λ k. record k {
    exe_allocator = init_allocator cfg.n_executables;
    thr_allocator = init_allocator cfg.n_threads;
    reg_allocator = init_allocator cfg.n_registers;
    evs_allocator = init_allocator cfg.n_events;
    dllelem_allocator = init_allocator cfg.n_dll_elements;
    rb_allocator = init_allocator cfg.n_ringbuffers;
    rbbuf_allocator = init_allocator cfg.n_ringbufferwords;
    page_allocator = init_allocator cfg.n_pages;
    sem_allocator = init_allocator cfg.n_semaphores;
  })

-- The hardware's and the project's own initialisation, which change no kernel data, are left out.
unfoldable pub start : Config → (idle_cfg init_cfg : ExeConfig) → Cmd Kernel ℕ
start cfg idle_cfg init_cfg = do
  init_kvars cfg
  i ← create_executable cfg idle_cfg
  _ ← spawn_executable cfg i
  j ← create_executable cfg init_cfg
  _ ← spawn_executable cfg j
  dispatch
