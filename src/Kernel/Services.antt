-- ===== src/Kernel/Services.antt =====
-- The kernel side of the other system calls: davros-3/kernel/c/dv-sysnull.c, dv-sysexit.c,
-- dv-sysyield.c, dv-syscreateexe.c, dv-sysspawn.c, dv-sysresume.c, dv-syscreatesemaphore.c,
-- dv-sysdestroysemaphore.c, dv-sysusessemaphore.c, dv-syswait.c, dv-syssignal.c and those that the
-- source leaves empty. The system call's own index, which no call reads, is left out.
pub mod Spawn
pub mod Ceiling
use davros.Base.{
  ℕ, ◌+◌, ◌%◌, ◌^◌, Bool, true, false, ◌||◌, Option, none, some, ◌==◌, ltb, is_some, if◌then◌else◌,
  bit_and,
}
use davros.Run.{object_search_failed, Cmd, pure, dv_panic, ◌>>=◌, ◌>>◌, get, modify, skip, deref}
use davros.Dll.{dll_priority, dllinit, dllremove, dllinsertaftersame, dllisempty, load}
use davros.Allocator.{deallocate_obj}
use davros.Kernel.State.{
  Config, Kernel, ErrorId, eid_none, index_out_of_range, unconfigured_executable,
  executable_quarantined, invalid_pointer_parameter, executable_not_suspended, executable_not_idle,
  unknown_semaphore_protocol, invalid_count_for_mutex, unconfigured_semaphore, semaphore_occupied,
  not_implemented, exe_free, exe_disabled, exe_idle, exe_suspended, Protocol, semaphore_none,
  semaphore_fifo, semaphore_priority, semaphore_inheritance, semaphore_deferredceiling,
  semaphore_immediateceiling, flag_autodestroy, i32_zero, dv_min_priority, thread_queue,
  thread_link, semaphore_queue, walk_fuel, edit_sem, on_heap, current, executable_of, current_regs,
  get_p0, get_p1, get_p2, set_rv1, return_error, set_prio, out_of_range,
}
use davros.Kernel.Alloc.{allocate_from}
use davros.Kernel.Thread.{spawn_executable, resume_executable, terminate_executable_in_thread}
use davros.Kernel.Semaphore.{wait_semimmceil, signal_semimmceil}
use davros.Kernel.Executable.{create_executable, destroy_executable}

unfoldable pub sys_null : Cmd Kernel (Unit {0})
sys_null = skip

-- dv_sys_destroy_exe, dv_sys_chain, dv_sys_terminate and dv_sys_unknown
unfoldable pub sys_empty : Cmd Kernel (Unit {0})
sys_empty = skip

abbrev is_none_protocol : Protocol → Bool
is_none_protocol semaphore_none = true
is_none_protocol _ = false

-- The protocol with the number, for those between `none` and `nprotocols`.
unfoldable pub protocol_of : ℕ → Option Protocol
protocol_of n =
    if n == 1
    then some semaphore_fifo
    else if n == 2
    then some semaphore_priority
    else if n == 3
    then some semaphore_inheritance
    else if n == 4
    then some semaphore_deferredceiling
    else if n == 5
    then some semaphore_immediateceiling
    else none

abbrev is_counting : Protocol → Bool
is_counting semaphore_fifo = true
is_counting semaphore_priority = true
is_counting _ = false

module _ (cfg : Config) where
  unfoldable pub sys_exit : Cmd Kernel (Unit {0})
  sys_exit = do
    thr ← current
    exe ← executable_of thr
    terminate_executable_in_thread cfg thr
    k ← get
    if bit_and (k.exe exe).flags flag_autodestroy == 0 then skip else destroy_executable exe

  unfoldable pub sys_yield : Cmd Kernel (Unit {0})
  sys_yield = do
    thr ← current
    own ← on_heap (load (thread_link thr))
    succ ← on_heap (load own.successor)
    next ← deref succ.payload
    other ← on_heap (load (thread_link next))
    exe ← executable_of thr
    k ← get
    if ltb (k.exe exe).baseprio other.i32_key
        then (do
          on_heap (dllremove (thread_link thr))
          set_prio thr (k.exe exe).baseprio
          on_heap (dllinsertaftersame (walk_fuel cfg) thread_queue (thread_link thr)))
        else skip

  unfoldable pub sys_create_exe : Cmd Kernel (Unit {0})
  sys_create_exe = do
    p0 ← get_p0
    if bit_and p0 3 == 0
        then (do
          i ← create_executable cfg (cfg.execonfig_at p0)
          r ← current_regs
          set_rv1 r i
          return_error eid_none)
        else return_error invalid_pointer_parameter

  unfoldable pub spawn_if_idle : (exe : ℕ) → Cmd Kernel ErrorId
  spawn_if_idle exe = do
    k ← get
    elim ((k.exe exe).state) [
      | exe_idle ↦ spawn_executable cfg exe
      | exe_free ↦ pure unconfigured_executable
      | exe_disabled ↦ pure executable_quarantined
      | _ ↦ pure executable_not_idle
    ]

  unfoldable pub sys_spawn : Cmd Kernel (Unit {0})
  sys_spawn = do
    p0 ← get_p0
    e ← (if out_of_range p0 cfg.n_executables then pure index_out_of_range else spawn_if_idle p0)
    return_error e

  unfoldable pub resume_if_suspended : (exe : ℕ) → Cmd Kernel ErrorId
  resume_if_suspended exe = do
    k ← get
    elim ((k.exe exe).state) [
      | exe_suspended ↦ resume_executable cfg exe
      | exe_free ↦ pure unconfigured_executable
      | exe_disabled ↦ pure executable_quarantined
      | _ ↦ pure executable_not_suspended
    ]

  unfoldable pub sys_resume : Cmd Kernel (Unit {0})
  sys_resume = do
    p0 ← get_p0
    e ←
        (if out_of_range p0 cfg.n_executables
          then pure index_out_of_range
          else resume_if_suspended p0)
    return_error e

  -- The configuration of a new semaphore, once its protocol and count are accepted.
  unfoldable pub new_semaphore : (name : ℕ) (p : Protocol) (count : ℕ) → Cmd Kernel ErrorId
  new_semaphore name p count = do
    sem_i ←
        allocate_from (λ k. k.sem_allocator) (λ a k. record k { sem_allocator = a })
          cfg.n_semaphores (λ k j. is_none_protocol (k.sem j).protocol)
    elim sem_i [
      | none ↦ dv_panic object_search_failed
      | some i ↦ do
        on_heap (dllinit (semaphore_queue i) dll_priority)
        edit_sem i (λ _. record {
          name = name;
          owner = none;
          link = none;
          oldprio = dv_min_priority;
          ceiling = dv_min_priority;
          protocol = p;
          count = count;
        })
        r ← current_regs
        set_rv1 r i
        pure eid_none
    ]

  -- A count in a register is a two's complement word.
  unfoldable pub sys_create_semaphore : Cmd Kernel (Unit {0})
  sys_create_semaphore = do
    name ← get_p0
    p1 ← get_p1
    p2 ← get_p2
    let count = (p2 + i32_zero) % 2 ^ 32
    e ← elim (protocol_of p1) [
      | none ↦ pure unknown_semaphore_protocol
      | some p ↦
          if is_counting p || (count == i32_zero + 1)
          then new_semaphore name p count
          else pure invalid_count_for_mutex
    ]
    return_error e

  unfoldable pub destroy_semaphore : (sem : ℕ) → Cmd Kernel ErrorId
  destroy_semaphore sem = do
    k ← get
    if is_none_protocol (k.sem sem).protocol
        then pure unconfigured_semaphore
        else if is_some (k.sem sem).owner
        then pure semaphore_occupied
        else do
          empty ← on_heap (dllisempty (semaphore_queue sem))
          if empty
              then (do
                edit_sem sem (λ s. record s { name = 0 })
                on_heap (dllinit (semaphore_queue sem) dll_priority)
                edit_sem sem (λ s. record s {
                  link = none;
                  oldprio = dv_min_priority;
                  ceiling = dv_min_priority;
                  protocol = semaphore_none;
                  count = i32_zero;
                })
                modify (λ s. record s { sem_allocator = deallocate_obj s.sem_allocator })
                pure eid_none)
              else pure semaphore_occupied

  unfoldable pub sys_destroy_semaphore : Cmd Kernel (Unit {0})
  sys_destroy_semaphore = do
    sem_i ← get_p0
    e ←
        (if out_of_range sem_i cfg.n_semaphores
          then pure index_out_of_range
          else destroy_semaphore sem_i)
    return_error e

  -- The ceiling becomes at least the priority of an executable that uses the semaphore.
  unfoldable pub uses_semaphore : (sem exe_i : ℕ) → Cmd Kernel ErrorId
  uses_semaphore sem exe_i = do
    k ← get
    if out_of_range exe_i cfg.n_executables
        then pure index_out_of_range
        else elim ((k.exe exe_i).state) [
          | exe_free ↦ pure unconfigured_executable
          | _ ↦ do
            if ltb (k.sem sem).ceiling (k.exe exe_i).baseprio
                then edit_sem sem (λ s. record s { ceiling = (k.exe exe_i).baseprio })
                else skip
            pure eid_none
        ]

  unfoldable pub sys_uses_semaphore : Cmd Kernel (Unit {0})
  sys_uses_semaphore = do
    sem_i ← get_p0
    k ← get
    e ←
        (if out_of_range sem_i cfg.n_semaphores
          then pure index_out_of_range
          else if is_none_protocol (k.sem sem_i).protocol
          then pure unconfigured_semaphore
          else do exe_i ← get_p1; uses_semaphore sem_i exe_i)
    return_error e

  -- The waits of the protocols fifo, priority and deferred ceiling are not implemented.
  unfoldable pub wait_semaphore : (sem : ℕ) → Cmd Kernel ErrorId
  wait_semaphore sem = do
    k ← get
    elim ((k.sem sem).protocol) [
      | semaphore_fifo ↦ pure not_implemented
      | semaphore_priority ↦ pure not_implemented
      | semaphore_deferredceiling ↦ pure not_implemented
      | semaphore_immediateceiling ↦ wait_semimmceil sem
      | semaphore_none ↦ pure unconfigured_semaphore
      | semaphore_inheritance ↦ pure unconfigured_semaphore
    ]

  unfoldable pub sys_wait : Cmd Kernel (Unit {0})
  sys_wait = do
    sem_i ← get_p0
    e ←
        (if out_of_range sem_i cfg.n_semaphores
          then pure index_out_of_range
          else wait_semaphore sem_i)
    return_error e

  unfoldable pub signal_semaphore : (sem : ℕ) → Cmd Kernel ErrorId
  signal_semaphore sem = do
    k ← get
    elim ((k.sem sem).protocol) [
      | semaphore_fifo ↦ pure not_implemented
      | semaphore_priority ↦ pure not_implemented
      | semaphore_deferredceiling ↦ pure not_implemented
      | semaphore_immediateceiling ↦ signal_semimmceil cfg sem
      | semaphore_none ↦ pure unconfigured_semaphore
      | semaphore_inheritance ↦ pure unconfigured_semaphore
    ]

  unfoldable pub sys_signal : Cmd Kernel (Unit {0})
  sys_signal = do
    sem_i ← get_p0
    e ←
        (if out_of_range sem_i cfg.n_semaphores
          then pure index_out_of_range
          else signal_semaphore sem_i)
    return_error e
