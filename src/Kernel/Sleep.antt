-- ===== src/Kernel/Sleep.antt =====
-- Blocking and waking: davros-3/kernel/c/dv-syssleep.c, dv-syssleepuntil.c, dv-syssuspend.c and
-- dv-wakeup.c. Time stamps are 64-bit.
use davros.Base.{ℕ, zero, suc, ◌+◌, ◌*◌, ◌%◌, ◌^◌, leb, ◌==◌, is_some, if◌then◌else◌, bit_and}
use davros.Run.{
  initialisation_error, unimplemented, out_of_fuel, Cmd, pure, dv_panic, dv_assert, ◌>>=◌, ◌>>◌,
  get, skip, deref,
}
use davros.Dll.{
  dll_free, dll_thread, dll_exe, dll_max_u64_key, load, edit, dllremove, dllinserttime,
}
use davros.Kernel.State.{
  Config, Kernel, ErrorId, eid_none, executable_is_non_blocking, executable_occupies_semaphore,
  time_in_the_past, error_code, exe_sleep, exe_suspended, flag_blocking, sleep_queue,
  dll_element_at, walk_fuel, edit_exe, on_heap, current, executable_of, get_p0, get_p1, set_rv0,
  readtime, set_system_timer_alarm,
}
use davros.Kernel.Thread.{remove_executable_from_thread, resume_executable}

-- `dv_set_rv0(exe->registers, e)`
unfoldable pub return_error_to : (exe : ℕ) → ErrorId → Cmd Kernel (Unit {0})
return_error_to exe e = do k ← get; r ← deref (k.exe exe).registers; set_rv0 r (error_code e)

-- The guards that the three calls share, in front of what else each of them does.
abbrev blocking_call : (exe : ℕ) → Cmd Kernel ErrorId → Cmd Kernel ErrorId
blocking_call exe body = do
  k ← get
  if bit_and (k.exe exe).flags flag_blocking == 0
      then pure executable_is_non_blocking
      else if is_some (k.exe exe).semtaken
      then pure executable_occupies_semaphore
      else body

module _ (cfg : Config) where
  -- The executable leaves its thread and goes into the sleep queue until the time that `wake` gives.
  unfoldable pub fall_asleep : (exe : ℕ) (wake : Cmd Kernel ℕ) → Cmd Kernel ErrorId
  fall_asleep exe wake = do
    k ← get
    dv_assert (is_some (k.exe exe).dll_element) initialisation_error
    thr ← current
    remove_executable_from_thread cfg thr
    edit_exe exe (λ e. record e { state = exe_sleep })
    t ← wake
    k' ← get
    d ← deref (k'.exe exe).dll_element
    on_heap (edit (dll_element_at d) (λ x. record x { u64_key = t }))
    at_head ← on_heap (dllinserttime (walk_fuel cfg) sleep_queue (dll_element_at d))
    if at_head then set_system_timer_alarm t else skip
    pure eid_none

  unfoldable pub sys_sleep : Cmd Kernel (Unit {0})
  sys_sleep = do
    p0 ← get_p0
    thr ← current
    exe ← executable_of thr
    e ← blocking_call exe (
        if leb cfg.min_sleep p0
        then fall_asleep exe (do now ← readtime cfg; pure ((now + p0) % 2 ^ 64))
        else pure time_in_the_past)
    return_error_to exe e

  unfoldable pub sys_sleep_until : Cmd Kernel (Unit {0})
  sys_sleep_until = do
    thr ← current
    exe ← executable_of thr
    e ← blocking_call exe do
      p0 ← get_p0
      p1 ← get_p1
      let t = p1 * 2 ^ 32 + p0
      now ← readtime cfg
      if leb ((now + cfg.min_sleep) % 2 ^ 64) t
          then fall_asleep exe (pure t)
          else pure time_in_the_past
    return_error_to exe e

  unfoldable pub sys_suspend : Cmd Kernel (Unit {0})
  sys_suspend = do
    thr ← current
    exe ← executable_of thr
    e ← blocking_call exe do
      remove_executable_from_thread cfg thr
      edit_exe exe (λ x. record x { state = exe_suspended })
      pure eid_none
    return_error_to exe e

  -- One sleeper is taken out of the queue and resumed; the error of resuming is dropped.
  unfoldable pub wake_first : (first : ℕ) → Cmd Kernel (Unit {0})
  wake_first first = do
    x ← on_heap (load first)
    on_heap (dllremove first)
    elim (x.payload_type) [
      | dll_exe ↦ do
        exe ← deref x.payload
        k ← get
        d ← deref (k.exe exe).dll_element
        on_heap (edit (dll_element_at d) (λ y. record y { u64_key = 0 }))
        _ ← resume_executable cfg exe
        skip
      | dll_free ↦ dv_panic unimplemented
      | dll_thread ↦ dv_panic unimplemented
    ]

  -- The result is the time for the next alarm.
  unfoldable pub wakeup : (fuel : ℕ) → Cmd Kernel ℕ
  wakeup zero = λ _. out_of_fuel
  wakeup (suc fuel) = do
    now ← readtime cfg
    head ← on_heap (load sleep_queue)
    first ← on_heap (load head.successor)
    if first.u64_key == dll_max_u64_key
        then pure ((now + 1000000) % 2 ^ 64)
        else if leb first.u64_key ((now + cfg.min_sleep) % 2 ^ 64)
        then (do wake_first head.successor; wakeup fuel)
        else pure first.u64_key
