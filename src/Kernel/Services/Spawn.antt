-- ===== src/Kernel/Services/Spawn.antt =====
-- The spawn call: its refusals, and an executable that is spawned in an idle thread.
use davros.Base.{
  ℕ, ◌<◌, ◌≡◌, ◌≢◌, ◌⊎◌, refl, true, false, Bool, none, some, List, ◌++◌, ◌∙◌, arith, update, has,
  length, if◌then◌else◌,
}
use davros.Run.{ok, pure}
use davros.Dll.{Ptr, dll_min_i32_key}
use davros.Kernel.State.{
  Config, Kernel, ErrorId, eid_none, index_out_of_range, unconfigured_executable,
  executable_quarantined, executable_not_idle, error_code, ExeState, exe_free, exe_disabled,
  exe_idle, exe_active, exe_suspended, exe_sleep, exe_lock_wait, exe_event_wait, thread_idle,
  i32_zero, thread_link, walk_fuel, out_of_range,
}
use davros.Kernel.State.Steps.{get_p0-ok, return_error-ok}
use davros.Kernel.Thread.{spawn_executable, spawn_executable_in_thread}
use davros.Kernel.Thread.Queueing.{ThreadQueue, HasQueued, spawn_executable_in_thread-HasQueued}
use davros.Kernel.Services.{sys_spawn, spawn_if_idle}

-- The kernel with executable `exe` active.
abbrev pub activated : Kernel → ℕ → Kernel
activated k exe = record k { exe = update k.exe exe (record (k.exe exe) { state = exe_active }) }

-- The kernel with error `e` in the first register of register store `r`.
abbrev pub answered : Kernel → (r : ℕ) → ErrorId → Kernel
answered k r e = record k { reg = update k.reg r (record (k.reg r) { gpr0 = error_code e }) }

-- Why an executable in the state cannot be spawned.
abbrev pub spawn_refusal : ExeState → ErrorId
spawn_refusal exe_free = unconfigured_executable
spawn_refusal exe_disabled = executable_quarantined
spawn_refusal _ = executable_not_idle

module _ (cfg : Config) (k : Kernel) (c r : ℕ) (running : k.current_thread ≡ some c)
    (stored : (k.thr c).regs ≡ some r) where
  refused :
      (exe : ℕ) (s : ExeState)
      → (k.exe exe).state ≡ s
      → s ≢ exe_idle
      → spawn_if_idle cfg exe k ≡ ok (spawn_refusal s) k
  unfolding spawn_if_idle
  refused exe exe_free e d = rw e
  refused exe exe_disabled e d = rw e
  refused exe exe_idle e d = absurd (d refl)
  refused exe exe_active e d = rw e
  refused exe exe_suspended e d = rw e
  refused exe exe_sleep e d = rw e
  refused exe exe_lock_wait e d = rw e
  refused exe exe_event_wait e d = rw e

  sys_spawn_run :
      (e : ErrorId) (k' : Kernel)
      → (if out_of_range (k.reg r).gpr0 cfg.n_executables
            then pure index_out_of_range
            else spawn_if_idle cfg (k.reg r).gpr0)
          k
        ≡ ok e k'
      → k'.current_thread ≡ some c
      → (k'.thr c).regs ≡ some r
      → sys_spawn cfg k ≡ ok tt (answered k' r e)
  unfolding sys_spawn
  sys_spawn_run e k' run running' stored' =
      rw (get_p0-ok k c r running stored, run, return_error-ok k' c r running' stored' e)

  -- If the current thread with a register store calls spawn with an index out of the table or of an
  -- executable that is not idle, the call returns, puts the error into the caller's register (out
  -- of range, not configured, quarantined or not idle), and changes nothing else.
  pub sys_spawn-refused :
      (((k.exe (k.reg r).gpr0).state ≢ exe_idle)
        ⊎ (out_of_range (k.reg r).gpr0 cfg.n_executables ≡ true))
      → sys_spawn cfg k
        ≡ ok tt (
            answered k r (
              if out_of_range (k.reg r).gpr0 cfg.n_executables
              then index_out_of_range
              else spawn_refusal (k.exe (k.reg r).gpr0).state))
  sys_spawn-refused why =
      sys_spawn_run _ k (tested (out_of_range (k.reg r).gpr0 cfg.n_executables) refl) running stored
    where
      tested :
          (b : Bool)
          → out_of_range (k.reg r).gpr0 cfg.n_executables ≡ b
          → (if b then pure index_out_of_range else spawn_if_idle cfg (k.reg r).gpr0) k
            ≡ ok (if b then index_out_of_range else spawn_refusal (k.exe (k.reg r).gpr0).state) k
      tested true e = refl
      tested false e =
          refused (k.reg r).gpr0 (k.exe (k.reg r).gpr0).state refl (ground (arith, why))

  module _ (exe t re : ℕ) (xs : List Ptr) where
    spawn_run :
        (k' : Kernel)
        → (k.exe exe).events ≡ none
        → (k.exe exe).dll_element ≡ none
        → (k.exe exe).thread ≡ some t
        → (k.thr t).state ≡ thread_idle
        → spawn_executable_in_thread cfg exe t (activated k exe) ≡ ok tt k'
        → spawn_executable cfg exe k ≡ ok eid_none k'
    unfolding spawn_executable
    spawn_run k' no_events no_element on_thread idle run =
        ground (arith, no_events, no_element, on_thread, idle, run)

    accepted :
        (k' : Kernel)
        → (k.reg r).gpr0 ≡ exe
        → exe < cfg.n_executables
        → exe < i32_zero
        → (k.exe exe).state ≡ exe_idle
        → spawn_executable cfg exe k ≡ ok eid_none k'
        → (if out_of_range (k.reg r).gpr0 cfg.n_executables
              then pure index_out_of_range
              else spawn_if_idle cfg (k.reg r).gpr0)
            k
          ≡ ok eid_none k'
    unfolding spawn_if_idle
    accepted k' number fits small idle_exe run =
        let inside : out_of_range exe cfg.n_executables ≡ false = ground arith in
        rw (number, inside, idle_exe, number, run)

    -- If the current thread calls spawn for an idle executable in the table, with no event status,
    -- no list element, registers and a base priority above the least, whose thread is another one,
    -- idle and not in the ordered thread queue, which is shorter than the fuel of a walk, then the
    -- call returns with no error in the caller's register: the executable is active, its registers
    -- are set to its entry point and initial stack, and the thread is queued with it behind all
    -- threads of the same or a higher priority and in front of all of a lower one.
    pub sys_spawn-HasQueued :
        (k.reg r).gpr0 ≡ exe
        → exe < cfg.n_executables
        → exe < i32_zero
        → (k.exe exe).state ≡ exe_idle
        → (k.exe exe).events ≡ none
        → (k.exe exe).dll_element ≡ none
        → (k.exe exe).thread ≡ some t
        → (k.exe exe).registers ≡ some re
        → (k.thr t).state ≡ thread_idle
        → t ≢ c
        → ThreadQueue k xs
        → has (thread_link t) xs ≡ false
        → dll_min_i32_key < (k.exe exe).baseprio
        → length xs < walk_fuel cfg
        → (k' : Kernel) × (before : List Ptr) × (after : List Ptr) × (sys_spawn cfg k ≡ ok tt k')
          × (before ++ after ≡ xs)
          × HasQueued (activated k exe) k' t exe before after
          × ((k'.reg r).gpr0 ≡ error_code eid_none)
          × ((k'.reg re).pc ≡ (k.exe exe).function)
          × ((k'.reg re).sp ≡ (k.exe exe).initial_sp)
    sys_spawn-HasQueued number fits small idle_exe no_events no_element on_thread registers idle
          other q out more enough =
        let self : (activated k exe).exe exe ≡ record (k.exe exe) { state = exe_active } =
          ground arith in
        let (k', before, after, run, split, done, pc, sp, _, _, _) =
          spawn_executable_in_thread-HasQueued cfg (activated k exe) t exe re xs q out
            (ground (arith, self)) enough (ground (arith, self)) in
        (
          answered k' r eid_none,
          before,
          after,
          sys_spawn_run eid_none k'
              (accepted k' number fits small idle_exe
                (spawn_run k' no_events no_element on_thread idle run))
              (done.current_is ∙ running) (ground (arith, done.thr_at c, stored)),
          split,
          record {
            thr_at = done.thr_at;
            queue = done.queue;
            above = done.above;
            below = done.below;
            key_at = done.key_at;
            payload_at = done.payload_at;
            exe_is = done.exe_is;
            sem_is = done.sem_is;
            current_is = done.current_is;
          },
          ground arith,
          ground (arith, pc, self),
          ground (arith, sp, self),
        )
