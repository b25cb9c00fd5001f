-- ===== src/Davroska/Schedule.antt =====
-- The scheduler and the activation of executables: `dv_runqueued`, `dv_activatetask`, `dv_chaintask`
-- and `dv_terminatetask` of davroska/c/davroska.c, with `dv_runextended` of davroska-extended.c. What an executable does is the sequence of its calls.
-- Interrupts are not taken while executables run.
pub mod Drain
pub mod Rounds
pub mod Complete
pub mod Activate
pub mod Anchor
use davros.Base.{
  ℕ, zero, suc, ◌+◌, ◌-◌, ◌^◌, Bool, true, false, Option, none, some, [], ◌∷◌, leb, ltb, not, ◌&&◌,
  ◌||◌, ◌==◌, same_ref, is_some, if◌then◌else◌,
}
use davros.Run.{
  out_of_fuel, Cmd, queue_corrupt, current_exe_corrupt, current_exe_dead, pure, get, modify, skip,
  ◌>>=◌, ◌>>◌,
}
use davros.Davroska.State.{
  Os, Sizes, DvExe, with_ext, Program, finish, call, wait_event, get_event, Call, activate_task,
  chain_task, take_mutex, drop_mutex, stop_alarm, terminate_task, set_alarm_abs, set_alarm_rel,
  advance_counter, set_event, clear_event, TaskState, suspended, ready, running, waiting, Status,
  e_ok, e_id, e_limit, sid_activatetask, sid_chaintask, with_exe, os_panic, not_a_task,
  out_of_table, param_of, reporterror, setirqlevel,
}
use davros.Davroska.Queue.{enqueue, qhead, dequeue}
use davros.Davroska.Mutex.{takemutex, give_back, dropmutex}
use davros.Davroska.Extended.{
  clearpending, set_onkernelstack, waitevent, released, getevent, clearevent, setevent,
  runqueued_onkernelstack,
}
use davros.Davroska.Time.{setalarm_abs, setalarm_rel, stopalarm, advancecounter}

abbrev pub is_running : TaskState → Bool
is_running running = true
is_running suspended = false
is_running ready = false
is_running waiting = false

-- `runqueued` is the scheduler, `dv_runqueued_onkernelstack`.
module _ (runqueued : (high low : ℕ) → Cmd Os (Unit {0})) where
  unfoldable pub activateexe2 : (e : ℕ) → Cmd Os Status
  activateexe2 e = do
    s ← get
    let x = s.exe e
    modify (
        with_exe e (λ r. record r {
          nact = x.nact + 1;
          state = if is_running x.state then x.state else ready;
        }))
    clearpending e
    enqueue x.baseprio e
    runqueued x.baseprio (s.exe s.currentexe).currprio
    pure e_ok

  unfoldable pub activateexe : (e : ℕ) → Cmd Os Status
  activateexe e = do
    s ← get
    if leb (s.exe e).maxact (s.exe e).nact
        then reporterror sid_activatetask e_limit 1 (param_of e ∷ [])
        else activateexe2 e

  unfoldable pub activatetask : (t : ℕ) → Cmd Os Status
  activatetask t = do
    s ← get
    if not_a_task t s.ntask
        then reporterror sid_activatetask e_id 1 (param_of t ∷ [])
        else activateexe t

  -- The sanity checks before the jump to the executable's end.
  unfoldable pub check_current : Cmd Os (Unit {0})
  check_current = do
    s ← get
    if out_of_table s.currentexe s.nexe then os_panic current_exe_corrupt else skip
    if (s.exe s.currentexe).jb then skip else os_panic current_exe_dead

  -- The answer `none` is the jump to the end of the executable.
  unfoldable pub chaintask : (t : ℕ) → Cmd Os (Option Status)
  chaintask t = do
    s ← get
    if not_a_task t s.ntask
        then (do e ← reporterror sid_chaintask e_id 1 (param_of t ∷ []); pure (some e))
        else if not (t == s.currentexe) && leb (s.exe t).maxact (s.exe t).nact
        then (do e ← reporterror sid_chaintask e_limit 1 (param_of t ∷ []); pure (some e))
        else do check_current; _ ← activateexe2 t; pure none

  unfoldable pub terminatetask : Cmd Os (Option Status)
  terminatetask = do check_current; pure none

  module _ (sz : Sizes) (expiry : (f a d : ℕ) → Cmd Os ℕ) (ticks : ℕ) where
    -- `ticks` is the fuel of a counter's advance.
    unfoldable pub do_call : Call → Cmd Os (Option Status)
    do_call (activate_task t) = do e ← activatetask t; pure (some e)
    do_call (chain_task t) = chaintask t
    do_call (take_mutex m) = do e ← takemutex m; pure (some e)
    do_call (drop_mutex m) = do e ← dropmutex runqueued m; pure (some e)
    do_call (stop_alarm a) = do e ← stopalarm a; pure (some e)
    do_call terminate_task = terminatetask
    do_call (set_alarm_abs c a v) = do e ← setalarm_abs c a v; pure (some e)
    do_call (set_alarm_rel c a v) = do e ← setalarm_rel c a v; pure (some e)
    do_call (advance_counter c n) = do
      e ← advancecounter expiry sz runqueued ticks c n
      pure (some e)
    do_call (set_event t evts) = do e ← setevent runqueued t evts; pure (some e)
    do_call (clear_event evts) = do e ← clearevent evts; pure (some e)

    unfoldable pub run_program : Program → Cmd Os (Unit {0})
    run_program finish = skip
    run_program (call c k) = do r ← do_call c; elim r [ none ↦ skip | some e ↦ run_program (k e) ]
    run_program (wait_event evts k) = do
      r ← waitevent evts (k e_ok)
      elim r [ none ↦ skip | some e ↦ run_program (k e) ]
    run_program (get_event t k) = do r ← getevent t; run_program (k r.0 r.1)

-- The executable `e` comes to run. The result is the priority that it runs with.
unfoldable pub enter : (e : ℕ) → Cmd Os ℕ
enter e = do
  s ← get
  let x = s.exe e
  let eprio = if ltb x.baseprio x.runprio then x.runprio else x.baseprio
  modify (λ t. record t { currentexe = e })
  modify (with_exe e (λ r. record r { currprio = eprio }))
  if ltb x.baseprio x.runprio then enqueue eprio e else skip
  modify (with_exe e (λ r. record r { state = running; jb = true }))
  setirqlevel (s.queue eprio).level
  pure eprio

-- The head of queue `p`, which has to be `e`, is taken out.
unfoldable pub dequeue_exe : (p e : ℕ) → Cmd Os (Unit {0})
dequeue_exe p e = do r ← dequeue p; if same_ref r (some e) then skip else os_panic queue_corrupt

-- The mutexes that `e` still holds are released. Each of them leaves the list, so it has `nmutex`
-- rounds at most.
unfoldable pub release_mutexes : (fuel e : ℕ) → Cmd Os (Unit {0})
release_mutexes zero e = λ _. out_of_fuel
release_mutexes (suc fuel) e = do
  s ← get
  elim ((s.exe e).mutexlist) [
    | none ↦ skip
    | some m ↦ do
      low ← give_back e m
      if ltb low (s.mutex m).ceiling then dequeue_exe (s.mutex m).ceiling e else skip
      release_mutexes fuel e
  ]

-- `dv_extendedtask(t) && dv_taskwaiting(t)`
unfoldable pub taskwaiting : Os → (t : ℕ) → Bool
taskwaiting s t = elim ((s.exe t).extended) [
  | none ↦ false
  | some x ↦ is_some (s.ext.extended x).jb
]

-- `nact--` of 16 bits.
abbrev pub one_less : ℕ → ℕ
one_less n = if n == 0 then 2 ^ 16 - 1 else n - 1

-- The executable `e`, which ran with priority `eprio`, has returned or terminated.
unfoldable pub leave : (e eprio : ℕ) → Cmd Os (Unit {0})
leave e eprio = do
  set_onkernelstack
  s₀ ← get
  release_mutexes (s₀.nmutex + 1) e
  s ← get
  let base = (s.exe e).baseprio
  if eprio == base then skip else dequeue_exe eprio e
  modify (with_exe e (λ r. record r { currprio = base }))
  dequeue_exe base e
  if taskwaiting s e
      then modify (with_exe e (λ r. record r { state = waiting }))
      else modify (
          with_exe e (λ r. record r {
            nact = one_less (s.exe e).nact;
            state = if leb (s.exe e).nact 1 then suspended else ready;
          }))
  modify (with_exe e (λ r. record r { jb = false }))

-- The executable `e` is preempted if it is running.
unfoldable pub preempt : (e : ℕ) → Cmd Os (Unit {0})
preempt e = do
  s ← get
  if is_running (s.exe e).state then modify (with_exe e (λ r. record r { state = ready })) else skip

-- When all higher-priority activity is done, the caller `exe` resumes.
unfoldable pub resume : (exe : ℕ) → Cmd Os (Unit {0})
resume exe = do
  s ← get
  if s.currentexe == exe then skip else do
    modify (λ t. record t { currentexe = exe })
    setirqlevel (s.queue (s.exe exe).currprio).level
    modify (with_exe exe (λ r. record r { state = running }))

-- From the loop of `dv_runqueued` to the function.
unfoldable pub and_resume :
    ((exe p low : ℕ) → Cmd Os (Unit {0})) → (high low : ℕ) → Cmd Os (Unit {0})
and_resume loop high low = do s ← get; loop s.currentexe high low; resume s.currentexe

-- `code` is the project's functions of executables.
module _ (code : ℕ → Program) (sz : Sizes) (expiry : (f a d : ℕ) → Cmd Os ℕ) (ticks : ℕ) where
  module _ (request : (high low : ℕ) → Cmd Os (Unit {0})) where
    -- `dv_runextended` with `dv_startextendedtask`: the task `e`, whose entry in the table of extended
    -- tasks is `x`, runs on its own stack, from its start or from where it waits. `request` is how it
    -- calls the scheduler.
    unfoldable pub runextended : (e x : ℕ) → Cmd Os (Unit {0})
    runextended e x = do
      s ← get
      modify (
          with_ext (λ r. record r {
            onkernelstack = false;
            frames = s.ext.frames + 1;
            kjmpbuf = some (s.ext.frames + 1);
          }))
      elim ((s.ext.extended x).jb) [
        | none ↦ run_program request sz expiry ticks (code (s.exe e).func)
        | some rest ↦ do released x; run_program request sz expiry ticks rest
      ]
      modify (with_ext (λ r. record r { frames = s.ext.frames }))

    unfoldable pub run_executable : (e : ℕ) → Cmd Os (Unit {0})
    run_executable e = do
      s ← get
      elim ((s.exe e).extended) [
        | none ↦ run_program request sz expiry ticks (code (s.exe e).func)
        | some x ↦ runextended e x
      ]

  -- The loop of `dv_runqueued`, in which `exe` is the caller.
  unfoldable pub run_loop : (fuel exe p low : ℕ) → Cmd Os (Unit {0})
  run_loop zero exe p low = λ _. out_of_fuel
  run_loop (suc fuel) exe p low =
      if ltb low p
      then (do
        h ← qhead p
        elim h [
          | none ↦ run_loop fuel exe (p - 1) low
          | some e ↦ if e == 0 then os_panic queue_corrupt else do
            preempt exe
            eprio ← enter e
            run_executable (runqueued_onkernelstack (and_resume (run_loop fuel))) e
            leave e eprio
            run_loop fuel exe p low
        ])
      else skip

  unfoldable pub runqueued : (fuel high low : ℕ) → Cmd Os (Unit {0})
  runqueued fuel = and_resume (run_loop fuel)
