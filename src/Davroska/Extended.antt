-- ===== src/Davroska/Extended.antt =====
-- Extended tasks and their events, davroska/c/davroska-extended.c: a task that waits leaves its stack
-- as it is and jumps back to the scheduler. `jb` stands for that stack, what the task has still to do.
pub mod Alert
pub mod Request
pub mod Release
pub mod Stacks
use davros.Base.{
  ℕ, ◌+◌, ◌-◌, ◌*◌, ◌/◌, ◌%◌, ◌^◌, Bool, true, false, Option, none, some, List, [], ◌∷◌, leb, ◌==◌,
  ◌&&◌, ◌||◌, not, is_some, if◌then◌else◌, bit_and, bit_or,
}
use davros.Run.{fault, Cmd, no_kernel_anchor, pure, get, modify, skip, ◌>>=◌, ◌>>◌}
use davros.Davroska.State.{
  Os, Sizes, Program, TaskState, suspended, ready, running, waiting, Status, e_ok, e_id, e_access,
  e_resource, e_state, e_calllevel, e_limit, e_value, Sid, sid_waitevent, sid_setevent,
  sid_getevent, sid_clearevent, sid_addextendedtask, ph_addtasks, with_exe, with_ext, with_extended,
  os_panic, not_a_task, param_of, in_phase, reporterror,
}
use davros.Davroska.Queue.{enqueue}
use davros.Davroska.Config.{addtask, refuse}

abbrev pub is_suspended : TaskState → Bool
is_suspended suspended = true
is_suspended ready = false
is_suspended running = false
is_suspended waiting = false

abbrev pub is_waiting : TaskState → Bool
is_waiting waiting = true
is_waiting suspended = false
is_waiting ready = false
is_waiting running = false

-- `~evts` of a 64-bit mask.
abbrev pub mask_not : ℕ → ℕ
mask_not evts = 2 ^ 64 - 1 - evts

unfoldable pub clearpending : (t : ℕ) → Cmd Os (Unit {0})
clearpending t = do
  s ← get
  elim ((s.exe t).extended) [
    | none ↦ skip
    | some x ↦ modify (with_extended x (λ r. record r { events_pending = 0 }))
  ]

unfoldable pub set_onkernelstack : Cmd Os (Unit {0})
set_onkernelstack = modify (with_ext (λ r. record r { onkernelstack = true }))

-- The rest of `dv_waitevent` in an extended task without mutexes, `x` of which no awaited event is
-- pending. The answer `none` is the jump to the scheduler.
unfoldable pub wait_for : (x evts : ℕ) → Program → Cmd Os (Option Status)
wait_for x evts rest = do
  s ← get
  modify (with_extended x (λ r. record r { events_awaited = evts }))
  modify (with_exe s.currentexe (λ r. record r { state = waiting }))
  modify (with_extended x (λ r. record r { jb = some rest }))
  if (s.exe s.currentexe).jb then pure none else (λ _. fault)

-- `rest` is what the task does when it is released.
unfoldable pub waitevent : (evts : ℕ) → (rest : Program) → Cmd Os (Option Status)
waitevent evts rest = do
  s ← get
  elim ((s.exe s.currentexe).extended) [
    | none ↦ do e ← reporterror sid_waitevent e_access 1 (evts ∷ []); pure (some e)
    | some x ↦
        if is_some (s.exe s.currentexe).mutexlist
        then (do e ← reporterror sid_waitevent e_resource 1 (evts ∷ []); pure (some e))
        else if bit_and evts (s.ext.extended x).events_pending == 0
        then wait_for x evts rest
        else pure (some e_ok)
  ]

-- The end of `dv_waitevent`, after the jump to a task that has been released.
unfoldable pub released : (x : ℕ) → Cmd Os (Unit {0})
released x = do
  modify (with_extended x (λ r. record r { jb = none }))
  modify (with_extended x (λ r. record r { events_awaited = 0 }))

-- `*evts` is written if the second result is given. Its address is left out of the error's parameters.
unfoldable pub getevent : (t : ℕ) → Cmd Os (Status × Option ℕ)
getevent t = do
  s ← get
  if not_a_task t s.ntask
      then (do e ← reporterror sid_getevent e_id 2 (param_of t ∷ []); pure (e, none))
      else elim ((s.exe t).extended) [
        | none ↦ do e ← reporterror sid_getevent e_access 2 (param_of t ∷ []); pure (e, none)
        | some x ↦
            if is_suspended (s.exe t).state
            then (do e ← reporterror sid_getevent e_state 2 (param_of t ∷ []); pure (e, none))
            else pure (e_ok, some (s.ext.extended x).events_pending)
      ]

unfoldable pub clearevent : (evts : ℕ) → Cmd Os Status
clearevent evts = do
  s ← get
  elim ((s.exe s.currentexe).extended) [
    | none ↦ reporterror sid_clearevent e_access 1 (evts ∷ [])
    | some x ↦ do
      modify (
          with_extended x
            (λ r. record r { events_pending = bit_and r.events_pending (mask_not evts) }))
      pure e_ok
  ]

module _ (runqueued : (high low : ℕ) → Cmd Os (Unit {0})) where
  -- `runqueued` is the scheduler, `dv_runqueued_onkernelstack`.
  unfoldable pub release : (t : ℕ) → Cmd Os (Unit {0})
  release t = do
    s ← get
    modify (with_exe t (λ r. record r { state = ready }))
    enqueue (s.exe t).baseprio t
    runqueued (s.exe t).baseprio (s.exe s.currentexe).currprio

  -- Events for task `t`, which is extended, with the entry `x`, and not suspended.
  unfoldable pub set_extended : (t x evts : ℕ) → Cmd Os Status
  set_extended t x evts = do
    s ← get
    let pending = bit_or (s.ext.extended x).events_pending evts
    modify (with_extended x (λ r. record r { events_pending = pending }))
    if is_waiting (s.exe t).state && not (bit_and pending (s.ext.extended x).events_awaited == 0)
        then release t
        else skip
    pure e_ok

  unfoldable pub setevent : (t evts : ℕ) → Cmd Os Status
  setevent t evts = do
    s ← get
    if not_a_task t s.ntask
        then reporterror sid_setevent e_id 2 (param_of t ∷ (evts ∷ []))
        else elim ((s.exe t).extended) [
          | none ↦ reporterror sid_setevent e_access 2 (param_of t ∷ (evts ∷ []))
          | some x ↦
              if is_suspended (s.exe t).state
              then reporterror sid_setevent e_state 2 (param_of t ∷ (evts ∷ []))
              else set_extended t x evts
        ]

  -- A request from the stack of an extended task goes to the kernel stack by a jump into the last
  -- `dv_runextended`. Any other anchor is that of a call that has returned, to which a jump is not
  -- defined.
  unfoldable pub jump_to_kernel : (kjmpbuf : Option ℕ) → (high low : ℕ) → Cmd Os (Unit {0})
  jump_to_kernel none high low = os_panic no_kernel_anchor
  jump_to_kernel (some f) high low = do
    s ← get
    if f == s.ext.frames
        then (do
          modify (with_ext (λ r. record r { onkernelstack = true }))
          runqueued high low
          modify (with_ext (λ r. record r { onkernelstack = false })))
        else (λ _. fault)

  -- `runqueued` is `dv_runqueued` here.
  unfoldable pub runqueued_onkernelstack : (high low : ℕ) → Cmd Os (Unit {0})
  runqueued_onkernelstack high low = do
    s ← get
    if s.ext.onkernelstack then runqueued high low else jump_to_kernel s.ext.kjmpbuf high low

-- `(n + DV_CANARY - 1) & ~(DV_CANARY - 1)`, where DV_CANARY is a power of two.
unfoldable pub stackround : Sizes → (n : ℕ) → ℕ
stackround sz n = let up = (n + sz.canary - 1) % sz.addresses in up - up % sz.canary

unfoldable pub extended_init : Sizes → (stackbase : ℕ) → Cmd Os (Unit {0})
extended_init sz stackbase = do
  modify (with_ext (λ r. record r { extstacks = stackround sz stackbase }))
  modify (with_ext (λ r. record r { onkernelstack = true }))

-- The stacks grow down from `initialsp`.
unfoldable pub add_stack : Sizes → (id stackbytes : ℕ) → Cmd Os (Unit {0})
add_stack sz id stackbytes = do
  s ← get
  let n = s.ext.nextended
  let l = stackround sz stackbytes
  let bytes = (l + sz.canary) % sz.addresses / sz.stackword * sz.stackword
  let top = (s.ext.extstacks + bytes) % sz.addresses
  modify (with_ext (λ r. record r { nextended = n + 1 }))
  modify (with_exe id (λ r. record r { extended = some n }))
  modify (
      with_extended n
        (λ r. record r { stackbase = s.ext.extstacks; stacklen = l % 2 ^ 32; initialsp = top }))
  modify (with_ext (λ r. record r { extstacks = top }))

-- The task that has been added, if there is one, gets its stack.
unfoldable pub give_stack : Sizes → (stackbytes : ℕ) → Option ℕ → Cmd Os (Option ℕ)
give_stack sz stackbytes none = pure none
give_stack sz stackbytes (some e) = do add_stack sz e stackbytes; pure (some e)

-- -1 is `none`.
unfoldable pub addextendedtask : Sizes → (name fn prio stackbytes : ℕ) → Cmd Os (Option ℕ)
addextendedtask sz name fn prio stackbytes = do
  s ← get
  if in_phase s.configstate ph_addtasks
      then (if leb sz.maxextended s.ext.nextended
          then refuse sid_addextendedtask e_limit name
          else if stackbytes == 0
          then refuse sid_addextendedtask e_value name
          else do id ← addtask sz name fn prio 1; give_stack sz stackbytes id)
      else refuse sid_addextendedtask e_calllevel name
