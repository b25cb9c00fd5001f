-- ===== src/Examples/Startup.antt =====
-- Runs of davroska from its start: two tasks, a mutex, a counter and an OSEK alarm.
use davros.Base.{ℕ, ◌≡◌, refl, Bool, true, false, Option, none, some, [], ◌==◌, if◌then◌else◌}
use davros.Run.{get, Run, ok, panic, fault, out_of_fuel, Cmd, pure, modify, skip, ◌>>=◌, ◌>>◌}
use davros.Davroska.State.{
  Program, finish, call, wait_event, clear_event, set_event, waiting, take_mutex, drop_mutex,
  activate_task, chain_task, ph_addcounters, ph_addalarms, Os, TaskState, suspended, unconfigured,
  sid_unknown, Status, e_ok, reporterror,
}
use davros.Davroska.Queue.{enqueue, qhead, dequeue, advance}
use davros.Davroska.Priority.{raiseprio, lowerprio}
use davros.Davroska.Time.{
  addcounter, addalarm, advancecounter, getexpirytime, getcountervalue, find_place, link_alarm,
  setalarm, setalarm_abs, setalarm_rel, find_before, stopalarm, repeat_alarm, expire_alarms,
}
use davros.Davroska.Mutex.{takemutex, dropmutex, occupy, give_back}
use davros.Davroska.Schedule.{
  activatetask, runqueued, activateexe2, activateexe, check_current, chaintask, terminatetask,
  do_call, run_program, enter, dequeue_exe, release_mutexes, runextended, run_executable,
  taskwaiting, leave, preempt, resume, and_resume, run_loop,
}
use davros.Davroska.Extended.{
  clearpending, set_onkernelstack, waitevent, wait_for, released, getevent, clearevent, release,
  set_extended, setevent, jump_to_kernel, runqueued_onkernelstack, stackround, extended_init,
  add_stack, give_stack, addextendedtask,
}
use davros.Davroska.Config.{
  addtask, addmutex, addmutexuser, startgroup, addtogroup, finishgroup, addexe, count_task,
  isvectorfree, setvector, initvectors, connect_isr, addisr, highest, group_priority, raise_runprio,
  create_queues, createqueues,
}
use davros.Davroska.Start.{
  Callouts, startos, configure, configure_groups, count_isrs, calculate_levels, calculatelevels,
  start_idle, create_idle,
}
use davros.Davroska.Osek.{
  set_abs_alarm, check_counter, checkalarmparams, set_checked, set_rel_alarm, next_time,
}
use davros.Davroska.Osek.Objects.{
  osekinit, addosekcounter, addosekalarm_task, addosekalarm, finish_alarm, addosekalarm_acb,
  addosekalarm_counter,
}
use davros.Davroska.Osek.Expiry.{
  expiry_function, osekaf_activatetask, osekaf_setevent, osekaf_callacb, osekaf_incrementcounter,
}
use davros.Examples.Davroska.{sizes, no_extended}

-- Memory as it is before the start.
abbrev blank : Os
blank = record {
  configstate = none;
  groupdef = record { name = 0; no_preempt = false; members = λ i. false };
  highestprio = 0;
  currentexe = 0;
  nexe = 0;
  ntask = 0;
  nisr = 0;
  nmutex = 0;
  maxtaskprio = 0;
  exe = λ e. record {
    name = 0;
    func = 0;
    jb = false;
    maxact = 0;
    nact = 0;
    baseprio = 0;
    runprio = 0;
    currprio = 0;
    state = suspended;
    mutexlist = none;
    irqid = none;
    extended = none;
  };
  queue = λ p. record { slots = 0; nslots = 0; head = 0; tail = 0; prio = 0; level = 0 };
  slots = λ i. none;
  mutex = λ m. record {
    name = 0;
    ceiling = 0;
    maxtake = 0;
    ntake = 0;
    owner = none;
    saveprio = none;
    next = none;
  };
  vectors = λ i. unconfigured i;
  ncounter = 0;
  nalarm = 0;
  counter = λ c. record { name = 0; value = 0; head = none };
  alarm = λ a. record {
    name = 0;
    expirytime = 0;
    expiryfunction = 0;
    expiryfunctiondata = 0;
    counter = none;
    nextalarm = none;
  };
  nosekcounter = 0;
  nosekalarm = 0;
  osekcounter = λ c. record { name = 0; maxvalue = 0; mincycle = 0; counter = none };
  osekalarm =
      λ a. record { name = 0; osekcounter = none; obj = none; more = 0; cycle = 0; alarm = 0 };
  lasterror = record { p = []; n_param = 0; sid = sid_unknown; e = e_ok; inerrorhook = false };
  irqlevel = 0;
  ext = no_extended;
}

-- Function 1 takes the mutex, activates task 2, and drops the mutex; 2 only returns; 3 chains task 2; 4
-- waits for an event; 5 activates task 4 and sets its event.
abbrev programs : ℕ → Program
programs f =
    if f == 1
    then call (take_mutex 0) (λ _. call (activate_task 2) (λ _. call (drop_mutex 0) (λ _. finish)))
    else if f == 3
    then call (chain_task 2) (λ _. finish)
    else if f == 4
    then wait_event 1 (λ _. call (clear_event 1) (λ _. finish))
    else if f == 5
    then call (activate_task 4) (λ _. call (set_event 4 1) (λ _. finish))
    else finish

abbrev ignore : {A : Type 0} → Cmd Os A → Cmd Os (Unit {0})
ignore m = do _ ← m; skip

abbrev project : Callouts
project = record {
  addtasks = λ m. do
    ignore (addtask sizes 7 1 1 1)
    ignore (addtask sizes 8 2 2 1)
    ignore (addtask sizes 9 3 1 1)
    ignore (addextendedtask sizes 10 4 2 100)
    ignore (addextendedtask sizes 11 5 1 100);
  addisrs = λ m. skip;
  addgroups = λ m. skip;
  addmutexes = λ m. do
    ignore (addmutex sizes 5 1)
    addmutexuser 0 1
    addmutexuser 0 2;
  addcounters = λ m. skip;
  addalarms = λ m. skip;
  autostart = λ m. skip;
  startup = skip;
  idle_name = 1;
  idle_func = 0;
  end_bss = 1000;
}

-- What is left of a run: the panic, fault and lack of fuel are `none`.
view_of : {A B : Type 0} → (Os → A → B) → Run Os A → Option B
view_of f (ok a s) = some (f s a)
view_of f (panic p) = none
view_of f fault = none
view_of f out_of_fuel = none

is_undefined : {A : Type 0} → Run Os A → Bool
is_undefined (ok a s) = false
is_undefined (panic p) = false
is_undefined fault = true
is_undefined out_of_fuel = false

-- The expiry functions of OSEK alarms; there are no extended tasks and no others.
expiry : (f a d : ℕ) → Cmd Os ℕ
expiry = expiry_function (λ h l. skip) (λ t e. pure e_ok) (λ f. skip) sizes (λ f a d. pure 0) 9

scheduler : (fuel : ℕ) → (high low : ℕ) → Cmd Os (Unit {0})
scheduler fuel = runqueued_onkernelstack (runqueued programs sizes expiry 9 fuel)

boot : Cmd Os (Unit {0})
boot = do osekinit sizes; startos sizes project (λ i l. skip) skip (scheduler 20) 0

-- Everything that a run computes with.
machine : Cmd Os (Unit {0})
unfolding advance enqueue qhead dequeue raiseprio lowerprio getexpirytime getcountervalue find_place
    link_alarm setalarm setalarm_abs setalarm_rel find_before stopalarm repeat_alarm expire_alarms
    advancecounter addcounter addalarm occupy takemutex give_back dropmutex activateexe2 activateexe
    activatetask check_current chaintask terminatetask do_call run_program enter dequeue_exe
    release_mutexes leave preempt resume and_resume run_loop runqueued addexe count_task addtask
    isvectorfree setvector initvectors connect_isr addisr startgroup addtogroup highest
    group_priority raise_runprio finishgroup addmutex addmutexuser create_queues createqueues
    configure configure_groups count_isrs calculate_levels calculatelevels start_idle create_idle
    startos check_counter checkalarmparams set_checked set_rel_alarm next_time set_abs_alarm
    osekinit addosekalarm finish_alarm addosekalarm_task addosekalarm_acb addosekalarm_counter
    addosekcounter osekaf_activatetask osekaf_setevent osekaf_callacb osekaf_incrementcounter
    clearpending set_onkernelstack waitevent wait_for released getevent clearevent release
    set_extended setevent jump_to_kernel runqueued_onkernelstack stackround extended_init add_stack
    give_stack addextendedtask runextended run_executable taskwaiting expiry_function reporterror
    boot scheduler expiry
machine = boot

observe : {A B : Type 0} → (Os → A → B) → Cmd Os A → Option B
unfolding view_of
observe f m = view_of f (m blank)

-- After the start the idle loop runs, and five tasks are known.
start_runs_idle :
    observe {B = ℕ × ℕ × ℕ} (λ s _. (s.currentexe, s.nexe, s.ntask)) boot ≡ some (0, 6, 6)
unfolding machine observe
start_runs_idle = refl

-- Task 1 raises itself to priority 2 with the mutex, so task 2, which it activates, waits until it has
-- dropped the mutex. In the end none of them is active, and the idle loop goes on.
mutex_delays_task :
    observe {B = ℕ × (ℕ × ℕ) × Option ℕ × Option ℕ × ℕ}
      (λ s _. (
        s.currentexe,
        ((s.exe 1).nact, (s.exe 2).nact),
        (s.mutex 0).owner,
        (s.mutex 0).saveprio,
        (s.exe 0).currprio,
      ))
      (boot >>= λ _. activatetask (scheduler 30) 1)
    ≡ some (0, (0, 0), none, some 1, 0)
unfolding machine observe
mutex_delays_task = refl

-- A task that ends by chaining another leaves nothing behind either.
chain_runs_task :
    observe {B = ℕ × (ℕ × ℕ) × TaskState}
      (λ s _. (s.currentexe, ((s.exe 2).nact, (s.exe 3).nact), (s.exe 3).state))
      (boot >>= λ _. activatetask (scheduler 30) 3)
    ≡ some (0, (0, 0), suspended)
unfolding machine observe
chain_runs_task = refl

-- An OSEK counter with the maximum 9 on the counter 0, and an alarm that activates task 2.
with_alarm_at : (tim cyc : ℕ) → Cmd Os Status
with_alarm_at tim cyc = do
  modify (λ s. record s { configstate = some ph_addcounters })
  ignore (addcounter sizes 4)
  ignore (addosekcounter sizes 4 0 9 1)
  modify (λ s. record s { configstate = some ph_addalarms })
  ignore (addosekalarm_task sizes 6 0 2 0)
  modify (λ s. record s { configstate = none })
  set_abs_alarm 0 tim cyc

-- The alarm expires once at 9. With the counter at 14 the OSEK counter shows 4, so 3 comes at 23; the
-- alarm expires there and is set again for 28.
alarm_repeats :
    observe {B = ℕ × Status × ℕ × Option ℕ}
      (λ s e. ((s.alarm 0).expirytime, e, (s.counter 0).value, (s.counter 0).head))
      (boot >>= λ _. with_alarm_at 9 0 >>= λ _.
        advancecounter expiry sizes (scheduler 30) 9 0 14 >>= λ _.
        set_abs_alarm 0 3 5 >>= λ _. advancecounter expiry sizes (scheduler 30) 9 0 9)
    ≡ some (28, e_ok, 23, some 0)
unfolding machine observe with_alarm_at
alarm_repeats = refl

-- Extended task 4 runs until it waits. When its event is set it goes on and ends.
event_releases_task :
    observe {B = TaskState × ℕ × ℕ × TaskState × ℕ}
      (λ s (r : TaskState × ℕ).
        (r.0, r.1, (s.ext.extended 0).events_pending, (s.exe 4).state, (s.exe 4).nact))
      (boot >>= λ _. activatetask (scheduler 30) 4 >>= λ _.
        get >>= λ s. setevent (scheduler 30) 4 5 >>= λ _. pure ((s.exe 4).state, (s.exe 4).nact))
    ≡ some (waiting, 1, 4, suspended, 0)
unfolding machine observe
event_releases_task = refl

-- The stacks of the two extended tasks lie behind each other.
stacks_in_order :
    observe {B = (ℕ × ℕ × ℕ) × (ℕ × ℕ × ℕ) × ℕ}
      (λ s _.
        let a = s.ext.extended 0 in
        let b = s.ext.extended 1 in
        (
          (a.stackbase, a.stacklen, a.initialsp),
          (b.stackbase, b.stacklen, b.initialsp),
          s.ext.extstacks,
        ))
      boot
    ≡ some ((1024, 128, 1184), (1184, 128, 1344), 1344)
unfolding machine observe
stacks_in_order = refl

-- Extended task 5 activates 4, which runs and waits. When 5 calls the scheduler again, the anchor on the
-- kernel stack is still that of 4, which has gone: the run has no defined end.
nested_extended_tasks : is_undefined ((boot >>= λ _. activatetask (scheduler 30) 5) blank) ≡ true
unfolding machine is_undefined
nested_extended_tasks = refl
