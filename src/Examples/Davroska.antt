-- ===== src/Examples/Davroska.antt =====
-- A sample of davroska's state, and runs of the whole system on it. Executable 0 is the idle loop, 1 runs
-- with priority 1, and 2 and 3 have priorities 3 and 1. Alarms 1 and 0 are set on counter 0.
use davros.Base.{
  ◌^◌, inr, Bool-cases, ◌≡◌, ℕ, inl, ◌*◌, refl, true, false, ◌||◌, Option, none, some, List, [],
  ◌∷◌, arith, leb, ◌==◌, if◌then◌else◌,
}
use davros.Run.{ok, Cmd, pure}
use davros.Davroska.State.{
  reporterror, sid_takemutex, e_id, Os, Sizes, Program, finish, call, take_mutex, DvExe,
  ExtendedTasks, TaskState, suspended, ready, running, Alarm, unconfigured, ph_addgroups,
  sid_unknown, e_ok,
}
use davros.Davroska.Queue.{advance}
use davros.Davroska.Queue.Fifo.{IsFifo}
use davros.Davroska.Time.Insert.{IsAlarmList}
use davros.Davroska.Time.Expire.{IsQuiet}
use davros.Davroska.Mutex.Pairs.{CanTake}
use davros.Davroska.Schedule.{do_call, run_program}
use davros.Davroska.Schedule.Drain.{Alike, Kept-refl}
use davros.Davroska.Mutex.{takemutex}
use davros.Davroska.Schedule.Rounds.{CanRun}
use davros.Davroska.Schedule.Activate.{CanActivate}
use davros.Davroska.Osek.SetAlarm.{IsSettable}

abbrev pub sizes : Sizes
sizes = record {
  maxexe = 8;
  maxprio = 5;
  nslot = 20;
  maxmutex = 2;
  maxcounter = 2;
  maxalarm = 4;
  maxcounter_osek = 2;
  maxalarm_osek = 2;
  nvector = 4;
  lockall_level = 8;
  maxextended = 2;
  canary = 32;
  stackword = 8;
  addresses = 2 ^ 64;
}

-- No extended task is known yet.
abbrev pub no_extended : ExtendedTasks
no_extended = record {
  extended = λ x. record {
    events_pending = 0;
    events_awaited = 0;
    jb = none;
    stackbase = 0;
    initialsp = 0;
    stacklen = 0;
  };
  nextended = 0;
  extstacks = 0;
  onkernelstack = true;
  kjmpbuf = none;
  frames = 0;
}

abbrev sample_exe : (e prio : ℕ) → TaskState → DvExe
sample_exe e prio st = record {
  name = e;
  func = e;
  jb = true;
  maxact = 1;
  nact = if e == 1 then 1 else 0;
  baseprio = prio;
  runprio = prio;
  currprio = prio;
  state = st;
  mutexlist = none;
  irqid = none;
  extended = none;
}

abbrev sample_alarm : (time : ℕ) (counter next : Option ℕ) → Alarm
sample_alarm time c next = record {
  name = 0;
  expirytime = time;
  expiryfunction = 0;
  expiryfunctiondata = 0;
  counter = c;
  nextalarm = next;
}

abbrev pub sample_os : Os
sample_os = record {
  configstate = some ph_addgroups;
  groupdef = record { name = 5; no_preempt = false; members = λ i. (i == 2) || (i == 3) };
  highestprio = 3;
  currentexe = 1;
  nexe = 4;
  ntask = 4;
  nisr = 0;
  nmutex = 1;
  maxtaskprio = 3;
  exe = λ e.
      if e == 0
      then sample_exe e 0 ready
      else if e == 1
      then sample_exe e 1 running
      else if e == 2
      then sample_exe e 3 suspended
      else sample_exe e 1 suspended;
  queue = λ p. record {
    slots = 3 * p;
    nslots = 3;
    head = 0;
    tail = if leb p 1 then 1 else 0;
    prio = p;
    level = 0;
  };
  slots = λ i. if i == 0 then some 0 else if i == 3 then some 1 else none;
  mutex = λ m. record {
    name = m;
    ceiling = 3;
    maxtake = 1;
    ntake = 0;
    owner = none;
    saveprio = none;
    next = none;
  };
  vectors = λ i. unconfigured i;
  ncounter = 1;
  nalarm = 4;
  counter = λ c. record { name = c; value = 10; head = some 1 };
  alarm = λ a.
      if a == 0
      then sample_alarm 15 (some 0) none
      else if a == 1
      then sample_alarm 12 (some 0) (some 0)
      else sample_alarm 0 none none;
  nosekcounter = 1;
  nosekalarm = 1;
  osekcounter = λ c. record { name = c; maxvalue = 99; mincycle = 1; counter = some 0 };
  osekalarm =
      λ a. record { name = a; osekcounter = some 0; obj = none; more = 0; cycle = 0; alarm = 2 };
  lasterror = record { p = []; n_param = 0; sid = sid_unknown; e = e_ok; inerrorhook = false };
  irqlevel = 0;
  ext = no_extended;
}

-- The queue of the running executable.
abbrev pub running_ids : List ℕ
running_ids = 1 ∷ []

-- The counter has gone on, and alarm 1 is due.
abbrev pub late_os : Os
late_os = record sample_os { counter = λ c. record { name = c; value = 13; head = some 1 } }

abbrev pub no_expiry : (f a d : ℕ) → Cmd Os ℕ
no_expiry f a d = pure 0

-- Every executable asks for a mutex that does not exist, and returns.
abbrev pub code : ℕ → Program
code f = call (take_mutex 65535) (λ _. finish)

-- The error is kept, unless the error hook is running; nothing else changes.
code-quiet :
    (t : Os)
    → (u : Os) × Alike t u
      × ((r : (high low : ℕ) → Cmd Os (Unit {0}))
          → run_program r sizes no_expiry 9 (code 0) t ≡ ok tt u)
unfolding run_program do_call takemutex reporterror
code-quiet t = elim (Bool-cases t.lasterror.inerrorhook) [
  | inl e ↦ (
    t,
    record {
      queue_is = refl;
      slots_is = refl;
      kept = λ j. Kept-refl (t.exe j);
      nact_is = λ j. refl;
    },
    (λ r. rw e refl),
  )
  | inr e ↦ (
    record t {
      lasterror = record {
        p = 18446744073709551615 ∷ [];
        n_param = 1;
        sid = sid_takemutex;
        e = e_id;
        inerrorhook = false;
      };
    },
    record {
      queue_is = refl;
      slots_is = refl;
      kept = λ j. Kept-refl (t.exe j);
      nact_is = λ j. refl;
    },
    (λ r. rw e refl),
  )
]

pub no_expiry-IsQuiet : IsQuiet no_expiry
no_expiry-IsQuiet f a d s =
    (0, s, refl, record { alarm_is = refl; counter_is = refl; nalarm_is = refl })

pub sample_os-IsFifo : IsFifo sample_os 1 (1 ∷ [])
unfolding advance
sample_os-IsFifo = record {
  head_lt = omega arith;
  tail_lt = omega arith;
  holds = (ground arith, refl, refl);
}

pub sample_os-IsFifo_empty : IsFifo sample_os 3 []
sample_os-IsFifo_empty = record { head_lt = omega arith; tail_lt = omega arith; holds = refl }

pub sample_os-IsAlarmList : IsAlarmList sample_os 0 (1 ∷ (0 ∷ []))
sample_os-IsAlarmList = record {
  linked = (refl, (refl, refl));
  distinct = (refl, (refl, tt));
  sorted = ((omega arith, tt), (tt, tt));
}

pub late_os-IsAlarmList : IsAlarmList late_os 0 (1 ∷ (0 ∷ []))
late_os-IsAlarmList = record {
  linked = (refl, (refl, refl));
  distinct = (refl, (refl, tt));
  sorted = ((omega arith, tt), (tt, tt));
}

pub sample_os-CanTake : CanTake sample_os 0
sample_os-CanTake = record {
  id_lt = refl;
  base_le = refl;
  free = refl;
  empty = sample_os-IsFifo_empty;
  room = omega arith;
}

pub sample_os-CanRun : CanRun code sizes no_expiry 9 sample_os 3 2
sample_os-CanRun = record {
  not_idle = refl;
  base_is = refl;
  not_raised = refl;
  free = refl;
  basic = refl;
  quiet = code-quiet;
}

pub sample_os-CanRun_first : CanRun code sizes no_expiry 9 sample_os 1 1
sample_os-CanRun_first = record {
  not_idle = refl;
  base_is = refl;
  not_raised = refl;
  free = refl;
  basic = refl;
  quiet = code-quiet;
}

pub sample_os-CanActivate : CanActivate sample_os 2 []
sample_os-CanActivate = record {
  basic = refl;
  is_task = refl;
  below_max = refl;
  fifo = sample_os-IsFifo_empty;
  room = omega arith;
}

pub sample_os-CanActivate_low : CanActivate sample_os 3 (1 ∷ [])
sample_os-CanActivate_low = record {
  basic = refl;
  is_task = refl;
  below_max = refl;
  fifo = sample_os-IsFifo;
  room = omega arith;
}

pub sample_os-IsSettable : IsSettable sample_os 0 5 0 0 0
sample_os-IsSettable = record {
  id_lt = refl;
  counter_is = refl;
  base_is = refl;
  base_lt = refl;
  tim_le = omega arith;
  cyc_is = inl refl;
  alarm_lt = refl;
  idle = refl;
  max_lt = omega arith;
  value_lt = omega arith;
}
