-- ===== src/Davroska/State.antt =====
-- davroska's data: the types and tables of davroska/h/davroska.h, davroska/c/davroska.c,
-- davroska/c/davroska-time.c, davroska/c/davroska-extended.c and davroska/h/davroska-osek.h, in a
-- configuration that supports extended tasks (DV_CFG_MAXEXTENDED > 0). Ids, priorities and quantities that come from outside are 16-bit
-- two's complement words; an id that is stored, with -1 for none, is an `Option`.
mod Codes
pub use Codes.*
use davros.Base.{
  ℕ, ◌+◌, ◌-◌, ◌^◌, Bool, false, Option, none, some, List, leb, ◌||◌, update, if◌then◌else◌, ◌==◌,
}
use davros.Run.{Cmd, PanicCode, davroska, dv_panic, modify, ◌>>=◌, ◌>>◌, get, pure}

-- `slots` is where the queue's ring buffer starts in the array of slots.
pub record PrioQueue : Type 0 where
  pub slots : ℕ
  pub nslots : ℕ
  pub head : ℕ
  pub tail : ℕ
  pub prio : ℕ
  pub level : ℕ

-- `jb` tells whether the pointer to the jump buffer for the executable's end is set.
pub record DvExe : Type 0 where
  pub name : ℕ
  pub func : ℕ
  pub jb : Bool
  pub maxact : ℕ
  pub nact : ℕ
  pub baseprio : ℕ
  pub runprio : ℕ
  pub currprio : ℕ
  pub state : TaskState
  pub mutexlist : Option ℕ
  pub irqid : Option ℕ
  pub extended : Option ℕ

-- `jb` is where the task goes on when it is released: what it has still to do.
pub record Extended : Type 0 where
  pub events_pending : ℕ
  pub events_awaited : ℕ
  pub jb : Option Program
  pub stackbase : ℕ
  pub initialsp : ℕ
  pub stacklen : ℕ

-- `frames` counts the calls of `dv_runextended` that have not returned; `kjmpbuf` is the number of the
-- one whose jump buffer it is.
pub record ExtendedTasks : Type 0 where
  pub extended : ℕ → Extended
  pub nextended : ℕ
  pub extstacks : ℕ
  pub onkernelstack : Bool
  pub kjmpbuf : Option ℕ
  pub frames : ℕ

pub record Mutex : Type 0 where
  pub name : ℕ
  pub ceiling : ℕ
  pub maxtake : ℕ
  pub ntake : ℕ
  pub owner : Option ℕ
  pub saveprio : Option ℕ
  pub next : Option ℕ

pub record Counter : Type 0 where
  pub name : ℕ
  pub value : ℕ
  pub head : Option ℕ

-- The expiry function is given by a number.
pub record Alarm : Type 0 where
  pub name : ℕ
  pub expirytime : ℕ
  pub expiryfunction : ℕ
  pub expiryfunctiondata : ℕ
  pub counter : Option ℕ
  pub nextalarm : Option ℕ

-- The group under configuration; a name of 0 is the null pointer.
pub record GroupDef : Type 0 where
  pub name : ℕ
  pub no_preempt : Bool
  pub members : ℕ → Bool

pub record LastError : Type 0 where
  pub p : List ℕ
  pub n_param : ℕ
  pub sid : Sid
  pub e : Status
  pub inerrorhook : Bool

-- What an interrupt vector calls: the function for unconfigured ones, or the activation of an
-- executable.
pub data Vector : Type 0 where
  unconfigured : ℕ → Vector
  activates : ℕ → Vector

pub record OsekAlarm : Type 0 where
  pub name : ℕ
  pub osekcounter : Option ℕ
  pub obj : Option ℕ
  pub more : ℕ
  pub cycle : ℕ
  pub alarm : ℕ

pub record OsekCounter : Type 0 where
  pub name : ℕ
  pub maxvalue : ℕ
  pub mincycle : ℕ
  pub counter : Option ℕ

-- The sizes that a project's dv-config.h and the target fix. `addresses` is 2^32 or 2^64.
pub record Sizes : Type 0 where
  pub maxexe : ℕ
  pub maxprio : ℕ
  pub nslot : ℕ
  pub maxmutex : ℕ
  pub maxcounter : ℕ
  pub maxalarm : ℕ
  pub maxcounter_osek : ℕ
  pub maxalarm_osek : ℕ
  pub nvector : ℕ
  pub lockall_level : ℕ
  pub maxextended : ℕ
  pub canary : ℕ
  pub stackword : ℕ
  pub addresses : ℕ

-- `irqlevel` is the level last set in the interrupt controller.
pub record Os : Type 0 where
  pub configstate : Option Phase
  pub groupdef : GroupDef
  pub highestprio : ℕ
  pub currentexe : ℕ
  pub nexe : ℕ
  pub ntask : ℕ
  pub nisr : ℕ
  pub nmutex : ℕ
  pub maxtaskprio : ℕ
  pub exe : ℕ → DvExe
  pub queue : ℕ → PrioQueue
  pub slots : ℕ → Option ℕ
  pub mutex : ℕ → Mutex
  pub vectors : ℕ → Vector
  pub ncounter : ℕ
  pub nalarm : ℕ
  pub counter : ℕ → Counter
  pub alarm : ℕ → Alarm
  pub nosekcounter : ℕ
  pub nosekalarm : ℕ
  pub osekcounter : ℕ → OsekCounter
  pub osekalarm : ℕ → OsekAlarm
  pub lasterror : LastError
  pub irqlevel : ℕ
  pub ext : ExtendedTasks

abbrev pub i16_limit : ℕ
i16_limit = 32768

-- `x < 0` and `x < 1` of a 16-bit word.
abbrev pub is_negative : ℕ → Bool
is_negative x = leb i16_limit x

abbrev pub below_one : ℕ → Bool
below_one x = is_negative x || (x == 0)

-- `(t < 1) || (t >= dv_ntask)`
abbrev pub not_a_task : (t ntask : ℕ) → Bool
not_a_task t n = below_one t || leb n t

-- `(x < 0) || (x >= n)` of a 16-bit word.
abbrev pub out_of_table : (x n : ℕ) → Bool
out_of_table x n = is_negative x || leb n x

-- `(dv_param_t)x` of a 16-bit word.
abbrev pub param_of : ℕ → ℕ
param_of x = if is_negative x then x + (2 ^ 64 - 2 ^ 16) else x

abbrev pub os_panic : {A : Type 0} → PanicCode → Cmd Os A
os_panic c = dv_panic (davroska c)

abbrev pub with_exe : ℕ → (DvExe → DvExe) → Os → Os
with_exe i f s = record s { exe = update s.exe i (f (s.exe i)) }

abbrev pub with_queue : ℕ → (PrioQueue → PrioQueue) → Os → Os
with_queue p f s = record s { queue = update s.queue p (f (s.queue p)) }

abbrev pub with_mutex : ℕ → (Mutex → Mutex) → Os → Os
with_mutex i f s = record s { mutex = update s.mutex i (f (s.mutex i)) }

abbrev pub with_counter : ℕ → (Counter → Counter) → Os → Os
with_counter c f s = record s { counter = update s.counter c (f (s.counter c)) }

abbrev pub with_alarm : ℕ → (Alarm → Alarm) → Os → Os
with_alarm a f s = record s { alarm = update s.alarm a (f (s.alarm a)) }

abbrev pub with_ext : (ExtendedTasks → ExtendedTasks) → Os → Os
with_ext f s = record s { ext = f s.ext }

abbrev pub with_extended : ℕ → (Extended → Extended) → Os → Os
with_extended x f = with_ext (λ r. record r { extended = update r.extended x (f (r.extended x)) })

abbrev pub phase_number : Phase → ℕ
phase_number ph_addtasks = 0
phase_number ph_addisrs = 1
phase_number ph_addgroups = 2
phase_number ph_addmutexes = 3
phase_number ph_addcounters = 4
phase_number ph_addalarms = 5

-- `(dv_configstate != DV_NULL) && (dv_configstate->phase == phase)`
abbrev pub in_phase : Option Phase → Phase → Bool
in_phase none phase = false
in_phase (some now) phase = phase_number now == phase_number phase

-- `dv_setirqlevel` of the interrupt controller.
abbrev pub setirqlevel : ℕ → Cmd Os (Unit {0})
setirqlevel l = modify (λ s. record s { irqlevel = l })

-- The error callout of davroska-osek.c. The project's ErrorHook, which runs while `inerrorhook` is
-- set, is left out. No more than four parameters are ever given.
unfoldable pub reporterror : Sid → Status → (n : ℕ) → List ℕ → Cmd Os Status
reporterror sid e n p = do
  s ← get
  if s.lasterror.inerrorhook then pure e else do
    modify (λ t. record t {
      lasterror = record { p = p; n_param = n; sid = sid; e = e; inerrorhook = false };
    })
    pure e
