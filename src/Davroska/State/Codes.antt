-- ===== src/Davroska/State/Codes.antt =====
-- davroska's enumerations, and what an executable does: the sequence of its calls.
use davros.Base.{ℕ, Option}

pub data TaskState : Type 0 where
  suspended ready running waiting : TaskState

pub data Status : Type 0 where
  e_ok e_access e_calllevel e_id e_limit e_nofunc e_resource e_state e_value : Status
  e_nesting e_reported w_value e_longjmp_ok : Status

pub data Sid : Type 0 where
  sid_unknown sid_startos sid_terminatetask sid_activatetask sid_chaintask : Sid
  sid_takemutex sid_dropmutex sid_getexpirytime sid_getcountervalue sid_advancecounter : Sid
  sid_setalarm_abs sid_setalarm_rel sid_stopalarm sid_waitevent sid_setevent : Sid
  sid_getevent sid_clearevent sid_setrelalarm sid_setabsalarm : Sid
  sid_addtask sid_addextendedtask sid_addisr sid_startgroup sid_addtogroup : Sid
  sid_finishgroup sid_addmutex sid_addmutexuser sid_addexe sid_addcounter sid_addalarm : Sid
  sid_addosekcounter sid_addosekalarm_task sid_addosekalarm_acb sid_addosekalarm_counter : Sid
  sid_scheduler sid_interruptdispatcher sid_exceptionhandler sid_startup : Sid

pub data Phase : Type 0 where
  ph_addtasks ph_addisrs ph_addgroups ph_addmutexes ph_addcounters ph_addalarms : Phase

-- The calls of an executable that answer with a status, and what it does with the answers. `finish` is
-- the end of its function.
pub data Call : Type 0 where
  activate_task chain_task take_mutex drop_mutex stop_alarm : ℕ → Call
  terminate_task : Call
  set_alarm_abs set_alarm_rel : (c a v : ℕ) → Call
  advance_counter : (c n : ℕ) → Call
  set_event : (t evts : ℕ) → Call
  clear_event : (evts : ℕ) → Call

-- `get_event` goes on with the events that it stores too, if it does.
pub data Program : Type 0 where
  finish : Program
  call : Call → (Status → Program) → Program
  wait_event : (evts : ℕ) → (Status → Program) → Program
  get_event : (t : ℕ) → (Status → Option ℕ → Program) → Program
