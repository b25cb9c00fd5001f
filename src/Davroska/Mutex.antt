-- ===== src/Davroska/Mutex.antt =====
-- Mutexes with immediate ceiling: `dv_takemutex` and `dv_dropmutex` of davroska/c/davroska.c.
pub mod Pairs
use davros.Base.{ℕ, ◌+◌, ◌-◌, none, some, [], ◌∷◌, leb, ltb, same_ref, if◌then◌else◌}
use davros.Run.{Cmd, mutex_occupied, queue_corrupt, pure, get, modify, skip, deref, ◌>>=◌, ◌>>◌}
use davros.Davroska.State.{
  Os, Mutex, DvExe, Status, e_ok, e_access, e_id, e_nesting, e_nofunc, sid_takemutex, sid_dropmutex,
  with_exe, with_mutex, os_panic, out_of_table, param_of, reporterror, setirqlevel,
}
use davros.Davroska.Queue.{enqueue, dequeue}

-- The part of `dv_takemutex` for a mutex that is free.
unfoldable pub occupy : (m : ℕ) → Cmd Os (Unit {0})
occupy m = do
  s ← get
  let x = s.exe s.currentexe
  let ceiling = (s.mutex m).ceiling
  modify (
      with_mutex m (λ r. record r {
        owner = some s.currentexe;
        ntake = 1;
        next = x.mutexlist;
        saveprio = some x.currprio;
      }))
  modify (with_exe s.currentexe (λ r. record r { mutexlist = some m }))
  if ltb x.currprio ceiling
      then (do
        modify (with_exe s.currentexe (λ r. record r { currprio = ceiling }))
        enqueue ceiling s.currentexe
        setirqlevel (s.queue ceiling).level)
      else skip

unfoldable pub takemutex : (m : ℕ) → Cmd Os Status
takemutex m = do
  s ← get
  let x = s.mutex m
  if out_of_table m s.nmutex
      then reporterror sid_takemutex e_id 1 (param_of m ∷ [])
      else if ltb x.ceiling (s.exe s.currentexe).baseprio
      then reporterror sid_takemutex e_access 1 (param_of m ∷ [])
      else if same_ref x.owner (some s.currentexe)
      then (if leb x.maxtake x.ntake
          then reporterror sid_takemutex e_nesting 1 (param_of m ∷ [])
          else do modify (with_mutex m (λ r. record r { ntake = x.ntake + 1 })); pure e_ok)
      else if same_ref x.owner none
      then (do occupy m; pure e_ok)
      else os_panic mutex_occupied

-- The mutex goes out of the hands of executable `e`, whose priority is what it was before. A saved
-- priority of -1 is an index of the table of queues that is out of range. The result is that priority.
unfoldable pub give_back : (e m : ℕ) → Cmd Os ℕ
give_back e m = do
  s ← get
  modify (with_exe e (λ r. record r { mutexlist = (s.mutex m).next }))
  modify (with_mutex m (λ r. record r { ntake = 0; owner = none; next = none }))
  low ← deref (s.mutex m).saveprio
  modify (with_exe e (λ r. record r { currprio = low }))
  pure low

-- `runqueued` is the scheduler, `dv_runqueued_onkernelstack`.
unfoldable pub dropmutex :
    (runqueued : (high low : ℕ) → Cmd Os (Unit {0})) → (m : ℕ) → Cmd Os Status
dropmutex runqueued m = do
  s ← get
  let x = s.mutex m
  if out_of_table m s.nmutex
      then reporterror sid_dropmutex e_id 1 (param_of m ∷ [])
      else if same_ref x.owner (some s.currentexe)
      then (if ltb 1 x.ntake
          then (do modify (with_mutex m (λ r. record r { ntake = x.ntake - 1 })); pure e_ok)
          else do
            low ← give_back s.currentexe m
            if ltb low x.ceiling
                then (do
                  setirqlevel (s.queue low).level
                  e ← dequeue x.ceiling
                  if same_ref e (some s.currentexe) then skip else os_panic queue_corrupt
                  runqueued x.ceiling low)
                else skip
            pure e_ok)
      else reporterror sid_dropmutex e_nofunc 1 (param_of m ∷ [])
