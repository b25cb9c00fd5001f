-- ===== src/Davroska/Time.antt =====
-- Counters and alarms: davroska/c/davroska-time.c. The alarms that are set on a counter are a list,
-- linked through `nextalarm`, in the order of their expiry. Values of counters are 64-bit.
pub mod Links
pub mod Insert
pub mod Expire
pub mod Stop
use davros.Base.{
  ℕ, zero, suc, ◌+◌, ◌-◌, ◌%◌, ◌^◌, Bool, Option, none, some, [], ◌∷◌, leb, ltb, ◌==◌, ◌||◌,
  same_ref, if◌then◌else◌,
}
use davros.Run.{
  out_of_fuel, Cmd, alarm_corrupt, counter_overflow, pure, get, modify, skip, ◌>>=◌, ◌>>◌,
}
use davros.Davroska.State.{
  Os, Sizes, Counter, Alarm, Status, e_ok, e_calllevel, e_id, e_limit, e_state, e_value, Sid,
  sid_getexpirytime, sid_getcountervalue, sid_advancecounter, sid_setalarm_abs, sid_setalarm_rel,
  sid_stopalarm, sid_addcounter, sid_addalarm, Phase, ph_addcounters, ph_addalarms, with_counter,
  with_alarm, os_panic, out_of_table, param_of, reporterror, in_phase,
}
use davros.Davroska.Priority.{raiseprio, lowerprio}

-- 0 is also the answer for an alarm that is not in use.
unfoldable pub getexpirytime : (a : ℕ) → Cmd Os ℕ
getexpirytime a = do
  s ← get
  if out_of_table a s.nalarm
      then (do _ ← reporterror sid_getexpirytime e_id 1 (param_of a ∷ []); pure 0)
      else pure (s.alarm a).expirytime

unfoldable pub getcountervalue : (c : ℕ) → Cmd Os ℕ
getcountervalue c = do
  s ← get
  if out_of_table c s.ncounter
      then (do _ ← reporterror sid_getcountervalue e_id 1 (param_of c ∷ []); pure 0)
      else pure (s.counter c).value

-- The walk of `dv_setalarm` from `pred`: the alarm behind which a new one with time `v` goes.
unfoldable pub find_place : (fuel pred v : ℕ) → Cmd Os ℕ
find_place zero pred v = λ _. out_of_fuel
find_place (suc fuel) pred v = do
  s ← get
  elim ((s.alarm pred).nextalarm) [
    | none ↦ pure pred
    | some n ↦ if ltb v (s.alarm n).expirytime then pure pred else find_place fuel n v
  ]

-- The linking of alarm `a` into the list that begins with the head given. Each alarm is in the list
-- once at most, so the walk has no more than `nalarm` rounds.
unfoldable pub link_alarm : (c a v : ℕ) → Option ℕ → Cmd Os (Unit {0})
link_alarm c a v none = do
  modify (with_alarm a (λ x. record x { nextalarm = none }))
  modify (with_counter c (λ x. record x { head = some a }))
link_alarm c a v (some first) = do
  s ← get
  if ltb v (s.alarm first).expirytime
      then (do
        modify (with_alarm a (λ x. record x { nextalarm = some first }))
        modify (with_counter c (λ x. record x { head = some a })))
      else do
        pred ← find_place s.nalarm first v
        modify (with_alarm a (λ x. record x { nextalarm = (s.alarm pred).nextalarm }))
        modify (with_alarm pred (λ x. record x { nextalarm = some a }))

unfoldable pub setalarm : (c a v : ℕ) → Cmd Os (Unit {0})
setalarm c a v = do
  modify (with_alarm a (λ x. record x { expirytime = v; counter = some c }))
  s ← get
  link_alarm c a v (s.counter c).head

unfoldable pub setalarm_abs : (c a v : ℕ) → Cmd Os Status
setalarm_abs c a v = do
  s ← get
  let p = param_of c ∷ (param_of a ∷ (v ∷ []))
  if out_of_table c s.ncounter || out_of_table a s.nalarm
      then reporterror sid_setalarm_abs e_id 3 p
      else if v == 0
      then reporterror sid_setalarm_abs e_value 3 p
      else if (s.alarm a).expirytime == 0
      then (do setalarm c a v; pure e_ok)
      else reporterror sid_setalarm_abs e_state 3 p

unfoldable pub setalarm_rel : (c a v : ℕ) → Cmd Os Status
setalarm_rel c a v = do
  s ← get
  let p = param_of c ∷ (param_of a ∷ (v ∷ []))
  let absval = ((s.counter c).value + v) % 2 ^ 64
  if out_of_table c s.ncounter || out_of_table a s.nalarm
      then reporterror sid_setalarm_rel e_id 3 p
      else if v == 0
      then reporterror sid_setalarm_rel e_value 3 p
      else if (s.alarm a).expirytime == 0
      then (if ltb absval (s.counter c).value
          then reporterror sid_setalarm_rel e_value 3 p
          else do setalarm c a absval; pure e_ok)
      else reporterror sid_setalarm_rel e_state 3 p

abbrev pub stopped : Alarm → Alarm
stopped x = record x { expirytime = 0; counter = none; nextalarm = none }

-- The walk of `dv_stopalarm`: the alarm in front of `a`. An end of the list, or an id out of range,
-- is a corrupt list.
unfoldable pub find_before : (fuel : ℕ) (pred : Option ℕ) (a : ℕ) → Cmd Os ℕ
find_before zero pred a = λ _. out_of_fuel
find_before (suc fuel) none a = os_panic alarm_corrupt
find_before (suc fuel) (some pred) a = do
  s ← get
  if leb s.nalarm pred
      then os_panic alarm_corrupt
      else if same_ref (s.alarm pred).nextalarm (some a)
      then pure pred
      else find_before fuel (s.alarm pred).nextalarm a

unfoldable pub stopalarm : (a : ℕ) → Cmd Os Status
stopalarm a = do
  s ← get
  if out_of_table a s.nalarm
      then reporterror sid_stopalarm e_id 1 (param_of a ∷ [])
      else elim ((s.alarm a).counter) [
        | none ↦ do
          modify (with_alarm a (λ x. record x { expirytime = 0; nextalarm = none }))
          pure e_ok
        | some c ↦
            if leb s.ncounter c
            then os_panic alarm_corrupt
            else if same_ref (s.counter c).head (some a)
            then (do
              modify (with_counter c (λ x. record x { head = (s.alarm a).nextalarm }))
              modify (with_alarm a stopped)
              pure e_ok)
            else do
              pred ← find_before (s.nalarm + 1) (s.counter c).head a
              modify (with_alarm pred (λ x. record x { nextalarm = (s.alarm a).nextalarm }))
              modify (with_alarm a stopped)
              pure e_ok
      ]

-- `expiry f a d` is a call of the expiry function with number `f`, which is the project's code or that
-- of davroska-osek.c. Its result is the time to the alarm's next expiry, or 0.
module _ (expiry : (f a d : ℕ) → Cmd Os ℕ) where
  -- The alarm `a` has expired, and its function wants `inc` more ticks.
  unfoldable pub repeat_alarm : (c a inc : ℕ) → Cmd Os (Unit {0})
  repeat_alarm c a inc = do
    s ← get
    let t = (s.alarm a).expirytime
    if leb ((t + inc) % 2 ^ 64) t
        then modify (with_alarm a stopped)
        else setalarm c a ((t + inc) % 2 ^ 64)

  -- The loop of `dv_advancecounter`.
  unfoldable pub expire_alarms : (fuel c : ℕ) → Cmd Os (Unit {0})
  expire_alarms zero c = λ _. out_of_fuel
  expire_alarms (suc fuel) c = do
    s ← get
    elim ((s.counter c).head) [
      | none ↦ skip
      | some a ↦
          if leb (s.alarm a).expirytime (s.counter c).value
          then (do
            modify (with_counter c (λ x. record x { head = (s.alarm a).nextalarm }))
            inc ← expiry (s.alarm a).expiryfunction a (s.alarm a).expiryfunctiondata
            repeat_alarm c a inc
            expire_alarms fuel c)
          else skip
    ]

  -- `runqueued` is the scheduler, `dv_runqueued_onkernelstack`.
  unfoldable pub advancecounter :
      Sizes → (runqueued : (high low : ℕ) → Cmd Os (Unit {0})) → (fuel c n : ℕ) → Cmd Os Status
  advancecounter sz runqueued fuel c n = do
    s ← get
    if out_of_table c s.ncounter
        then reporterror sid_advancecounter e_id 2 (param_of c ∷ (n ∷ []))
        else do
          let v = (s.counter c).value
          let w = (v + n) % 2 ^ 64
          modify (with_counter c (λ x. record x { value = w }))
          if ltb w v then os_panic counter_overflow else skip
          p ← raiseprio sz
          expire_alarms fuel c
          lowerprio sz p
          runqueued (sz.maxprio - 1) p
          pure e_ok

-- The new counter's id, or -1.
unfoldable pub addcounter : Sizes → (name : ℕ) → Cmd Os (Option ℕ)
addcounter sz name = do
  s ← get
  if in_phase s.configstate ph_addcounters
      then (if leb sz.maxcounter s.ncounter
          then (do _ ← reporterror sid_addcounter e_limit 1 (name ∷ []); pure none)
          else do
            modify (λ t. record t { ncounter = s.ncounter + 1 })
            modify (with_counter s.ncounter (λ _. record { name = name; value = 0; head = none }))
            pure (some s.ncounter))
      else (do _ ← reporterror sid_addcounter e_calllevel 1 (name ∷ []); pure none)

unfoldable pub addalarm : Sizes → (name expiryfn d : ℕ) → Cmd Os (Option ℕ)
addalarm sz name expiryfn d = do
  s ← get
  if in_phase s.configstate ph_addalarms
      then (if leb sz.maxalarm s.nalarm
          then (do _ ← reporterror sid_addalarm e_limit 1 (name ∷ []); pure none)
          else do
            modify (λ t. record t { nalarm = s.nalarm + 1 })
            modify (
                with_alarm s.nalarm (λ _. record {
                  name = name;
                  expirytime = 0;
                  expiryfunction = expiryfn;
                  expiryfunctiondata = d;
                  counter = none;
                  nextalarm = none;
                }))
            pure (some s.nalarm))
      else (do _ ← reporterror sid_addalarm e_calllevel 1 (name ∷ []); pure none)
