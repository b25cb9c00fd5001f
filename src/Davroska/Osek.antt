-- ===== src/Davroska/Osek.antt =====
-- The OSEK alarms and counters of davroska/c/davroska-osek.c, on top of davroska's own. Ticks are
-- 64-bit.
pub mod Objects
pub mod Expiry
pub mod SetAlarm
use davros.Base.{
  ℕ, zero, suc, ◌+◌, ◌-◌, ◌%◌, ◌^◌, Bool, true, false, Option, none, some, List, [], ◌∷◌, leb, ltb,
  ◌==◌, ◌&&◌, not, update, if◌then◌else◌,
}
use davros.Run.{Run, fault, out_of_fuel, Cmd, pure, get, modify, skip, deref, ◌>>=◌, ◌>>◌}
use davros.Davroska.State.{
  Os, Sizes, OsekAlarm, OsekCounter, LastError, Status, e_ok, e_calllevel, e_id, e_limit,
  e_reported, e_state, e_value, e_access, e_nofunc, e_resource, e_nesting, w_value, e_longjmp_ok,
  Sid, sid_unknown, sid_setrelalarm, sid_setabsalarm, sid_addosekcounter, sid_addosekalarm_task,
  sid_addosekalarm_acb, sid_addosekalarm_counter, Phase, ph_addcounters, out_of_table, param_of,
  in_phase, reporterror,
}
use davros.Davroska.Time.{getexpirytime, getcountervalue, setalarm, advancecounter, addalarm}
use davros.Davroska.Config.{repeat}
use davros.Davroska.Schedule.{activatetask}

abbrev pub with_osekalarm : ℕ → (OsekAlarm → OsekAlarm) → Os → Os
with_osekalarm a f s = record s { osekalarm = update s.osekalarm a (f (s.osekalarm a)) }

abbrev pub with_osekcounter : ℕ → (OsekCounter → OsekCounter) → Os → Os
with_osekcounter c f s = record s { osekcounter = update s.osekcounter c (f (s.osekcounter c)) }

-- Whether the answer is `dv_e_ok`.
abbrev is_ok : Status → Bool
is_ok e_ok = true
is_ok e_access = false
is_ok e_calllevel = false
is_ok e_id = false
is_ok e_limit = false
is_ok e_nofunc = false
is_ok e_resource = false
is_ok e_state = false
is_ok e_value = false
is_ok e_nesting = false
is_ok e_reported = false
is_ok w_value = false
is_ok e_longjmp_ok = false

-- `ctr` is the alarm's OSEK counter.
unfoldable pub check_counter : (a t c ctr : ℕ) → Sid → Cmd Os Status
check_counter a t c ctr sid = do
  s ← get
  let k = s.osekcounter ctr
  let p = param_of a ∷ (t ∷ (c ∷ []))
  if ltb k.maxvalue t
      then reporterror sid e_value 3 p
      else if not (c == 0) && ltb k.maxvalue c
      then reporterror sid e_value 3 p
      else if not (c == 0) && ltb c k.mincycle
      then reporterror sid e_value 3 p
      else do
        time ← getexpirytime (s.osekalarm a).alarm
        if time == 0 then pure e_ok else reporterror sid e_state 3 p

unfoldable pub checkalarmparams : (a t c : ℕ) → Sid → Cmd Os Status
checkalarmparams a t c sid = do
  s ← get
  let p = param_of a ∷ (t ∷ (c ∷ []))
  if out_of_table a s.nosekalarm
      then reporterror sid e_id 3 p
      else elim ((s.osekalarm a).osekcounter) [
        | none ↦ reporterror sid e_id 3 p
        | some ctr ↦ check_counter a t c ctr sid
      ]

-- What the setting of an alarm does in the end, for counter `c`, if the time has not overflowed.
unfoldable pub set_checked : (a tim cyc c curval absval : ℕ) → Cmd Os Status
set_checked a tim cyc c curval absval = do
  if ltb absval curval
      then reporterror sid_setrelalarm e_value 3 (param_of a ∷ (tim ∷ (cyc ∷ [])))
      else do
        modify (with_osekalarm a (λ r. record r { cycle = cyc }))
        s ← get
        setalarm c (s.osekalarm a).alarm absval
        pure e_ok

unfoldable pub set_rel_alarm : (a tim cyc : ℕ) → Cmd Os Status
set_rel_alarm a tim cyc = do
  e ← checkalarmparams a tim cyc sid_setrelalarm
  if is_ok e
      then (do
        s ← get
        ctr ← deref (s.osekalarm a).osekcounter
        c ← deref (s.osekcounter ctr).counter
        curval ← getcountervalue c
        set_checked a tim cyc c curval ((curval + tim) % 2 ^ 64))
      else pure e

-- The time of `SetAbsAlarm`: the next value of the counter that is `tim` for the OSEK counter.
unfoldable pub next_time : (curval modulus tim : ℕ) → ℕ
next_time curval modulus tim =
    let curosek = curval % modulus in
    let absval = (curval + tim + (2 ^ 64 - curosek)) % 2 ^ 64 in
    if leb tim curosek then (absval + modulus) % 2 ^ 64 else absval

-- The modulus is 0 for a counter with the highest 64-bit number as its maximum, and C leaves the
-- remainder by 0 undefined.
unfoldable pub set_abs_alarm : (a tim cyc : ℕ) → Cmd Os Status
set_abs_alarm a tim cyc = do
  e ← checkalarmparams a tim cyc sid_setabsalarm
  if is_ok e
      then (do
        s ← get
        ctr ← deref (s.osekalarm a).osekcounter
        c ← deref (s.osekcounter ctr).counter
        curval ← getcountervalue c
        let modulus = ((s.osekcounter ctr).maxvalue + 1) % 2 ^ 64
        if modulus == 0 then (λ _. fault) else skip
        set_checked a tim cyc c curval (next_time curval modulus tim))
      else pure e
