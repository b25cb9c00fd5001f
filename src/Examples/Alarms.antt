-- ===== src/Examples/Alarms.antt =====
-- Alarms of davroska are set, expire and are stopped, in the sample state.
use davros.Davroska.State.{Os, e_ok, e_value, sid_setrelalarm, param_of, reporterror}
use davros.Davroska.Time.{setalarm, expire_alarms, stopalarm}
use davros.Davroska.Time.Insert.{IsAlarmList, HasSet, time_of, setalarm_lem}
use davros.Davroska.Time.Expire.{expire_alarms_lem}
use davros.Davroska.Time.Stop.{HasStopped, stopalarm_lem}
use davros.Davroska.Osek.{set_abs_alarm}
use davros.Davroska.Osek.SetAlarm.{IsNext, cycled, set_abs_alarm_lem}
use davros.Examples.Davroska.{
  sample_os, late_os, no_expiry, no_expiry-IsQuiet, sample_os-IsAlarmList, late_os-IsAlarmList,
  sample_os-IsSettable,
}
use davros.Base.{ℕ, ◌^◌, ◌+◌, ◌<◌, ◌≡◌, refl, List, [], ◌∷◌, ◌++◌, arith, ltb, if◌then◌else◌}
use davros.Run.{ok, pure, ◌>>◌}
use davros.Dll.Walk.{All}

setalarm_lem_example :
    (t : Os) × (before : List ℕ) × (after : List ℕ) × (setalarm 0 2 13 sample_os ≡ ok tt t)
    × (before ++ after ≡ 1 ∷ (0 ∷ []))
    × HasSet sample_os t 0 2 13 before after
setalarm_lem_example =
    setalarm_lem sample_os 0 2 13 (1 ∷ (0 ∷ [])) sample_os-IsAlarmList refl (omega arith)

expire_alarms_lem_example :
    (t : Os) × (ys : List ℕ) × (expire_alarms no_expiry 9 0 late_os ≡ ok tt t)
    × IsAlarmList t 0 ys
    × All (λ y. (late_os.counter 0).value < time_of t y) ys
    × ((t.counter 0).value ≡ (late_os.counter 0).value)
expire_alarms_lem_example =
    expire_alarms_lem no_expiry no_expiry-IsQuiet 0 late_os (1 ∷ (0 ∷ [])) 9 late_os-IsAlarmList
      (omega arith) (omega arith)

stopalarm_lem_example :
    (t : Os) × (stopalarm 0 sample_os ≡ ok e_ok t) × HasStopped sample_os t 0 0 ((1 ∷ []) ++ [])
stopalarm_lem_example =
    stopalarm_lem sample_os 0 0 (1 ∷ []) [] sample_os-IsAlarmList (omega arith, (omega arith, tt))
      (omega arith) refl refl (omega arith)

set_abs_alarm_lem_example :
    (x : ℕ) × IsNext (sample_os.counter 0).value ((sample_os.osekcounter 0).maxvalue + 1) 5 x
    × (set_abs_alarm 0 5 0 sample_os ≡ (
        if ltb x (2 ^ 64)
        then (setalarm 0 (sample_os.osekalarm 0).alarm x >> pure e_ok)
            (cycled sample_os 0 5 0 0 0 sample_os-IsSettable)
        else reporterror sid_setrelalarm e_value 3 (param_of 0 ∷ (5 ∷ (0 ∷ []))) sample_os))
set_abs_alarm_lem_example = set_abs_alarm_lem sample_os 0 5 0 0 0 sample_os-IsSettable
