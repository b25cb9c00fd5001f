-- ===== src/Davroska/Osek/Objects.antt =====
-- The configuration of OSEK alarms and counters.
use davros.Base.{ℕ, ◌+◌, Option, none, some, List, [], ◌∷◌, leb, ◌==◌, if◌then◌else◌}
use davros.Run.{Cmd, pure, get, modify, ◌>>=◌, ◌>>◌}
use davros.Davroska.State.{
  Os, Sizes, OsekAlarm, Status, e_ok, e_calllevel, e_id, e_limit, e_reported, Sid, sid_unknown,
  sid_addosekcounter, sid_addosekalarm_task, sid_addosekalarm_acb, sid_addosekalarm_counter,
  ph_addcounters, out_of_table, param_of, in_phase, reporterror,
}
use davros.Davroska.Time.{addalarm}
use davros.Davroska.Config.{repeat}
use davros.Davroska.Osek.{with_osekalarm, with_osekcounter}

unfoldable pub osekinit : Sizes → Cmd Os (Unit {0})
osekinit sz = do
  repeat sz.maxalarm_osek 0 (λ i. modify (with_osekalarm i (λ r. record r { osekcounter = none })))
  repeat sz.maxcounter_osek 0 (λ i. modify (with_osekcounter i (λ r. record r { counter = none })))
  modify (λ s. record s { lasterror = record s.lasterror { e = e_ok; sid = sid_unknown } })

-- An id, or the negated error.
pub data AddedAlarm : Type 0 where
  added : ℕ → AddedAlarm
  refused : Status → AddedAlarm

unfoldable pub addosekalarm : Sizes → (name c af : ℕ) → Cmd Os AddedAlarm
addosekalarm sz name c af = do
  s ← get
  if out_of_table c s.nosekcounter
      then pure (refused e_id)
      else if leb sz.maxalarm_osek s.nosekalarm
      then pure (refused e_limit)
      else do
        id ← addalarm sz name af s.nosekalarm
        elim id [
          | none ↦ pure (refused e_reported)
          | some alarm_id ↦ do
            modify (λ t. record t { nosekalarm = s.nosekalarm + 1 })
            modify (
                with_osekalarm s.nosekalarm
                  (λ r. record r { name = name; osekcounter = some c; alarm = alarm_id }))
            pure (added s.nosekalarm)
        ]

-- The last step of adding an alarm: a refusal is reported, with the parameters `p`.
unfoldable pub finish_alarm :
    Sid → (n : ℕ) (p : List ℕ) → (Os → OsekAlarm → OsekAlarm) → AddedAlarm → Cmd Os (Option ℕ)
finish_alarm sid n p f (refused e) = do _ ← reporterror sid e n p; pure none
finish_alarm sid n p f (added id) = do s ← get; modify (with_osekalarm id (f s)); pure (some id)

-- The expiry functions of this file, as numbers.
abbrev pub af_activatetask : ℕ
af_activatetask = 0

abbrev pub af_setevent : ℕ
af_setevent = 1

abbrev pub af_callacb : ℕ
af_callacb = 2

abbrev pub af_incrementcounter : ℕ
af_incrementcounter = 3

unfoldable pub addosekalarm_task : Sizes → (name c t e : ℕ) → Cmd Os (Option ℕ)
addosekalarm_task sz name c t e = do
  s ← get
  let p = name ∷ (param_of c ∷ (param_of t ∷ (e ∷ [])))
  if out_of_table t s.ntask
      then (do _ ← reporterror sid_addosekalarm_task e_id 4 p; pure none)
      else do
        id ← addosekalarm sz name c (if e == 0 then af_activatetask else af_setevent)
        finish_alarm sid_addosekalarm_task 4 p (λ _ r. record r { obj = some t; more = e }) id

-- `acb` is the number of a callback.
unfoldable pub addosekalarm_acb : Sizes → (name c acb : ℕ) → Cmd Os (Option ℕ)
addosekalarm_acb sz name c acb = do
  id ← addosekalarm sz name c af_callacb
  finish_alarm sid_addosekalarm_acb 3 (name ∷ (param_of c ∷ (acb ∷ [])))
      (λ _ r. record r { obj = none; more = acb }) id

unfoldable pub addosekalarm_counter : Sizes → (name c c2incr : ℕ) → Cmd Os (Option ℕ)
addosekalarm_counter sz name c c2incr = do
  s ← get
  let p = name ∷ (param_of c ∷ (param_of c2incr ∷ []))
  if out_of_table c2incr s.ncounter
      then (do _ ← reporterror sid_addosekalarm_counter e_id 3 p; pure none)
      else do
        id ← addosekalarm sz name c af_incrementcounter
        finish_alarm sid_addosekalarm_counter 3 p (λ _ r. record r { obj = some c2incr; more = 0 })
            id

unfoldable pub addosekcounter : Sizes → (name c max min : ℕ) → Cmd Os (Option ℕ)
addosekcounter sz name c max min = do
  s ← get
  let p = name ∷ (param_of c ∷ (max ∷ (min ∷ [])))
  if in_phase s.configstate ph_addcounters
      then (if leb sz.maxcounter_osek s.nosekcounter
          then (do _ ← reporterror sid_addosekcounter e_limit 4 p; pure none)
          else if out_of_table c s.ncounter
          then (do _ ← reporterror sid_addosekcounter e_id 4 p; pure none)
          else do
            modify (λ t. record t { nosekcounter = s.nosekcounter + 1 })
            modify (
                with_osekcounter s.nosekcounter
                  (λ _. record { name = name; maxvalue = max; mincycle = min; counter = some c }))
            pure (some s.nosekcounter))
      else (do _ ← reporterror sid_addosekcounter e_calllevel 4 p; pure none)
