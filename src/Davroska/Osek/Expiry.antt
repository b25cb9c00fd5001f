-- ===== src/Davroska/Osek/Expiry.antt =====
-- The expiry functions of OSEK alarms.
use davros.Base.{ℕ, zero, suc, Option, none, some, ◌==◌, if◌then◌else◌}
use davros.Run.{out_of_fuel, Cmd, pure, get, ◌>>=◌, ◌>>◌}
use davros.Davroska.State.{Os, Sizes, Status}
use davros.Davroska.Time.{advancecounter}
use davros.Davroska.Schedule.{activatetask}
use davros.Davroska.Osek.Objects.{af_activatetask, af_setevent, af_callacb, af_incrementcounter}

-- An id as the word that is stored for it.
abbrev id_word : Option ℕ → ℕ
id_word none = 65535
id_word (some i) = i

-- `setevent` is the service of extended tasks, and `callback` a call of the project's alarm callback
-- with that number. `expiry` of `advance` is the way back to these functions.
module _ (runqueued : (high low : ℕ) → Cmd Os (Unit {0})) (setevent : (t e : ℕ) → Cmd Os Status)
    (callback : ℕ → Cmd Os (Unit {0})) (sz : Sizes) where
  unfoldable pub osekaf_activatetask : (a d : ℕ) → Cmd Os ℕ
  osekaf_activatetask a d = do
    s ← get
    _ ← activatetask runqueued (id_word (s.osekalarm d).obj)
    t ← get
    pure (t.osekalarm d).cycle

  unfoldable pub osekaf_setevent : (a d : ℕ) → Cmd Os ℕ
  osekaf_setevent a d = do
    s ← get
    _ ← setevent (id_word (s.osekalarm d).obj) (s.osekalarm d).more
    t ← get
    pure (t.osekalarm d).cycle

  unfoldable pub osekaf_callacb : (a d : ℕ) → Cmd Os ℕ
  osekaf_callacb a d = do
    s ← get
    callback (s.osekalarm d).more
    t ← get
    pure (t.osekalarm d).cycle

  unfoldable pub osekaf_incrementcounter :
      (expiry : (f a d : ℕ) → Cmd Os ℕ) → (fuel a d : ℕ) → Cmd Os ℕ
  osekaf_incrementcounter expiry fuel a d = do
    s ← get
    _ ← advancecounter expiry sz runqueued fuel (id_word (s.osekalarm d).obj) 1
    t ← get
    pure (t.osekalarm d).cycle

  -- The calls of expiry functions: those of this file, and the project's own, `other`. The fuel is for
  -- alarms that increment counters, whose alarms may do the same.
  unfoldable pub expiry_function : (other : (f a d : ℕ) → Cmd Os ℕ) → (fuel f a d : ℕ) → Cmd Os ℕ
  expiry_function other zero f a d = λ _. out_of_fuel
  expiry_function other (suc fuel) f a d =
      if f == af_activatetask
      then osekaf_activatetask a d
      else if f == af_setevent
      then osekaf_setevent a d
      else if f == af_callacb
      then osekaf_callacb a d
      else if f == af_incrementcounter
      then osekaf_incrementcounter (expiry_function other fuel) fuel a d
      else other f a d
