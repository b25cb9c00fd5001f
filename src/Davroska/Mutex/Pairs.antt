-- ===== src/Davroska/Mutex/Pairs.antt =====
-- A mutex that is taken and dropped.
use davros.Base.{
  ℕ, ◌<◌, ◌≡◌, refl, true, false, none, some, List, [], ◌∷◌, arith, ltb, ◌==◌, same_ref, inl, inr,
  Bool-cases, if◌then◌else◌,
}
use mathlib.Core.Path.{subst}
use davros.Run.{ok, Cmd, pure, ◌>>◌}
use davros.Davroska.State.{Os, e_ok, with_exe, with_mutex, out_of_table}
use davros.Davroska.Queue.{dequeue}
use davros.Davroska.Queue.Fifo.{IsFifo, enqueue_lem, enqueued, dequeued, dequeue-first}
use davros.Davroska.Mutex.{occupy, takemutex, give_back, dropmutex}

-- The running executable may take the free mutex `m`, and it is the only one that may run at the
-- ceiling.
pub record CanTake (s : Os) (m : ℕ) : Type 0 where
  pub id_lt : out_of_table m s.nmutex ≡ false
  pub base_le : ltb (s.mutex m).ceiling (s.exe s.currentexe).baseprio ≡ false
  pub free : (s.mutex m).owner ≡ none
  pub empty : IsFifo s (s.mutex m).ceiling []
  pub room : 1 < (s.queue (s.mutex m).ceiling).nslots

abbrev pub low_of : Os → ℕ
low_of s = (s.exe s.currentexe).currprio

abbrev high_of : Os → ℕ → ℕ
high_of s m = (s.mutex m).ceiling

-- After `occupy`, before the executable's priority rises.
abbrev taken : Os → ℕ → Os
taken s m =
    with_exe s.currentexe (λ r. record r { mutexlist = some m })
      (with_mutex m
        (λ r. record r {
          owner = some s.currentexe;
          ntake = 1;
          next = (s.exe s.currentexe).mutexlist;
          saveprio = some (s.exe s.currentexe).currprio;
        })
        s)

-- Nothing but the mutex `m` and the interrupt level differs, and the mutex is free again.
pub record IsRestored (s u : Os) (m : ℕ) : Type 0 where
  pub exes : (i : ℕ) → u.exe i ≡ s.exe i
  pub others : (j : ℕ) → (j == m) ≡ false → u.mutex j ≡ s.mutex j
  pub free_again : (u.mutex m).owner ≡ none
  pub ceiling_is : (u.mutex m).ceiling ≡ (s.mutex m).ceiling
  pub empty : IsFifo u (s.mutex m).ceiling []

-- The queues and the slots are all that matters.
IsFifo-same :
    {s t : Os} {p : ℕ} (ids : List ℕ)
    → t.queue ≡ s.queue
    → t.slots ≡ s.slots
    → IsFifo s p ids
    → IsFifo t p ids
IsFifo-same ids a b is = record {
  head_lt = rw a is.head_lt;
  tail_lt = rw a is.tail_lt;
  holds = rw (a, b) is.holds;
}

-- After `give_back` of executable `e`.
abbrev given : Os → (e m low : ℕ) → Os
given t e m low =
    with_exe e (λ r. record r { currprio = low })
      (with_mutex m (λ r. record r { ntake = 0; owner = none; next = none; saveprio = some low })
        (with_exe e (λ r. record r { mutexlist = (t.mutex m).next }) t))

-- The running executable, which had been as in `s`, holds `m` in `t`.
record HasTaken (s t : Os) (m : ℕ) : Type 0 where
  current_is : t.currentexe ≡ s.currentexe
  nmutex_is : t.nmutex ≡ s.nmutex
  mutex_is : t.mutex ≡ (taken s m).mutex
  others_are : (i : ℕ) → (s.currentexe == i) ≡ false → t.exe i ≡ s.exe i
  self_is :
      t.exe s.currentexe
      ≡ record (s.exe s.currentexe) { mutexlist = some m; currprio = (t.exe s.currentexe).currprio }

module _ (runqueued : (high low : ℕ) → Cmd Os (Unit {0})) (s t : Os) (m : ℕ) (can : CanTake s m)
    (has : HasTaken s t m) where
  back : Os
  back = given t t.currentexe m (low_of s)

  back-IsRestored :
      (u : Os)
      → u.exe ≡ back.exe
      → u.mutex ≡ back.mutex
      → IsFifo u (s.mutex m).ceiling []
      → IsRestored s u m
  unfolding back
  back-IsRestored u exes mutexes fifo =
      let next : (t.mutex m).next ≡ (s.exe s.currentexe).mutexlist =
        rw has.mutex_is (ground arith) in
      record {
        exes = λ i. elim (Bool-cases (s.currentexe == i)) [
          | inl e ↦ rw (exes, has.current_is) (ground (arith, has.self_is, next))
          | inr e ↦ rw (exes, has.current_is) (ground (arith, has.others_are i e))
        ];
        others = λ j e. rw (mutexes, has.mutex_is) (ground arith);
        free_again = rw mutexes (ground arith);
        ceiling_is = rw (mutexes, has.mutex_is) (ground arith);
        empty = fifo;
      }

  owned : same_ref (t.mutex m).owner (some t.currentexe) ≡ true
  owned = rw (has.mutex_is, has.current_is) (ground arith)

  ceiling_is : (t.mutex m).ceiling ≡ (s.mutex m).ceiling
  ceiling_is = rw has.mutex_is (ground arith)

  once : (t.mutex m).ntake ≡ 1
  once = rw has.mutex_is (ground arith)

  saved : (t.mutex m).saveprio ≡ some (low_of s)
  saved = rw has.mutex_is (ground arith)

  id_lt : out_of_table m t.nmutex ≡ false
  id_lt = rw has.nmutex_is can.id_lt

  drop-same : ltb (low_of s) (s.mutex m).ceiling ≡ false → dropmutex runqueued m t ≡ ok e_ok back
  unfolding dropmutex give_back back
  drop-same e = rw (id_lt, owned, once, saved, ceiling_is, e) refl

  lowered : Os
  lowered = record back { irqlevel = (t.queue (low_of s)).level }

  drop-lower :
      ltb (low_of s) (t.mutex m).ceiling ≡ true
      → (u : Os) → dequeue (t.mutex m).ceiling lowered ≡ ok (some t.currentexe) u
      → dropmutex runqueued m t ≡ (runqueued (t.mutex m).ceiling (low_of s) >> pure e_ok) u
  unfolding dropmutex give_back lowered back
  drop-lower e u run =
      let self : (t.currentexe == t.currentexe) ≡ true = ground arith in
      rw (id_lt, owned, once, saved, e, run, self) refl

  drop-restores :
      ltb (low_of s) (s.mutex m).ceiling ≡ true
      → IsFifo t (s.mutex m).ceiling (t.currentexe ∷ [])
      → (u : Os) × (dropmutex runqueued m t
          ≡ (runqueued (s.mutex m).ceiling (low_of s) >> pure e_ok) u)
        × IsRestored s u m
  unfolding lowered back
  drop-restores e fifo =
      let full : IsFifo t (t.mutex m).ceiling (t.currentexe ∷ []) = rw ceiling_is fifo in
      let (run, empty) =
        dequeue-first {s = lowered} t.currentexe [] (IsFifo-same _ refl refl full) in
      let u = dequeued lowered (t.mutex m).ceiling in
      (
        u,
        subst (λ p. dropmutex runqueued m t ≡ (runqueued p (low_of s) >> pure e_ok) u) ceiling_is
            (drop-lower (rw ceiling_is e) u run),
        back-IsRestored u refl refl (subst (λ p. IsFifo u p []) ceiling_is empty),
      )

module _ (s : Os) (m : ℕ) (can : CanTake s m) where
  taken-HasTaken : HasTaken s (taken s m) m
  taken-HasTaken = record {
    current_is = refl;
    nmutex_is = refl;
    mutex_is = refl;
    others_are = λ i e. ground arith;
    self_is = ground arith;
  }

  -- The executable at the ceiling, before it is enqueued there.
  raised : Os
  raised = with_exe s.currentexe (λ r. record r { currprio = (s.mutex m).ceiling }) (taken s m)

  fifo : IsFifo raised (s.mutex m).ceiling []
  unfolding raised
  fifo = IsFifo-same [] refl refl can.empty

  high : Os
  high = record (enqueued fifo s.currentexe) { irqlevel = (s.queue (s.mutex m).ceiling).level }

  high-HasTaken : HasTaken s high m
  unfolding high raised
  high-HasTaken = record {
    current_is = refl;
    nmutex_is = refl;
    mutex_is = refl;
    others_are = λ i e. ground arith;
    self_is = ground arith;
  }

  high-currprio : (high.exe s.currentexe).currprio ≡ (s.mutex m).ceiling
  unfolding high raised
  high-currprio = ground arith

  take-raise :
      ltb (low_of s) (s.mutex m).ceiling ≡ true
      → (takemutex m s ≡ ok e_ok high) × IsFifo high (s.mutex m).ceiling (high.currentexe ∷ [])
  unfolding takemutex occupy high raised
  take-raise e = elim (enqueue_lem fifo s.currentexe) [
    | inl (room, run, full) ↦
        (rw (can.id_lt, can.base_le, can.free, e, run) refl, IsFifo-same _ refl refl full)
    | inr (small, run) ↦ impossible can.room small
  ]
    where
      impossible :
          {n : ℕ}
          → 1 < n
          → 1 ≡ n
          → (takemutex m s ≡ ok e_ok high) × IsFifo high (s.mutex m).ceiling (high.currentexe ∷ [])
      impossible a b = ground (arith, a, b)

-- What holds of the states after the taking, `t`, and after the dropping, `u`, up to the scheduler.
pub record IsPair (runqueued : (high low : ℕ) → Cmd Os (Unit {0})) (s t u : Os) (m : ℕ)
    : Type 0 where
  pub takes : takemutex m s ≡ ok e_ok t
  pub owner_is : (t.mutex m).owner ≡ some s.currentexe
  pub currprio_is :
      (t.exe s.currentexe).currprio
      ≡ (if ltb (low_of s) (s.mutex m).ceiling then (s.mutex m).ceiling else low_of s)
  pub drops : dropmutex runqueued m t ≡ (
      if ltb (low_of s) (s.mutex m).ceiling
      then (runqueued (s.mutex m).ceiling (low_of s) >> pure e_ok) u
      else ok e_ok u)
  pub restores : IsRestored s u m

-- If the running executable takes a free mutex in the table, whose ceiling is its base priority or
-- higher and whose ceiling queue is empty and has room, it gets it: it owns the mutex and its
-- priority is the higher of the ceiling and its priority. If it then drops the mutex, all
-- executables are as before, the mutex is free with its ceiling, the other mutexes are unchanged
-- and the ceiling queue is empty; then, exactly if the ceiling had been higher, the scheduler is
-- called for the priorities between, and the answer is no error.
pub take-drop :
    (runqueued : (high low : ℕ) → Cmd Os (Unit {0})) (s : Os) (m : ℕ)
    → CanTake s m
    → (t : Os) × (u : Os) × IsPair runqueued s t u m
unfolding takemutex occupy back
take-drop runqueued s m can = elim (Bool-cases (ltb (low_of s) (s.mutex m).ceiling)) [
  | inr e ↦
      let has = taken-HasTaken s m can in
      (
        taken s m,
        back runqueued s (taken s m) m can has,
        record {
          takes = rw (can.id_lt, can.base_le, can.free, e) refl;
          owner_is = ground arith;
          currprio_is = rw e (ground arith);
          drops = rw e (drop-same runqueued s (taken s m) m can has e);
          restores =
              back-IsRestored runqueued s (taken s m) m can has _ refl refl
                (IsFifo-same [] refl refl can.empty);
        },
      )
  | inl e ↦
      let (takes, full) = take-raise s m can e in
      let (u, run, same) =
        drop-restores runqueued s (high s m can) m can (high-HasTaken s m can) e full in
      (
        high s m can,
        u,
        record {
          takes = takes;
          owner_is = rw (high-HasTaken s m can).mutex_is (ground arith);
          currprio_is = rw e (high-currprio s m can);
          drops = rw e run;
          restores = same;
        },
      )
]
