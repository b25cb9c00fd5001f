-- ===== src/Davroska/Schedule/Complete.antt =====
-- The loop of `dv_runqueued` runs all executables of a queue, the oldest first, and ends.
use davros.Base.{
  ℕ, zero, suc, ◌+◌, ◌-◌, ◌<◌, ◌≤◌, ◌≡◌, refl, ◌∙◌, ap, true, false, List, [], ◌∷◌, arith, ltb,
  ◌==◌, length, if◌then◌else◌, inl, inr, Bool-cases,
}
use mathlib.Core.Path.{subst}
use davros.Run.{ok, Cmd}
use davros.Davroska.State.{Os, Sizes, Program, with_exe, running}
use davros.Davroska.Queue.{qhead}
use davros.Davroska.Queue.Fifo.{IsFifo, Apart, Apart-same}
use davros.Davroska.Schedule.{and_resume, resume, run_loop, runqueued}
use davros.Davroska.Schedule.Drain.{Kept, Kept-refl, Kept-trans, Alike, Alike-IsFifo}
use davros.Dll.Walk.{All, All-imp}
use davros.Davroska.Schedule.Rounds.{CanRun, CanRun-Kept, OneRun, run_one}

-- How often `e` is in the list.
abbrev pub count : ℕ → List ℕ → ℕ
count e [] = 0
count e (x ∷ xs) = (if x == e then 1 else 0) + count e xs

-- The queues from `p` down to `low` are empty, `ids` of them have run, and no other queue has changed.
pub record HasDrained (s t : Os) (p low : ℕ) (ids : List ℕ) : Type 0 where
  pub empty : (r : ℕ) → low < r → r ≤ p → (t.queue r).head ≡ (t.queue r).tail
  pub kept : (j : ℕ) → Kept (s.exe j) (t.exe j)
  pub nact_is : (j : ℕ) → (t.exe j).nact ≡ (s.exe j).nact - count j ids
  pub others_are : (r : ℕ) → (p == r) ≡ false → t.queue r ≡ s.queue r
  pub others_hold :
      (r : ℕ) (js : List ℕ) → (p == r) ≡ false → Apart s p r → IsFifo s r js → IsFifo t r js

-- No executable is in the list more often than it is activated.
abbrev pub IsActivated : Os → List ℕ → Type 0
IsActivated s ids = (j : ℕ) → count j ids ≤ (s.exe j).nact

module _ (code : ℕ → Program) (sz : Sizes) (expiry : (f a d : ℕ) → Cmd Os ℕ) (ticks : ℕ) where
  -- The executables in the list have run, one after the other.
  abbrev pub HaveRun : (exe p : ℕ) → List ℕ → (s t : Os) → Type 0
  HaveRun exe p [] s t = s ≡ t
  HaveRun exe p (e ∷ ids) s t =
      (m : Os) × OneRun code sz expiry ticks s m exe p e × HaveRun exe p ids m t

  -- There is nothing to run above `low`.
  pub run_loop-idle :
      (fuel exe p low : ℕ) (s : Os)
      → ((r : ℕ) → low < r → r ≤ p → (s.queue r).head ≡ (s.queue r).tail)
      → p - low < fuel
      → run_loop code sz expiry ticks fuel exe p low s ≡ ok tt s
  unfolding run_loop qhead
  run_loop-idle zero exe p low s none_waits h = elim h [ ]
  run_loop-idle (suc fuel) exe p low s none_waits h = elim (Bool-cases (ltb low p)) [
    | inl above ↦
        let empty : ((s.queue p).head == (s.queue p).tail) ≡ true = ground (arith, none_waits p) in
        rw (above, empty)
          (run_loop-idle fuel exe (p - 1) low s (λ r a b. none_waits r a (omega arith))
            (ground arith))
    | inr done ↦ rw done refl
  ]

  -- A request for priorities that are not above the caller's changes nothing.
  pub runqueued-none :
      (fuel high low : ℕ) (s : Os)
      → high ≤ low
      → 0 < fuel
      → runqueued code sz expiry ticks fuel high low s ≡ ok tt s
  unfolding runqueued and_resume resume
  runqueued-none fuel high low s h enough =
      let loop = run_loop-idle fuel s.currentexe high low s (λ r a b. ground arith) (omega arith) in
      let same : (s.currentexe == s.currentexe) ≡ true = ground arith in rw (loop, same) refl

  drain :
      (ids : List ℕ) (fuel : ℕ) (s : Os) (exe p low : ℕ)
      → low < p
      → IsFifo s p ids
      → All (CanRun code sz expiry ticks s p) ids
      → IsActivated s ids
      → ((r : ℕ) → low < r → r < p → (s.queue r).head ≡ (s.queue r).tail)
      → length ids + (p - low) < fuel
      → (t : Os) × (run_loop code sz expiry ticks fuel exe p low s ≡ ok tt t)
        × HaveRun exe p ids s t
        × HasDrained s t p low ids
  drain [] fuel s exe p low above is can active none_waits h =
      let empty : (r : ℕ) → low < r → r ≤ p → (s.queue r).head ≡ (s.queue r).tail = λ r a b.
        elim (Bool-cases (ltb r p)) [
          | inl lower ↦ none_waits r a (ground arith)
          | inr top ↦
              (let same : p ≡ r = ground arith in
                subst (λ q. (s.queue q).head ≡ (s.queue q).tail) same is.holds)
        ] in
      (
        s,
        run_loop-idle fuel exe p low s empty (omega arith),
        refl,
        record {
          empty = empty;
          kept = λ j. Kept-refl (s.exe j);
          nact_is = λ j. omega arith;
          others_are = λ r e. refl;
          others_hold = λ r js e apart it. it;
        },
      )
  drain (e ∷ ids) zero s exe p low above is can active none_waits h = elim h [ ]
  drain (e ∷ ids) (suc fuel) s exe p low above is can active none_waits h =
      let (s₁, round) =
        run_one code sz expiry ticks s exe p low e ids (ground arith) is can.0
          (ground (arith, active e)) in
      let has = round.has in
      let (t, run, ran, done) =
        drain ids fuel s₁ exe p low above has.fifo
          (All-imp ids (λ j c. CanRun-Kept code sz expiry ticks {s = s} {t = s₁} j (has.kept j) c)
            can.1)
          (λ j. ground (arith, active j, has.nact_is j))
          (λ r a b. rw (has.others_are r (ground arith)) (none_waits r a b)) (omega arith) in
      (
        t,
        round.run fuel ∙ run,
        (s₁, round.once, ran),
        record {
          empty = done.empty;
          kept = λ j. Kept-trans (has.kept j) (done.kept j);
          nact_is = λ j. ground (arith, done.nact_is j, has.nact_is j);
          others_are = λ r e. done.others_are r e ∙ has.others_are r e;
          others_hold = λ r js e apart it.
              done.others_hold r js e (Apart-same s s₁ p r has.places apart)
                (has.others_hold r js e apart it);
        },
      )

  resumed :
      (exe : ℕ) (s : Os) → (t : Os) × (resume exe s ≡ ok tt t) × (t.currentexe ≡ exe) × Alike s t
  unfolding resume
  resumed exe s = elim (Bool-cases (s.currentexe == exe)) [
    | inl same ↦ (
      s,
      rw same refl,
      ground arith,
      record {
        queue_is = refl;
        slots_is = refl;
        kept = λ j. Kept-refl (s.exe j);
        nact_is = λ j. refl;
      },
    )
    | inr other ↦ (
      with_exe exe (λ r. record r { state = running })
          (record s { currentexe = exe; irqlevel = (s.queue (s.exe exe).currprio).level }),
      rw other refl,
      refl,
      record {
        queue_is = refl;
        slots_is = refl;
        kept = λ j. record {
          baseprio_is = ground arith;
          runprio_is = ground arith;
          mutexlist_is = ground arith;
          func_is = ground arith;
          extended_is = ground arith;
        };
        nact_is = λ j. ground arith;
      },
    )
  ]

  -- If a queue above a priority holds basic executables whose base priority it is, which hold no
  -- mutex, have no raised running priority, and whose programs return, leave the queues, the
  -- priorities and the activations alone and do not depend on the scheduler, the queues between are
  -- empty, and no executable is in the queue more often than it is activated, then with more fuel
  -- than executables and priorities the scheduler runs them and returns: one after the other, in
  -- the order of the queue, each is entered, its program runs from its start to its end, and it
  -- leaves, and then the caller resumes. The queues from that one down to the given priority are
  -- empty, the other queues keep their indexes, and what they hold if they have slots of their own,
  -- the running executable is the same, and each executable has as many activations less as it was
  -- in the queue.
  pub runqueued_lem :
      (ids : List ℕ) (fuel : ℕ) (s : Os) (high low : ℕ)
      → low < high
      → IsFifo s high ids
      → All (CanRun code sz expiry ticks s high) ids
      → IsActivated s ids
      → ((r : ℕ) → low < r → r < high → (s.queue r).head ≡ (s.queue r).tail)
      → length ids + (high - low) < fuel
      → (m : Os) × (t : Os) × (runqueued code sz expiry ticks fuel high low s ≡ ok tt t)
        × HaveRun s.currentexe high ids s m
        × (resume s.currentexe m ≡ ok tt t)
        × (t.currentexe ≡ s.currentexe)
        × HasDrained s t high low ids
  unfolding runqueued and_resume
  runqueued_lem ids fuel s high low above is can active none_waits h =
      let (t, run, ran, done) =
        drain ids fuel s s.currentexe high low above is can active none_waits h in
      let (u, back, current, like) = resumed s.currentexe t in
      (
        t,
        u,
        rw (run, back) refl,
        ran,
        back,
        current,
        record {
          empty = λ r a b. rw like.queue_is (done.empty r a b);
          kept = λ j. Kept-trans (done.kept j) (like.kept j);
          nact_is = λ j. like.nact_is j ∙ done.nact_is j;
          others_are = λ r e. ap (λ q. q r) like.queue_is ∙ done.others_are r e;
          others_hold = λ r js e apart it. Alike-IsFifo js like (done.others_hold r js e apart it);
        },
      )
