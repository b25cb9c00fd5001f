-- ===== src/Davroska/Schedule/Rounds.antt =====
-- One round of the loop of `dv_runqueued`: an executable comes to run, runs, and leaves.
use davros.Base.{ℕ, suc, ◌<◌, ◌≡◌, refl, ◌∙◌, ap, sym, true, false, none, List, ◌∷◌, ltb, ◌==◌}
use mathlib.Core.Path.{subst}
use davros.Run.{ok, Cmd}
use davros.Davroska.State.{Os, Sizes, Program}
use davros.Davroska.Queue.Fifo.{IsFifo, SamePlaces, Apart-same, qhead_lem}
use davros.Davroska.Schedule.{run_program, run_executable, enter, leave, preempt, run_loop}
use davros.Davroska.Schedule.Drain.{
  Kept, Kept-trans, Alike, Alike-IsFifo, Alike-trans, preempt-Alike, entered, entered-Alike,
  enter-entered, HasRun, left, leave-left, left-HasRun,
}

Alike-SamePlaces : {s t : Os} → Alike s t → SamePlaces s t
Alike-SamePlaces like r =
    (ap (λ q. (q r).slots) like.queue_is, ap (λ q. (q r).nslots) like.queue_is)

module _ (code : ℕ → Program) (sz : Sizes) (expiry : (f a d : ℕ) → Cmd Os ℕ) (ticks : ℕ) where
  -- Executable `e` waits in queue `p`, its base priority, without mutexes; its program returns, leaves
  -- the queues and the activations alone, and does not depend on the scheduler.
  pub record CanRun (s : Os) (p e : ℕ) : Type 0 where
    pub not_idle : (e == 0) ≡ false
    pub base_is : (s.exe e).baseprio ≡ p
    pub not_raised : ltb (s.exe e).baseprio (s.exe e).runprio ≡ false
    pub free : (s.exe e).mutexlist ≡ none
    pub basic : (s.exe e).extended ≡ none
    pub quiet :
        (t : Os)
        → (u : Os) × Alike t u
          × ((runqueued : (high low : ℕ) → Cmd Os (Unit {0}))
              → run_program runqueued sz expiry ticks (code (s.exe e).func) t ≡ ok tt u)

  pub CanRun-Kept :
      {s t : Os} {p : ℕ} (e : ℕ) → Kept (s.exe e) (t.exe e) → CanRun s p e → CanRun t p e
  CanRun-Kept e k can = record {
    not_idle = can.not_idle;
    base_is = k.baseprio_is ∙ can.base_is;
    not_raised = rw (k.baseprio_is, k.runprio_is) can.not_raised;
    free = k.mutexlist_is ∙ can.free;
    basic = k.extended_is ∙ can.basic;
    quiet = λ t. rw k.func_is (can.quiet t);
  }

  -- Executable `e` has run once, from priority queue `p` and inside the call of `exe`: from its start, by
  -- its program, to its end.
  pub record OneRun (s t : Os) (exe p e : ℕ) : Type 0 where
    pub stopped : Os
    pub started : Os
    pub ended : Os
    pub stops : preempt exe s ≡ ok tt stopped
    pub starts : enter e stopped ≡ ok p started
    pub runs :
        (request : (high low : ℕ) → Cmd Os (Unit {0}))
        → run_program request sz expiry ticks (code (started.exe e).func) started ≡ ok tt ended
    pub leaves : leave e p ended ≡ ok tt t

  pub record IsRound (s t : Os) (exe p low e : ℕ) (ids : List ℕ) : Type 0 where
    pub run :
        (fuel : ℕ)
        → run_loop code sz expiry ticks (suc fuel) exe p low s
          ≡ run_loop code sz expiry ticks fuel exe p low t
    pub has : HasRun s t p e ids
    pub once : OneRun s t exe p e

  run_from :
      (s s₁ s₂ : Os) (exe p low e : ℕ) (ids : List ℕ)
      → ltb low p ≡ true
      → IsFifo s p (e ∷ ids)
      → (e == 0) ≡ false
      → preempt exe s ≡ ok tt s₁
      → enter e s₁ ≡ ok p s₂
      → Alike s s₂
      → CanRun s₂ p e
      → 0 < (s.exe e).nact
      → (t : Os) × IsRound s t exe p low e ids
  unfolding run_loop run_executable
  run_from s s₁ s₂ exe p low e ids above is other preempted enters like₂ can active =
      let (u, like₃, ran) = can.quiet s₂ in
      let like = Alike-trans like₂ like₃ in
      let base_is : (u.exe e).baseprio ≡ p = (like₃.kept e).baseprio_is ∙ can.base_is in
      let free : (u.exe e).mutexlist ≡ none = (like₃.kept e).mutexlist_is ∙ can.free in
      let basic : (u.exe e).extended ≡ none = (like₃.kept e).extended_is ∙ can.basic in
      let full : IsFifo u (u.exe e).baseprio (e ∷ ids) =
        rw base_is (Alike-IsFifo (e ∷ ids) like is) in
      let t = left u e ids full in
      let leaves : leave e p u ≡ ok tt t =
        subst (λ q. leave e q u ≡ ok tt t) base_is (leave-left u e ids full free basic) in
      let has : HasRun u t p e ids =
        subst (λ q. HasRun u t q e ids) base_is
          (left-HasRun u e ids full (rw (like.nact_is e) active)) in
      (
        t,
        record {
          run = λ fuel.
              rw (above, qhead_lem (e ∷ ids) is, other, preempted, enters, can.basic, ran, leaves)
                refl;
          has = record {
            fifo = has.fifo;
            kept = λ j. Kept-trans (like.kept j) (has.kept j);
            nact_is = λ j. rw (has.nact_is j, like.nact_is j) refl;
            others_are = λ r h. has.others_are r h ∙ ap (λ q. q r) like.queue_is;
            others_hold = λ r js h apart it.
                has.others_hold r js h (Apart-same s u p r (Alike-SamePlaces like) apart)
                  (Alike-IsFifo js like it);
            places = λ r. rw (sym (ap (λ q. q r) like.queue_is)) (has.places r);
          };
          once = record {
            stopped = s₁;
            started = s₂;
            ended = u;
            stops = preempted;
            starts = enters;
            runs = ran;
            leaves = leaves;
          };
        },
      )

  pub run_one :
      (s : Os) (exe p low e : ℕ) (ids : List ℕ)
      → ltb low p ≡ true
      → IsFifo s p (e ∷ ids)
      → CanRun s p e
      → 0 < (s.exe e).nact
      → (t : Os) × IsRound s t exe p low e ids
  run_one s exe p low e ids above is can active =
      let (s₁, preempted, like₁) = preempt-Alike exe s in
      let like = Alike-trans like₁ (entered-Alike e s₁) in
      let can₁ = CanRun-Kept {s = s} {t = s₁} e (like₁.kept e) can in
      run_from s s₁ (entered e s₁) exe p low e ids above is can.not_idle preempted
        (subst (λ q. enter e s₁ ≡ ok q (entered e s₁)) can₁.base_is
          (enter-entered e s₁ can₁.not_raised))
        like (CanRun-Kept {s = s} {t = entered e s₁} e (like.kept e) can) active
