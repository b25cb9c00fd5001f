-- ===== src/Davroska/Schedule/Drain.antt =====
-- One executable comes to run and leaves: the steps of `dv_runqueued`.
use davros.Base.{
  ℕ, zero, suc, ◌+◌, ◌-◌, ◌<◌, ◌≡◌, refl, ◌∙◌, true, false, none, List, ◌∷◌, arith, ltb, leb, ◌==◌,
  if◌then◌else◌, inl, inr, Bool-cases,
}
use davros.Run.{ok}
use davros.Davroska.State.{Os, DvExe, with_exe, with_ext, running, ready, suspended}
use davros.Davroska.Queue.Fifo.{IsFifo, Apart, SamePlaces, dequeued, dequeue-first, dequeue-frame}
use davros.Davroska.Extended.{set_onkernelstack}
use davros.Davroska.Schedule.{
  is_running, enter, dequeue_exe, release_mutexes, leave, one_less, preempt, taskwaiting,
}

-- What the scheduler leaves alone of an executable, whichever it runs.
pub record Kept (x y : DvExe) : Type 0 where
  pub baseprio_is : y.baseprio ≡ x.baseprio
  pub runprio_is : y.runprio ≡ x.runprio
  pub mutexlist_is : y.mutexlist ≡ x.mutexlist
  pub func_is : y.func ≡ x.func
  pub extended_is : y.extended ≡ x.extended

-- The queues are the same, and of the executables what is kept, and their activations.
pub record Alike (s t : Os) : Type 0 where
  pub queue_is : t.queue ≡ s.queue
  pub slots_is : t.slots ≡ s.slots
  pub kept : (j : ℕ) → Kept (s.exe j) (t.exe j)
  pub nact_is : (j : ℕ) → (t.exe j).nact ≡ (s.exe j).nact

pub Alike-IsFifo : {s t : Os} {p : ℕ} (ids : List ℕ) → Alike s t → IsFifo s p ids → IsFifo t p ids
Alike-IsFifo ids a is = record {
  head_lt = rw a.queue_is is.head_lt;
  tail_lt = rw a.queue_is is.tail_lt;
  holds = rw (a.queue_is, a.slots_is) is.holds;
}

pub Kept-trans : {x y z : DvExe} → Kept x y → Kept y z → Kept x z
Kept-trans a b = record {
  baseprio_is = b.baseprio_is ∙ a.baseprio_is;
  runprio_is = b.runprio_is ∙ a.runprio_is;
  mutexlist_is = b.mutexlist_is ∙ a.mutexlist_is;
  func_is = b.func_is ∙ a.func_is;
  extended_is = b.extended_is ∙ a.extended_is;
}

pub Alike-trans : {s t u : Os} → Alike s t → Alike t u → Alike s u
Alike-trans a b = record {
  queue_is = b.queue_is ∙ a.queue_is;
  slots_is = b.slots_is ∙ a.slots_is;
  kept = λ j. Kept-trans (a.kept j) (b.kept j);
  nact_is = λ j. b.nact_is j ∙ a.nact_is j;
}

pub Kept-refl : (x : DvExe) → Kept x x
Kept-refl x = record {
  baseprio_is = refl;
  runprio_is = refl;
  mutexlist_is = refl;
  func_is = refl;
  extended_is = refl;
}

pub preempt-Alike : (e : ℕ) (s : Os) → (t : Os) × (preempt e s ≡ ok tt t) × Alike s t
unfolding preempt
preempt-Alike e s = elim (Bool-cases (is_running (s.exe e).state)) [
  | inl on ↦ (
    with_exe e (λ r. record r { state = ready }) s,
    rw on refl,
    record {
      queue_is = refl;
      slots_is = refl;
      kept = λ j. record {
        baseprio_is = ground arith;
        runprio_is = ground arith;
        mutexlist_is = ground arith;
        func_is = ground arith;
        extended_is = ground arith;
      };
      nact_is = λ j. ground arith;
    },
  )
  | inr off ↦ (
    s,
    rw off refl,
    record {
      queue_is = refl;
      slots_is = refl;
      kept = λ j. Kept-refl (s.exe j);
      nact_is = λ j. refl;
    },
  )
]

abbrev pub entered : ℕ → Os → Os
entered e s =
    let x = s.exe e in
    let u =
      with_exe e (λ r. record r { state = running; jb = true })
        (with_exe e (λ r. record r { currprio = x.baseprio }) (record s { currentexe = e })) in
    record u { irqlevel = (s.queue x.baseprio).level }

pub entered-Alike : (e : ℕ) (s : Os) → Alike s (entered e s)
entered-Alike e s = record {
  queue_is = refl;
  slots_is = refl;
  kept = λ j. record {
    baseprio_is = ground arith;
    runprio_is = ground arith;
    mutexlist_is = ground arith;
    func_is = ground arith;
    extended_is = ground arith;
  };
  nact_is = λ j. ground arith;
}

pub enter-entered :
    (e : ℕ) (s : Os)
    → ltb (s.exe e).baseprio (s.exe e).runprio ≡ false
    → enter e s ≡ ok (s.exe e).baseprio (entered e s)
unfolding enter
enter-entered e s low = rw low refl

-- Executable `e` has run once, and `ids` are left in queue `p`.
pub record HasRun (s t : Os) (p e : ℕ) (ids : List ℕ) : Type 0 where
  pub fifo : IsFifo t p ids
  pub kept : (j : ℕ) → Kept (s.exe j) (t.exe j)
  pub nact_is : (j : ℕ) → (t.exe j).nact ≡ (s.exe j).nact - (if e == j then 1 else 0)
  pub others_are : (r : ℕ) → (p == r) ≡ false → t.queue r ≡ s.queue r
  pub others_hold :
      (r : ℕ) (js : List ℕ) → (p == r) ≡ false → Apart s p r → IsFifo s r js → IsFifo t r js
  pub places : SamePlaces s t

release-none :
    (fuel e : ℕ) (s : Os)
    → 0 < fuel
    → (s.exe e).mutexlist ≡ none
    → release_mutexes fuel e s ≡ ok tt s
unfolding release_mutexes
release-none zero e s l h = elim l [ ]
release-none (suc fuel) e s l h = rw h refl

module _ (s : Os) (e : ℕ) (ids : List ℕ) (fifo : IsFifo s (s.exe e).baseprio (e ∷ ids)) where
  abbrev pub base : ℕ
  base = (s.exe e).baseprio

  -- The state at the beginning of `leave`.
  abbrev pub on_kernel : Os
  on_kernel = with_ext (λ r. record r { onkernelstack = true }) s

  abbrev pub rebased : Os
  rebased = with_exe e (λ r. record r { currprio = base }) on_kernel

  rebased-IsFifo : IsFifo rebased base (e ∷ ids)
  rebased-IsFifo = record { head_lt = fifo.head_lt; tail_lt = fifo.tail_lt; holds = fifo.holds }

  dequeue_exe-first : dequeue_exe base e rebased ≡ ok tt (dequeued rebased base)
  unfolding dequeue_exe
  dequeue_exe-first =
      let self : (e == e) ≡ true = ground arith in
      rw ((dequeue-first e ids rebased-IsFifo).0, self) refl

  taskwaiting-basic : (s.exe e).extended ≡ none → taskwaiting on_kernel e ≡ false
  unfolding taskwaiting
  taskwaiting-basic h = rw (h, taskwaiting) refl

  abbrev pub left : Os
  left =
      with_exe e (λ r. record r { jb = false })
        (with_exe e
          (λ r. record r {
            nact = one_less (s.exe e).nact;
            state = if leb (s.exe e).nact 1 then suspended else ready;
          })
          (dequeued rebased base))

  pub leave-left :
      (s.exe e).mutexlist ≡ none → (s.exe e).extended ≡ none → leave e base s ≡ ok tt left
  unfolding leave set_onkernelstack
  leave-left free basic =
      let same : (base == base) ≡ true = ground arith in
      let release : release_mutexes (s.nmutex + 1) e on_kernel ≡ ok tt on_kernel =
        release-none (s.nmutex + 1) e on_kernel (omega arith) free in
      rw (release, same, dequeue_exe-first, taskwaiting-basic basic) refl

  pub left-HasRun : 0 < (s.exe e).nact → HasRun s left base e ids
  left-HasRun active =
      let is = (dequeue-first e ids rebased-IsFifo).1 in
      record {
        fifo = record { head_lt = is.head_lt; tail_lt = is.tail_lt; holds = is.holds };
        kept = λ j. record {
          baseprio_is = ground arith;
          runprio_is = ground arith;
          mutexlist_is = ground arith;
          func_is = ground arith;
          extended_is = ground arith;
        };
        nact_is = λ j. ground arith;
        others_are = λ r h. ground arith;
        others_hold = λ r js other apart it.
            let there : IsFifo rebased r js = record {
              head_lt = it.head_lt;
              tail_lt = it.tail_lt;
              holds = it.holds;
            } in
            let here = dequeue-frame rebased-IsFifo r js other apart there in
            record { head_lt = here.head_lt; tail_lt = here.tail_lt; holds = here.holds };
        places = λ r. ground arith;
      }
