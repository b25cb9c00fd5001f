-- ===== src/Davroska/Schedule/Activate.antt =====
-- What the activation of a task comes to: `dv_activatetask`, with the scheduler that it calls.
use davros.Base.{
  ℕ, ◌+◌, ◌<◌, ◌≤◌, ◌≡◌, refl, ◌∙◌, inl, inr, false, none, List, [], ◌∷◌, ◌++◌, arith, leb, ◌==◌,
  length, if◌then◌else◌,
}
use mathlib.Core.Path.{subst}
use davros.Run.{ok, Cmd}
use davros.Davroska.State.{Os, Sizes, Program, not_a_task, ready, e_ok, with_exe}
use davros.Davroska.Queue.{enqueue}
use davros.Davroska.Queue.Fifo.{IsFifo, Apart, enqueued, enqueue_lem, enqueue-frame}
use davros.Davroska.Extended.{clearpending, runqueued_onkernelstack}
use davros.Davroska.Extended.Request.{CanRequest, SameTasks, on_kernel, request_lem}
use davros.Davroska.Schedule.{
  is_running, activateexe2, activateexe, activatetask, resume, runqueued,
}
use davros.Davroska.Schedule.Drain.{Kept}
use davros.Davroska.Schedule.Complete.{runqueued-none, runqueued_lem}
use davros.Davroska.Schedule.Rounds.{CanRun, CanRun-Kept, OneRun}

-- The activation of `e` is counted.
abbrev pub counted : Os → ℕ → Os
counted s e =
    with_exe e
      (λ r. record r {
        nact = (s.exe e).nact + 1;
        state = if is_running (s.exe e).state then (s.exe e).state else ready;
      })
      s

-- Task `e`, which is not extended, may be activated, and its queue, which holds `ids`, has room.
pub record CanActivate (s : Os) (e : ℕ) (ids : List ℕ) : Type 0 where
  pub basic : (s.exe e).extended ≡ none
  pub is_task : not_a_task e s.ntask ≡ false
  pub below_max : leb (s.exe e).maxact (s.exe e).nact ≡ false
  pub fifo : IsFifo s (s.exe e).baseprio ids
  pub room : length ids + 1 < (s.queue (s.exe e).baseprio).nslots

clearpending-basic : (e : ℕ) (s : Os) → (s.exe e).extended ≡ none → clearpending e s ≡ ok tt s
unfolding clearpending
clearpending-basic e s h = rw (h, clearpending) refl

module _ (s : Os) (e : ℕ) (ids : List ℕ) (can : CanActivate s e ids) where
  abbrev base : ℕ
  base = (s.exe e).baseprio

  abbrev caller : ℕ
  caller = (s.exe s.currentexe).currprio

  counted-IsFifo : IsFifo (counted s e) base ids
  counted-IsFifo = record {
    head_lt = can.fifo.head_lt;
    tail_lt = can.fifo.tail_lt;
    holds = can.fifo.holds;
  }

  -- The state in which the scheduler is called.
  abbrev queued : Os
  queued = enqueued counted-IsFifo e

  enqueue-queued :
      (enqueue base e (counted s e) ≡ ok tt queued) × IsFifo queued base (ids ++ e ∷ [])
  enqueue-queued = elim (enqueue_lem counted-IsFifo e) [
    | inl (room, run, full) ↦ (run, full)
    | inr (small, run) ↦ impossible small
  ]
    where
      impossible :
          length ids + 1 ≡ (s.queue base).nslots
          → (enqueue base e (counted s e) ≡ ok tt queued) × IsFifo queued base (ids ++ e ∷ [])
      impossible h = ground (arith, can.room)

  activates :
      (runqueued : (high low : ℕ) → Cmd Os (Unit {0})) (t : Os)
      → runqueued base caller queued ≡ ok tt t
      → activatetask runqueued e s ≡ ok e_ok t
  unfolding activatetask activateexe activateexe2
  activates runqueued t run =
      rw
        (
          can.is_task,
          can.below_max,
          clearpending-basic e (counted s e) (ground (arith, can.basic)),
          enqueue-queued.0,
          run,
        )
        refl

  queued-Kept : (j : ℕ) → Kept (s.exe j) (queued.exe j)
  queued-Kept j = record {
    baseprio_is = ground arith;
    runprio_is = ground arith;
    mutexlist_is = ground arith;
    func_is = ground arith;
    extended_is = ground arith;
  }

  queued-nact : (j : ℕ) → (queued.exe j).nact ≡ (s.exe j).nact + (if e == j then 1 else 0)
  queued-nact j = ground arith

  queued-hold :
      (r : ℕ) (js : List ℕ)
      → (base == r) ≡ false
      → Apart s base r
      → IsFifo s r js
      → IsFifo queued r js
  queued-hold r js other apart it =
      let there : IsFifo (counted s e) r js = record {
        head_lt = it.head_lt;
        tail_lt = it.tail_lt;
        holds = it.holds;
      } in
      enqueue-frame counted-IsFifo e r js other apart there

  queued-others : (r : ℕ) → (base == r) ≡ false → queued.queue r ≡ s.queue r
  queued-others r h = ground arith

-- Of the state `t` in which the scheduler returns, the caller sees `u`, which may be on another stack.
SameTasks-IsFifo :
    {t u : Os} {p : ℕ} (ids : List ℕ) → SameTasks t u → IsFifo t p ids → IsFifo u p ids
SameTasks-IsFifo ids same it = record {
  head_lt = rw same.queue_is it.head_lt;
  tail_lt = rw same.queue_is it.tail_lt;
  holds = rw (same.queue_is, same.slots_is) it.holds;
}

module _ (code : ℕ → Program) (sz : Sizes) (expiry : (f a d : ℕ) → Cmd Os ℕ) (ticks fuel : ℕ)
    (s : Os) (e : ℕ) where
  -- Task `e`, with base priority `p`, which `exe` has activated, has been put into its queue and has run
  -- from its start to its end, on the kernel stack, and `exe` has come back to see `u`.
  pub record RunsToEnd (u : Os) (exe p : ℕ) : Type 0 where
    pub waits : Os
    pub ended : Os
    pub resumed : Os
    pub queues : enqueue p e (counted s e) ≡ ok tt waits
    pub runs : OneRun code sz expiry ticks (on_kernel waits) ended exe p e
    pub resumes : resume exe ended ≡ ok tt resumed
    pub sees : SameTasks resumed u

  -- If a basic task that may be activated has a higher priority than the running executable, its
  -- queue is empty and has room, the queues between the two priorities are empty, it holds no mutex
  -- and has no raised running priority, and its program returns, leaves the queues, the priorities
  -- and the activations alone and does not depend on the scheduler, and a request to the scheduler
  -- is possible, then with more fuel than its priority plus one the activation answers no error.
  -- Before, the task has been put into its queue and, on the kernel stack, has run: it was entered,
  -- its program ran from its start to its end, and it left; then the caller resumed. The running
  -- executable is the same, every executable has as many activations as before, and the queues
  -- above the caller's priority up to the task's are empty.
  pub activatetask-higher :
      CanActivate s e []
      → CanRequest s
      → CanRun code sz expiry ticks s (s.exe e).baseprio e
      → (s.exe s.currentexe).currprio < (s.exe e).baseprio
      → ((r : ℕ)
          → (s.exe s.currentexe).currprio < r
          → r < (s.exe e).baseprio
          → (s.queue r).head ≡ (s.queue r).tail)
      → 1 + (s.exe e).baseprio < fuel
      → (u : Os) × (activatetask (runqueued_onkernelstack (runqueued code sz expiry ticks fuel)) e s
          ≡ ok e_ok u)
        × RunsToEnd u s.currentexe (s.exe e).baseprio
        × (u.currentexe ≡ s.currentexe)
        × ((j : ℕ) → (u.exe j).nact ≡ (s.exe j).nact)
        × ((r : ℕ)
            → (s.exe s.currentexe).currprio < r
            → r ≤ (s.exe e).baseprio
            → (u.queue r).head ≡ (u.queue r).tail)
  activatetask-higher can can_request quiet above none_waits enough =
      let q = on_kernel (queued s e [] can) in
      let p = base s e [] can in
      let low = caller s e [] can in
      let full = (enqueue-queued s e [] can).1 in
      let can_run =
        CanRun-Kept code sz expiry ticks {s = s} {t = q} e (queued-Kept s e [] can e) quiet in
      let (m, t, run, (n, once, last), back, current, done) =
        runqueued_lem code sz expiry ticks (e ∷ []) fuel q p low above
          (record { head_lt = full.head_lt; tail_lt = full.tail_lt; holds = full.holds })
          (can_run, tt) (λ j. ground (arith, queued-nact s e [] can j))
          (λ r a b. rw (queued-others s e [] can r (ground arith)) (none_waits r a b))
          (omega arith) in
      let (u, requests, same) =
        request_lem (runqueued code sz expiry ticks fuel) p low (queued s e [] can) t can_request
          run in
      (
        u,
        activates s e [] can (runqueued_onkernelstack (runqueued code sz expiry ticks fuel)) u
            requests,
        record {
          waits = queued s e [] can;
          ended = m;
          resumed = t;
          queues = (enqueue-queued s e [] can).0;
          runs = subst (λ v. OneRun code sz expiry ticks q v s.currentexe p e) last once;
          resumes = back;
          sees = same;
        },
        same.current_is ∙ current,
        (λ j. rw same.exe_is (ground (arith, done.nact_is j, queued-nact s e [] can j))),
        (λ r a b. rw same.queue_is (done.empty r a b)),
      )

  -- If a basic task that may be activated does not have a higher priority than the running
  -- executable, its queue holds some executables and has room, and a request to the scheduler is
  -- possible, from the kernel stack or from that of the caller, then with any fuel but 0 the
  -- activation answers no error and the running executable goes on: the task is the last in its
  -- queue and has one activation more, no other executable's activations change, and the other
  -- queues keep their indexes, and what they hold if their slots are apart from those of the task's
  -- queue.
  pub activatetask-lower :
      (ids : List ℕ)
      → CanActivate s e ids
      → CanRequest s
      → (s.exe e).baseprio ≤ (s.exe s.currentexe).currprio
      → 0 < fuel
      → (u : Os) × (activatetask (runqueued_onkernelstack (runqueued code sz expiry ticks fuel)) e s
          ≡ ok e_ok u)
        × IsFifo u (s.exe e).baseprio (ids ++ e ∷ [])
        × (u.currentexe ≡ s.currentexe)
        × ((j : ℕ) → (u.exe j).nact ≡ (s.exe j).nact + (if e == j then 1 else 0))
        × ((r : ℕ) → ((s.exe e).baseprio == r) ≡ false → u.queue r ≡ s.queue r)
        × ((r : ℕ) (js : List ℕ)
            → ((s.exe e).baseprio == r) ≡ false
            → Apart s (s.exe e).baseprio r
            → IsFifo s r js
            → IsFifo u r js)
  activatetask-lower ids can can_request below enough =
      let q = queued s e ids can in
      let rq = runqueued code sz expiry ticks fuel in
      let (u, requests, same) =
        request_lem rq (base s e ids can) (caller s e ids can) q (on_kernel q) can_request (
          runqueued-none code sz expiry ticks fuel (base s e ids can) (caller s e ids can)
            (on_kernel q) below enough) in
      let seen = λ (r : ℕ) (js : List ℕ) (it : IsFifo q r js).
        SameTasks-IsFifo {t = on_kernel q} {u = u} js same
          (record { head_lt = it.head_lt; tail_lt = it.tail_lt; holds = it.holds }) in
      (
        u,
        activates s e ids can (runqueued_onkernelstack rq) u requests,
        seen (s.exe e).baseprio (ids ++ e ∷ []) (enqueue-queued s e ids can).1,
        same.current_is,
        (λ j. rw same.exe_is (queued-nact s e ids can j)),
        (λ r h. rw same.queue_is (queued-others s e ids can r h)),
        (λ r js h apart it. seen r js (queued-hold s e ids can r js h apart it)),
      )
