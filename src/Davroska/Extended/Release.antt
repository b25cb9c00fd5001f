-- ===== src/Davroska/Extended/Release.antt =====
-- An event that a task waits for releases it.
use davros.Base.{
  ℕ, ◌+◌, ◌<◌, ◌≤◌, ◌≡◌, refl, inl, inr, true, false, some, List, [], ◌∷◌, ◌++◌, arith, ◌==◌,
  length, bit_and, bit_or,
}
use davros.Run.{ok, Cmd}
use davros.Davroska.State.{
  Os, Sizes, Program, e_ok, TaskState, suspended, running, waiting, ready, with_exe, with_extended,
  not_a_task,
}
use davros.Davroska.Queue.{enqueue}
use davros.Davroska.Queue.Fifo.{IsFifo, Apart, enqueued, enqueue_lem, enqueue-frame}
use davros.Davroska.Extended.{
  is_waiting, is_suspended, setevent, set_extended, release, runqueued_onkernelstack,
}
use davros.Davroska.Extended.Request.{SameTasks, CanRequest, on_kernel, request_lem}
use davros.Davroska.Schedule.{runqueued}
use davros.Davroska.Schedule.Complete.{runqueued-none}

-- Task `t`, with the entry `x`, waits for one of the events `evts` or has it pending, and its queue,
-- which holds `ids`, has room.
pub record CanRelease (s : Os) (t x evts : ℕ) (ids : List ℕ) : Type 0 where
  pub is_task : not_a_task t s.ntask ≡ false
  pub is_extended : (s.exe t).extended ≡ some x
  pub waits : is_waiting (s.exe t).state ≡ true
  pub hit :
      (bit_and (bit_or (s.ext.extended x).events_pending evts) (s.ext.extended x).events_awaited
        == 0)
      ≡ false
  pub fifo : IsFifo s (s.exe t).baseprio ids
  pub room : length ids + 1 < (s.queue (s.exe t).baseprio).nslots

-- Task `t` is ready and in its queue, with the events `evts`, and nothing else has changed.
pub record IsReleased (s u : Os) (t x evts : ℕ) (ids : List ℕ) : Type 0 where
  pub ready_is : (u.exe t) ≡ record (s.exe t) { state = ready }
  pub queued : IsFifo u (s.exe t).baseprio (ids ++ t ∷ [])
  pub pending_is :
      u.ext.extended x
      ≡ record (s.ext.extended x) { events_pending = bit_or (s.ext.extended x).events_pending evts }
  pub current_is : u.currentexe ≡ s.currentexe
  pub other_tasks : (j : ℕ) → (t == j) ≡ false → u.exe j ≡ s.exe j
  pub other_entries : (y : ℕ) → (x == y) ≡ false → u.ext.extended y ≡ s.ext.extended y
  pub other_queues : (r : ℕ) → ((s.exe t).baseprio == r) ≡ false → u.queue r ≡ s.queue r
  pub others_hold :
      (r : ℕ) (js : List ℕ)
      → ((s.exe t).baseprio == r) ≡ false
      → Apart s (s.exe t).baseprio r
      → IsFifo s r js
      → IsFifo u r js

module _ (s : Os) (t x evts : ℕ) (ids : List ℕ) (can : CanRelease s t x evts ids) where
  abbrev base : ℕ
  base = (s.exe t).baseprio

  abbrev pending : ℕ
  pending = bit_or (s.ext.extended x).events_pending evts

  abbrev marked : Os
  marked = with_extended x (λ r. record r { events_pending = pending }) s

  abbrev readied : Os
  readied = with_exe t (λ r. record r { state = ready }) marked

  readied-IsFifo : IsFifo readied base ids
  readied-IsFifo = record {
    head_lt = can.fifo.head_lt;
    tail_lt = can.fifo.tail_lt;
    holds = can.fifo.holds;
  }

  abbrev queued : Os
  queued = enqueued readied-IsFifo t

  enqueue-queued : (enqueue base t readied ≡ ok tt queued) × IsFifo queued base (ids ++ t ∷ [])
  enqueue-queued = elim (enqueue_lem readied-IsFifo t) [
    | inl (room, run, full) ↦ (run, full)
    | inr (small, run) ↦ impossible small
  ]
    where
      impossible :
          length ids + 1 ≡ (s.queue base).nslots
          → (enqueue base t readied ≡ ok tt queued) × IsFifo queued base (ids ++ t ∷ [])
      impossible h = ground (arith, can.room)

  queued-IsReleased : IsReleased s queued t x evts ids
  queued-IsReleased = record {
    ready_is = ground arith;
    queued = enqueue-queued.1;
    pending_is = ground arith;
    current_is = refl;
    other_tasks = λ j h. ground arith;
    other_entries = λ y h. ground arith;
    other_queues = λ r h. ground arith;
    others_hold = λ r js h apart it.
        let there : IsFifo readied r js = record {
          head_lt = it.head_lt;
          tail_lt = it.tail_lt;
          holds = it.holds;
        } in
        enqueue-frame readied-IsFifo t r js h apart there;
  }

  IsReleased-same : (u : Os) → SameTasks (on_kernel queued) u → IsReleased s u t x evts ids
  IsReleased-same u same =
      let has = queued-IsReleased in
      record {
        ready_is = rw same.exe_is has.ready_is;
        queued = record {
          head_lt = rw same.queue_is has.queued.head_lt;
          tail_lt = rw same.queue_is has.queued.tail_lt;
          holds = rw (same.queue_is, same.slots_is) has.queued.holds;
        };
        pending_is = rw same.extended_is has.pending_is;
        current_is = same.current_is;
        other_tasks = λ j h. rw same.exe_is (has.other_tasks j h);
        other_entries = λ y h. rw same.extended_is (has.other_entries y h);
        other_queues = λ r h. rw same.queue_is (has.other_queues r h);
        others_hold = λ r js h apart it.
            let here = has.others_hold r js h apart it in
            record {
              head_lt = rw same.queue_is here.head_lt;
              tail_lt = rw same.queue_is here.tail_lt;
              holds = rw (same.queue_is, same.slots_is) here.holds;
            };
      }

  release_run :
      (runqueued : (high low : ℕ) → Cmd Os (Unit {0})) (u : Os)
      → runqueued base (s.exe s.currentexe).currprio queued ≡ ok tt u
      → release runqueued t marked ≡ ok tt u
  unfolding release
  release_run runqueued u run = rw (enqueue-queued.0, run) refl

  is_suspended-waiting : (w : TaskState) → is_waiting w ≡ true → is_suspended w ≡ false
  is_suspended-waiting waiting h = refl
  is_suspended-waiting suspended h = cc
  is_suspended-waiting ready h = refl
  is_suspended-waiting running h = refl

  setevent_run :
      (runqueued : (high low : ℕ) → Cmd Os (Unit {0})) (u : Os)
      → release runqueued t marked ≡ ok tt u
      → setevent runqueued t evts s ≡ ok e_ok u
  unfolding setevent set_extended
  setevent_run runqueued u run =
      rw
        (
          can.is_task,
          can.is_extended,
          is_suspended-waiting ((s.exe t).state) can.waits,
          can.waits,
          can.hit,
          run,
        )
        refl

  -- If an extended task waits for one of the given events, or for one that is pending, its queue
  -- has room, its base priority is not above the priority of the running executable, and a request
  -- to the scheduler is possible, then with any fuel for the scheduler but 0 setting the events
  -- answers no error: the task is ready and the last in its queue, the events are pending for it,
  -- the running executable goes on, no other task or entry changes, and the other queues keep their
  -- indexes, and what they hold if their slots are apart from those of the task's queue.
  pub setevent-release :
      (code : ℕ → Program) (sz : Sizes) (expiry : (f a d : ℕ) → Cmd Os ℕ) (ticks fuel : ℕ)
      → CanRequest s
      → base ≤ (s.exe s.currentexe).currprio
      → 0 < fuel
      → (u : Os) × (setevent
            (runqueued_onkernelstack (runqueued code sz expiry ticks fuel))
            t
            evts
            s
          ≡ ok e_ok u)
        × IsReleased s u t x evts ids
  setevent-release code sz expiry ticks fuel can_request below enough =
      let caller = (s.exe s.currentexe).currprio in
      let scheduler = runqueued code sz expiry ticks fuel in
      let (u, run, same) =
        request_lem scheduler base caller queued (on_kernel queued) can_request
          (runqueued-none code sz expiry ticks fuel base caller (on_kernel queued) below enough) in
      (
        u,
        setevent_run (runqueued_onkernelstack scheduler) u
            (release_run (runqueued_onkernelstack scheduler) u run),
        IsReleased-same u same,
      )
