-- ===== src/Davroska/Queue/Fifo.antt =====
-- A priority queue of davroska is a bounded first-in first-out queue of executables.
use davros.Base.{
  ℕ, ◌+◌, ◌≤◌, ◌<◌, ◌≡◌, ◌≢◌, ◌⊎◌, inl, inr, refl, Option, some, none, true, false, List, [], ◌∷◌,
  ◌++◌, arith, ◌==◌, ◌∙◌, length, Bool-cases, update,
}
use mathlib.Core.List.{head?, tail}
use davros.Run.{ok, panic, davroska, queue_overflow}
use davros.Davroska.State.{Os}
use davros.Davroska.Queue.{advance, enqueue, qhead, dequeue}

-- The slots from index `i` up to the tail are `q`.
abbrev pub Holds : (base n last : ℕ) → (ℕ → Option ℕ) → (i : ℕ) → List ℕ → Type 0
Holds base n last m i [] = i ≡ last
Holds base n last m i (e ∷ q) =
    (i ≢ last) × (m (base + i) ≡ some e) × Holds base n last m (advance i n) q

-- Queue `p` is set up and holds `ids`, the oldest first.
pub record IsFifo (s : Os) (p : ℕ) (ids : List ℕ) : Type 0 where
  pub head_lt : (s.queue p).head < (s.queue p).nslots
  pub tail_lt : (s.queue p).tail < (s.queue p).nslots
  pub holds :
      Holds (s.queue p).slots (s.queue p).nslots (s.queue p).tail s.slots (s.queue p).head ids

-- The slots of two queues have no place in common.
abbrev pub Apart : Os → (p r : ℕ) → Type 0
Apart s p r =
    ((s.queue p).slots + (s.queue p).nslots ≤ (s.queue r).slots)
    ⊎ ((s.queue r).slots + (s.queue r).nslots ≤ (s.queue p).slots)

pub advance-lt : (i n : ℕ) → i < n → advance i n < n
unfolding advance
advance-lt i n h = ground arith

Holds-distance :
    (base n last : ℕ) (m : ℕ → Option ℕ) (i : ℕ) (q : List ℕ)
    → i < n
    → last < n
    → Holds base n last m i q
    → (i + length q ≡ last) ⊎ ((i + length q ≡ last + n) × (last < i))
unfolding advance
Holds-distance base n last m i [] a b h = inl (omega arith)
Holds-distance base n last m i (e ∷ q) a b h =
    ground (
      arith,
      advance-lt i n a,
      Holds-distance base n last m (advance i n) q (advance-lt i n a) b h.2,
    )

-- What a queue holds depends on its own slots only.
Holds-frame :
    (base n last : ℕ) (m m' : ℕ → Option ℕ) (i : ℕ) (q : List ℕ)
    → i < n
    → ((j : ℕ) → j < n → m' (base + j) ≡ m (base + j))
    → Holds base n last m i q
    → Holds base n last m' i q
Holds-frame base n last m m' i [] a f h = h
Holds-frame base n last m m' i (e ∷ q) a f h =
    (h.0, f i a ∙ h.1, Holds-frame base n last m m' (advance i n) q (advance-lt i n a) f h.2)

module _ (base n last e : ℕ) (m : ℕ → Option ℕ) (b : last < n) where
  Holds-append :
      (i : ℕ) (q : List ℕ)
      → i < n
      → length q + 1 < n
      → Holds base n last m i q
      → Holds base n (advance last n) (update m (base + last) (some e)) i (q ++ e ∷ [])
  unfolding advance
  Holds-append i [] a room h = (ground arith, ground arith, ground arith)
  Holds-append i (x ∷ q) a room h = (
    ground (arith, Holds-distance base n last m i (x ∷ q) a b h),
    ground (arith, h.0, h.1),
    Holds-append (advance i n) q (advance-lt i n a) (omega arith) h.2,
  )

-- Clearing the slot in front of `i` leaves what the queue holds from `i` on.
Holds-clear :
    (base n last : ℕ) (m : ℕ → Option ℕ) (k i : ℕ) (q : List ℕ)
    → i < n
    → last < n
    → k < n
    → ((i + length q ≤ k) ⊎ ((k < i) × (i + length q ≤ k + n)))
    → Holds base n last m i q
    → Holds base n last (update m (base + k) none) i q
unfolding advance
Holds-clear base n last m k i [] a b c w h = h
Holds-clear base n last m k i (e ∷ q) a b c w h = (
  h.0,
  ground (arith, h.1),
  Holds-clear base n last m k (advance i n) q (advance-lt i n a) b c (ground arith) h.2,
)

module _ {s : Os} {p : ℕ} {ids : List ℕ} (is : IsFifo s p ids) where
  distance :
      ((s.queue p).head + length ids ≡ (s.queue p).tail)
      ⊎ (((s.queue p).head + length ids ≡ (s.queue p).tail + (s.queue p).nslots)
          × ((s.queue p).tail < (s.queue p).head))
  distance =
      Holds-distance (s.queue p).slots (s.queue p).nslots (s.queue p).tail s.slots (s.queue p).head
        ids is.head_lt is.tail_lt is.holds

  pub length-lt : length ids < (s.queue p).nslots
  length-lt = ground (arith, distance, is.head_lt, is.tail_lt)

  next_full :
      (advance (s.queue p).tail (s.queue p).nslots ≡ (s.queue p).head)
      → length ids + 1 ≡ (s.queue p).nslots
  unfolding advance
  next_full e = ground (arith, distance, is.head_lt, is.tail_lt)

  full_next :
      length ids + 1 ≡ (s.queue p).nslots
      → advance (s.queue p).tail (s.queue p).nslots ≡ (s.queue p).head
  unfolding advance
  full_next e = ground (arith, distance, is.head_lt, is.tail_lt)

  -- The state after `e` has been stored at the tail.
  abbrev pub enqueued : ℕ → Os
  enqueued e = record s {
    slots = update s.slots ((s.queue p).slots + (s.queue p).tail) (some e);
    queue =
        update s.queue p
          (record (s.queue p) { tail = advance (s.queue p).tail (s.queue p).nslots });
  }

  -- If a priority queue holds a list of executables, enqueueing one either appends it to the list,
  -- if the list is at least two shorter than the slots, or panics with an overflow if it is only
  -- one shorter.
  pub enqueue_lem :
      (e : ℕ)
      → ((length ids + 1 < (s.queue p).nslots)
          × (enqueue p e s ≡ ok tt (enqueued e))
          × IsFifo (enqueued e) p (ids ++ e ∷ []))
        ⊎ ((length ids + 1 ≡ (s.queue p).nslots)
            × (enqueue p e s ≡ panic (davroska queue_overflow)))
  unfolding enqueue
  enqueue_lem e =
      elim (Bool-cases (advance (s.queue p).tail (s.queue p).nslots == (s.queue p).head)) [
        | inl full ↦ inr (next_full (ground arith), rw full refl)
        | inr room ↦
            let roomy : length ids + 1 < (s.queue p).nslots =
              ground (arith, length-lt, full_next) in
            let self : (enqueued e).queue p
                ≡ record (s.queue p) { tail = advance (s.queue p).tail (s.queue p).nslots } =
              ground arith in
            inl (
              roomy,
              rw room refl,
              record {
                head_lt = rw self is.head_lt;
                tail_lt = rw self (advance-lt (s.queue p).tail (s.queue p).nslots is.tail_lt);
                holds = rw self (
                    Holds-append (s.queue p).slots (s.queue p).nslots (s.queue p).tail e s.slots
                      is.tail_lt (s.queue p).head ids is.head_lt roomy is.holds);
              },
            )
      ]

  -- Another queue, with slots of its own, holds what it held.
  pub enqueue-frame :
      (e r : ℕ) (js : List ℕ)
      → (p == r) ≡ false
      → Apart s p r
      → IsFifo s r js
      → IsFifo (enqueued e) r js
  enqueue-frame e r js other apart it =
      let same : (enqueued e).queue r ≡ s.queue r = ground arith in
      record {
        head_lt = rw same it.head_lt;
        tail_lt = rw same it.tail_lt;
        holds = rw same (
            Holds-frame (s.queue r).slots (s.queue r).nslots (s.queue r).tail s.slots
              (enqueued e).slots (s.queue r).head js it.head_lt
              (λ j l. ground (arith, apart, is.tail_lt)) it.holds);
      }

-- The state after the head of the queue has been taken out.
abbrev pub dequeued : Os → ℕ → Os
dequeued s p = record s {
  slots = update s.slots ((s.queue p).slots + (s.queue p).head) none;
  queue =
      update s.queue p (record (s.queue p) { head = advance (s.queue p).head (s.queue p).nslots });
}

pub qhead_lem : {s : Os} {p : ℕ} (ids : List ℕ) → IsFifo s p ids → qhead p s ≡ ok (head? ids) s
unfolding qhead
qhead_lem {s} {p} [] is =
    let e : ((s.queue p).head == (s.queue p).tail) ≡ true = ground (arith, is.holds) in rw e
qhead_lem {s} {p} (e ∷ ids) is =
    let d : ((s.queue p).head == (s.queue p).tail) ≡ false = ground (arith, is.holds) in
    rw (d, is.holds.1)

pub dequeue-first :
    {s : Os} {p : ℕ} (e : ℕ) (ids : List ℕ)
    → IsFifo s p (e ∷ ids)
    → (dequeue p s ≡ ok (some e) (dequeued s p)) × IsFifo (dequeued s p) p ids
unfolding dequeue advance
dequeue-first {s} {p} e ids is =
    let d : ((s.queue p).head == (s.queue p).tail) ≡ false = ground (arith, is.holds) in
    let self : (dequeued s p).queue p
        ≡ record (s.queue p) { head = advance (s.queue p).head (s.queue p).nslots } =
      ground arith in
    (
      rw (d, is.holds.1),
      record {
        head_lt = rw self (advance-lt (s.queue p).head (s.queue p).nslots is.head_lt);
        tail_lt = rw self is.tail_lt;
        holds = rw self (
            Holds-clear (s.queue p).slots (s.queue p).nslots (s.queue p).tail s.slots
              (s.queue p).head (advance (s.queue p).head (s.queue p).nslots) ids
              (advance-lt (s.queue p).head (s.queue p).nslots is.head_lt) is.tail_lt is.head_lt
              (after_head s p e ids is.head_lt (length-lt is)) is.holds.2);
      },
    )
  where
    after_head :
        (s : Os) (p e : ℕ) (js : List ℕ)
        → (s.queue p).head < (s.queue p).nslots
        → length (e ∷ js) < (s.queue p).nslots
        → (advance (s.queue p).head (s.queue p).nslots + length js ≤ (s.queue p).head)
          ⊎ (((s.queue p).head < advance (s.queue p).head (s.queue p).nslots)
              × (advance (s.queue p).head (s.queue p).nslots + length js
                  ≤ (s.queue p).head + (s.queue p).nslots))
    after_head s p e js a b = ground arith

-- What another queue holds does not depend on the head of this one.
pub dequeue-frame :
    {s : Os} {p : ℕ} {ids : List ℕ}
    → IsFifo s p ids
    → (r : ℕ) (js : List ℕ) → (p == r) ≡ false
    → Apart s p r
    → IsFifo s r js
    → IsFifo (dequeued s p) r js
dequeue-frame {s} {p} is r js other apart it =
    let same : (dequeued s p).queue r ≡ s.queue r = ground arith in
    record {
      head_lt = rw same it.head_lt;
      tail_lt = rw same it.tail_lt;
      holds = rw same (
          Holds-frame (s.queue r).slots (s.queue r).nslots (s.queue r).tail s.slots
            (dequeued s p).slots (s.queue r).head js it.head_lt
            (λ j l. ground (arith, apart, is.head_lt)) it.holds);
    }

-- The slots of every queue are where they were.
abbrev pub SamePlaces : (s t : Os) → Type 0
SamePlaces s t =
    (r : ℕ) → ((t.queue r).slots ≡ (s.queue r).slots) × ((t.queue r).nslots ≡ (s.queue r).nslots)

pub Apart-same : (s t : Os) (p r : ℕ) → SamePlaces s t → Apart s p r → Apart t p r
Apart-same s t p r places apart = ground (arith, places p, places r, apart)

-- If a priority queue holds a list of executables, dequeueing answers the oldest one, or none if
-- the list is empty, and the queue holds the others in their order.
pub dequeue_lem :
    {s : Os} {p : ℕ} (ids : List ℕ)
    → IsFifo s p ids
    → (t : Os) × (dequeue p s ≡ ok (head? ids) t) × IsFifo t p (tail ids)
unfolding dequeue
dequeue_lem {s} {p} [] is =
    let e : ((s.queue p).head == (s.queue p).tail) ≡ true = ground (arith, is.holds) in
    (s, rw e, is)
dequeue_lem {s} {p} (e ∷ ids) is =
    let (run, fifo) = dequeue-first e ids is in (dequeued s p, run, fifo)
