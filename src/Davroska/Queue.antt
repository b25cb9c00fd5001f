-- ===== src/Davroska/Queue.antt =====
-- The priority queues of davroska/h/davroska-inline.h: a ring buffer of slots for each priority.
pub mod Fifo
use davros.Base.{ℕ, ◌+◌, Option, none, some, leb, ◌==◌, if◌then◌else◌, update}
use davros.Run.{Cmd, queue_overflow, pure, get, modify, skip, ◌>>=◌, ◌>>◌}
use davros.Davroska.State.{Os, PrioQueue, with_queue, os_panic}

-- `i++; if ( i >= nslots ) i = 0;`
unfoldable pub advance : (i nslots : ℕ) → ℕ
advance i n = if leb n (i + 1) then 0 else i + 1

unfoldable pub enqueue : (p e : ℕ) → Cmd Os (Unit {0})
enqueue p e = do
  s ← get
  let q = s.queue p
  modify (λ t. record t { slots = update t.slots (q.slots + q.tail) (some e) })
  modify (with_queue p (λ r. record r { tail = advance q.tail q.nslots }))
  if advance q.tail q.nslots == q.head then os_panic queue_overflow else skip

-- The head of the queue stays in it; -1 is `none`.
unfoldable pub qhead : (p : ℕ) → Cmd Os (Option ℕ)
qhead p = do
  s ← get
  let q = s.queue p
  if q.head == q.tail then pure none else pure (s.slots (q.slots + q.head))

unfoldable pub dequeue : (p : ℕ) → Cmd Os (Option ℕ)
dequeue p = do
  s ← get
  let q = s.queue p
  if q.head == q.tail then pure none else do
    modify (λ t. record t { slots = update t.slots (q.slots + q.head) none })
    modify (with_queue p (λ r. record r { head = advance q.head q.nslots }))
    pure (s.slots (q.slots + q.head))
