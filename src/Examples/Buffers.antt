-- ===== src/Examples/Buffers.antt =====
-- The ring buffers and the allocator, at small inputs.
use davros.Base.{ℕ, ◌+◌, ◌%◌, ◌<◌, ◌≡◌, ◌⊎◌, Bool, true, [], ◌∷◌, ◌++◌, length}
use davros.Run.{ok}
use mathlib.Core.List.{head?, tail}
use davros.RingBuffer.{RbState, rb_append_simple, rb_remove_simple}
use davros.RingBuffer.Bytes.{width_limit}
use davros.RingBuffer.Queue.{IsQueue, rb_append_simple_lem, rb_remove_simple_lem}
use davros.Examples.Sample.{sample_jobs, sample_queue, sample_queue-IsQueue}

abbrev all_free : ℕ → Bool
all_free _ = true

rb_append_simple_lem_example :
    ((length sample_jobs + 1 < sample_queue.rb.length)
      × ((t : RbState) × (rb_append_simple 9 sample_queue ≡ ok 1 t)
          × IsQueue t 0 (sample_jobs ++ (9 % width_limit sample_queue.rb.size) ∷ [])
          × (t.rb.length ≡ sample_queue.rb.length)))
    ⊎ ((length sample_jobs + 1 ≡ sample_queue.rb.length)
        × (rb_append_simple 9 sample_queue ≡ ok 0 sample_queue))
rb_append_simple_lem_example = rb_append_simple_lem sample_queue-IsQueue 9

rb_remove_simple_lem_example :
    (t : RbState) × (rb_remove_simple sample_queue ≡ ok (head? sample_jobs) t)
    × IsQueue t 0 (tail sample_jobs)
    × (t.bytes ≡ sample_queue.bytes)
    × (t.rb.length ≡ sample_queue.rb.length)
rb_remove_simple_lem_example = rb_remove_simple_lem sample_jobs sample_queue-IsQueue
