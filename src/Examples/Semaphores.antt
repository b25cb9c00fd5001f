-- ===== src/Examples/Semaphores.antt =====
-- Mutexes are taken and given back, in the sample kernel.
use davros.Base.{ℕ, ◌+◌, ◌≡◌, ◌≢◌, ◌⊎◌, refl, none, List, [], ◌∷◌, ◌++◌, arith, ◌==◌, if◌then◌else◌}
use davros.Run.{ok, panic, semaphore_occupied}
use davros.Dll.{Ptr}
use davros.Dll.Queue.{IsPriorityQueue}
use davros.Kernel.State.{Kernel, eid_none, i32_zero, thread_queue, thread_link}
use davros.Kernel.Semaphore.{wait_semimmceil, signal_semimmceil}
use davros.Kernel.Semaphore.Taking.{
  HasTaken, taken_sem, raised, lowered_count, wait_semimmceil-HasTaken, wait_semimmceil-taken,
}
use davros.Kernel.Semaphore.Release.{HasReleased, signal_semimmceil-HasReleased}
use davros.Kernel.Semaphore.Round.{wait-signal}
use davros.Examples.System.{cfg}
use davros.Examples.Sample.{sample, sample_heap-IsRing, sample_heap-IsPriorityQueue}

abbrev present_owner : ℕ
present_owner = 0

wait_semimmceil-HasTaken_example :
    (k' : Kernel) × (wait_semimmceil 0 sample ≡ ok eid_none k')
    × HasTaken sample k' 0 1
        (record (taken_sem sample 0 1 1) { count = i32_zero })
        (raised sample.heap 1 (sample.sem 0).ceiling)
wait_semimmceil-HasTaken_example =
    wait_semimmceil-HasTaken sample 0 1 1 refl refl (omega arith) refl

wait_semimmceil-taken_example :
    ((present_owner ≡ 1) × (wait_semimmceil 1 sample ≡ panic semaphore_occupied))
    ⊎ ((present_owner ≢ 1) × (wait_semimmceil 1 sample ≡ ok eid_none (lowered_count sample 1)))
wait_semimmceil-taken_example =
    wait_semimmceil-taken sample 1 1 1 refl refl present_owner (omega arith) (omega arith)
      (omega arith) refl

signal_semimmceil-HasReleased_example :
    (k' : Kernel) × (before : List Ptr) × (after : List Ptr) × (signal_semimmceil cfg 2 sample
      ≡ ok eid_none k')
    × (before ++ after ≡ 4 ∷ [])
    × HasReleased sample k' 2 1 1
        (record (sample.sem 2) { owner = none; link = none; count = i32_zero + 1 })
        before
        after
signal_semimmceil-HasReleased_example =
    signal_semimmceil-HasReleased cfg sample 2 1 1 refl refl (4 ∷ []) refl refl sample_heap-IsRing
      (tt, tt) refl (omega arith) (omega arith)

wait-signal_example :
    (k₁ : Kernel) × (k' : Kernel) × (wait_semimmceil 0 sample ≡ ok eid_none k₁)
    × (signal_semimmceil cfg 0 k₁ ≡ ok eid_none k')
    × IsPriorityQueue k'.heap thread_queue (thread_link 1 ∷ (4 ∷ []))
    × ((a : Ptr) → (k'.heap a).i32_key ≡ (sample.heap a).i32_key)
    × ((a : ℕ) → k'.exe a ≡ sample.exe a)
    × ((j : ℕ)
        → k'.sem j ≡ (
            if 0 == j
            then record (sample.sem 0) { oldprio = (sample.heap (thread_link 1)).i32_key }
            else sample.sem j))
wait-signal_example =
    wait-signal cfg sample 0 1 1 (4 ∷ []) refl refl (omega arith) refl refl refl
      sample_heap-IsPriorityQueue (omega arith) (omega arith)
