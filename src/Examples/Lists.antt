-- ===== src/Examples/Lists.antt =====
-- The rings and queues of list elements, at small inputs.
use davros.Base.{◌≤◌, ◌<◌, ◌≡◌, ◌↔◌, Bool, true, List, [], ◌∷◌, ◌++◌, arith}
use davros.Run.{ok}
use davros.Dll.{Ptr, Heap, dllinsertaftersame, dllinserttime}
use davros.Dll.Ring.{SameData}
use davros.Dll.Walk.{All}
use davros.Dll.Queue.{IsPriorityQueue, IsTimeQueue, dllinsertaftersame_lem, dllinserttime_lem}
use davros.Kernel.State.{thread_queue, sleep_queue}
use davros.Examples.Sample.{
  sample_heap, sample_heap-IsPriorityQueue, sample_heap-IsTimeQueue, sample_heap-CanInsert,
  sample_heap-CanInsert_time,
}

dllinsertaftersame_lem_example :
    (g : Heap) × (before : List Ptr) × (after : List Ptr) × (dllinsertaftersame 12 thread_queue 16
        sample_heap
      ≡ ok tt g)
    × (before ++ after ≡ 8 ∷ (4 ∷ []))
    × All (λ y. (sample_heap 16).i32_key ≤ (sample_heap y).i32_key) before
    × All (λ y. (sample_heap y).i32_key < (sample_heap 16).i32_key) after
    × IsPriorityQueue g thread_queue (before ++ 16 ∷ after)
    × SameData sample_heap g
dllinsertaftersame_lem_example =
    dllinsertaftersame_lem 12 thread_queue 16 sample_heap-IsPriorityQueue sample_heap-CanInsert
      (omega arith)

dllinserttime_lem_example :
    (g : Heap) × (before : List Ptr) × (after : List Ptr) × (first : Bool) × (dllinserttime 12
        sleep_queue 9 sample_heap
      ≡ ok first g)
    × (before ++ after ≡ 5 ∷ [])
    × All (λ y. (sample_heap y).u64_key ≤ (sample_heap 9).u64_key) before
    × All (λ y. (sample_heap 9).u64_key < (sample_heap y).u64_key) after
    × IsTimeQueue g sleep_queue (before ++ 9 ∷ after)
    × SameData sample_heap g
    × ((first ≡ true) ↔ (before ≡ []))
dllinserttime_lem_example =
    dllinserttime_lem 12 sleep_queue 9 sample_heap-IsTimeQueue sample_heap-CanInsert_time
      (omega arith)
