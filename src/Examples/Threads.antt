-- ===== src/Examples/Threads.antt =====
-- Executables enter and leave threads, in the sample kernel.
use davros.Base.{◌≡◌, refl, none, some, List, [], ◌∷◌, ◌++◌, arith}
use davros.Run.{ok}
use davros.Dll.{Ptr}
use davros.Kernel.State.{Kernel, thread_ready, exe_idle, thread_link}
use davros.Kernel.Thread.{spawn_executable_in_thread, terminate_executable_in_thread}
use davros.Kernel.Thread.Queueing.{ThreadQueue, HasQueued, spawn_executable_in_thread-HasQueued}
use davros.Kernel.Thread.Leaving.{JobQueue}
use davros.Kernel.Thread.Ending.{terminate_next_job}
use davros.Examples.System.{cfg}
use davros.Examples.Sample.{sample, sample_heap-IsPriorityQueue, sample_queue-IsQueue}

spawn_executable_in_thread-HasQueued_example :
    (k' : Kernel) × (before : List Ptr) × (after : List Ptr) × (spawn_executable_in_thread cfg 3 3
        sample
      ≡ ok tt k')
    × (before ++ after ≡ 8 ∷ (4 ∷ []))
    × HasQueued sample k' 3 3 before after
    × ((k'.reg 3).pc ≡ (sample.exe 3).function)
    × ((k'.reg 3).sp ≡ (sample.exe 3).initial_sp)
    × ((k'.reg 3).lr ≡ cfg.exit_address)
    × (k'.rbs ≡ sample.rbs)
    × (k'.bytes ≡ sample.bytes)
spawn_executable_in_thread-HasQueued_example =
    spawn_executable_in_thread-HasQueued cfg sample 3 3 3 (8 ∷ (4 ∷ [])) sample_heap-IsPriorityQueue
      refl (omega arith) (omega arith) refl

terminate_next_job_example :
    (k' : Kernel) × (before : List Ptr) × (after : List Ptr) × (terminate_executable_in_thread cfg 1
        sample
      ≡ ok tt k')
    × (before ++ after ≡ [] ++ 4 ∷ [])
    × ThreadQueue k' (before ++ thread_link 1 ∷ after)
    × ((k'.heap (thread_link 1)).i32_key ≡ (sample.exe 2).baseprio)
    × ((k'.thr 1).executable ≡ some 2)
    × ((k'.thr 1).state ≡ thread_ready)
    × ((k'.reg 2).pc ≡ (sample.exe 2).function)
    × ((k'.exe 1).state ≡ exe_idle)
    × JobQueue k' 0 0 []
    × (k'.current_thread ≡ none)
terminate_next_job_example =
    terminate_next_job cfg sample 1 1 refl refl [] (4 ∷ []) sample_heap-IsPriorityQueue 0 0 2 2 []
      refl sample_queue-IsQueue (omega arith) (omega arith) (omega arith) (omega arith) refl
