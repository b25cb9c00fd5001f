-- ===== src/Examples/Spawns.antt =====
-- Executables are spawned and end by a call, in the sample kernel.
use davros.Base.{◌≡◌, refl, inl, some, List, [], ◌∷◌, ◌++◌, arith, if◌then◌else◌}
use davros.Run.{ok}
use davros.Dll.{Ptr}
use davros.Dll.Ring.{IsRing}
use davros.Kernel.State.{
  Kernel, thread_idle, thread_running, index_out_of_range, out_of_range, thread_queue, thread_link,
}
use davros.Kernel.Services.{sys_spawn}
use davros.Kernel.Services.Spawn.{answered, spawn_refusal, sys_spawn-refused}
use davros.Kernel.Dispatch.Exit.{syscall-exit}
use davros.Kernel.Dispatch.Preemption.{next_thread, syscall-spawn}
use davros.Kernel.Dispatch.{syscall}
use davros.Examples.System.{cfg}
use davros.Examples.Sample.{sample, asking, workless, sample_heap-IsPriorityQueue}

syscall-exit_example :
    (k' : Kernel) × (syscall cfg 1 workless ≡ ok 0 k')
    × (k'.current_thread ≡ some 0)
    × ((k'.thr 0).state ≡ thread_running)
    × ((k'.thr 1).state ≡ thread_idle)
    × IsRing k'.heap thread_queue (thread_link 0 ∷ [])
syscall-exit_example =
    syscall-exit cfg workless 1 1 refl refl 0 0 [] refl refl refl refl refl refl
      sample_heap-IsPriorityQueue

syscall-spawn_example :
    (k' : Kernel) × (before : List Ptr) × (after : List Ptr) × (syscall cfg 5 sample
      ≡ ok (next_thread sample 1 3 (sample.exe 3).baseprio) k')
    × (k'.current_thread ≡ some (next_thread sample 1 3 (sample.exe 3).baseprio))
    × (before ++ after ≡ thread_link 1 ∷ (4 ∷ []))
    × IsRing k'.heap thread_queue (before ++ thread_link 3 ∷ after)
syscall-spawn_example =
    syscall-spawn cfg sample 1 4 [] 1 1 3 3 3 refl refl refl refl refl (omega arith) (omega arith)
      refl refl refl refl refl refl refl sample_heap-IsPriorityQueue refl (omega arith)
      (omega arith)

sys_spawn-refused_example :
    sys_spawn cfg asking
    ≡ ok tt (
        answered asking 1 (
          if out_of_range (asking.reg 1).gpr0 cfg.n_executables
          then index_out_of_range
          else spawn_refusal (asking.exe (asking.reg 1).gpr0).state))
sys_spawn-refused_example = sys_spawn-refused cfg asking 1 1 refl refl (inl (ground arith))
