-- ===== src/Examples/Calls.antt =====
-- Entry to the kernel and exit from it, in the sample kernel.
use davros.Base.{◌≡◌, [], ◌∷◌, arith}
use davros.Run.{panic, thread_queue_empty}
use davros.Kernel.Dispatch.{syscall}
use davros.Kernel.Dispatch.Entry.{syscall-thread_queue_empty}
use davros.Examples.System.{cfg}
use davros.Examples.Sample.{short, short_heap-IsRing}

syscall-thread_queue_empty_example : syscall cfg 2 short ≡ panic thread_queue_empty
syscall-thread_queue_empty_example =
    syscall-thread_queue_empty short cfg 2 (4 ∷ []) short_heap-IsRing (omega arith)
