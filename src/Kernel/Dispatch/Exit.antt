-- ===== src/Kernel/Dispatch/Exit.antt =====
-- An exit call from its entry to the return to the next thread.
use davros.Base.{ℕ, ◌≡◌, ◌≢◌, ◌∙◌, some, none, List, [], ◌∷◌, arith, bit_and}
use davros.Run.{ok}
use davros.Dll.{Ptr}
use davros.Dll.Ring.{IsRing}
use davros.Kernel.State.{
  Config, Kernel, thread_idle, thread_running, flag_autodestroy, thread_queue, thread_link,
}
use davros.Kernel.State.Steps.{current-ok, executable_of-ok}
use davros.Kernel.Thread.{terminate_executable_in_thread}
use davros.Kernel.Thread.Queueing.{ThreadQueue}
use davros.Kernel.Thread.Ending.{terminate_lem}
use davros.Kernel.Services.{sys_exit}
use davros.Kernel.Dispatch.{call_service, syscall}
use davros.Kernel.Dispatch.Entry.{dispatch_lem}
use davros.Kernel.Dispatch.Preemption.{syscall-enters}

module _ (cfg : Config) (k : Kernel) (c e : ℕ) (running : k.current_thread ≡ some c)
    (runs : (k.thr c).executable ≡ some e) where
  exit_served :
      (k₁ : Kernel)
      → terminate_executable_in_thread cfg c k ≡ ok tt k₁
      → bit_and (k₁.exe e).flags flag_autodestroy ≡ 0
      → call_service cfg 1 k ≡ ok tt k₁
  unfolding call_service sys_exit
  exit_served k₁ ended keeps =
      rw (current-ok k c running, executable_of-ok k c e runs, ended, keeps)

  -- If the current thread c is the first of an ordered thread queue and u is the next, both have an
  -- executable and are named by their links, and the executable of c has no semaphore and is not to
  -- be destroyed at its end, and c has no job queue, then the exit system call returns to u: u is
  -- the current thread and is running, c is idle and out of the queue, and the queue holds u and
  -- the others in their order.
  pub syscall-exit :
      (u f : ℕ) (ys : List Ptr)
      → (k.heap (thread_link c)).payload ≡ some c
      → (k.heap (thread_link u)).payload ≡ some u
      → (k.thr u).executable ≡ some f
      → (k.exe e).semtaken ≡ none
      → (k.thr c).jobqueue ≡ none
      → bit_and (k.exe e).flags flag_autodestroy ≡ 0
      → ThreadQueue k (thread_link c ∷ (thread_link u ∷ ys))
      → (k' : Kernel) × (syscall cfg 1 k ≡ ok u k')
        × (k'.current_thread ≡ some u)
        × ((k'.thr u).state ≡ thread_running)
        × ((k'.thr c).state ≡ thread_idle)
        × IsRing k'.heap thread_queue (thread_link u ∷ ys)
  syscall-exit u f ys names_c names_u next free no_jobs keeps q =
      let other : c ≢ u = ground (arith, q.ring.distinct) in
      let (k₁, ended, thr_at, exe_is, queue, same, current_is) =
        terminate_lem cfg k c e runs free [] (thread_link u ∷ ys) q no_jobs in
      let keeps₁ : bit_and (k₁.exe e).flags flag_autodestroy ≡ 0 =
        rw exe_is (ground (arith, keeps)) in
      let (k', run, now, state_at, _, ring) =
        dispatch_lem k₁ u f ys queue.ring (ground (arith, same (thread_link u), names_u))
          (ground (arith, thr_at u, next)) in
      (
        k',
        syscall-enters cfg k c (thread_link u) ys 1 k₁ k' u q.ring names_c running
            (exit_served k₁ ended keeps₁) run,
        now,
        state_at u ∙ rw current_is (ground arith),
        state_at c ∙ rw current_is (ground (arith, thr_at c)),
        ring,
      )
