-- ===== src/Kernel/Dispatch/Preemption.antt =====
-- A spawn call from its entry to the return to a thread: who runs next.
use davros.Base.{
  ℕ, ◌+◌, ◌≤◌, ◌<◌, ◌≡◌, ◌≢◌, ◌∙◌, refl, true, false, Bool, none, some, List, [], ◌∷◌, ◌++◌, arith,
  has, length, ltb, same_ref, if◌then◌else◌,
}
use mathlib.Core.Path.{subst, sym}
use davros.Dll.Walk.{All}
use davros.Run.{ok}
use davros.Dll.{Ptr, dll_min_i32_key}
use davros.Dll.Ring.{IsRing}
use davros.Dll.Queue.{dllisempty-eq_true}
use davros.Kernel.State.{
  Config, Kernel, exe_idle, thread_idle, i32_zero, thread_queue, thread_link, walk_fuel,
}
use davros.Kernel.Thread.Queueing.{ThreadQueue, HasQueued}
use davros.Kernel.Services.{sys_spawn}
use davros.Kernel.Services.Spawn.{activated, sys_spawn-HasQueued}
use davros.Kernel.Dispatch.{dispatch, call_service, syscall}
use davros.Kernel.Dispatch.Entry.{threadqueuehead-ok, dispatch_lem}

-- The thread that runs after thread `c` has made `t` ready with a base priority of `p`.
abbrev pub next_thread : Kernel → (c t p : ℕ) → ℕ
next_thread k c t p = if ltb (k.heap (thread_link c)).i32_key p then t else c

module _ (cfg : Config) (k : Kernel) (c y : ℕ) (ys : List Ptr) where
  -- The entry lets the first of two or more threads through to the service that it calls.
  pub syscall-enters :
      (sc : ℕ) (k₁ k' : Kernel) (t : ℕ)
      → IsRing k.heap thread_queue (thread_link c ∷ (y ∷ ys))
      → (k.heap (thread_link c)).payload ≡ some c
      → k.current_thread ≡ some c
      → call_service cfg sc k ≡ ok tt k₁
      → dispatch k₁ ≡ ok t k'
      → syscall cfg sc k ≡ ok t k'
  unfolding syscall
  syscall-enters sc k₁ k' t r names running served dispatched =
      let (e, run, iff) = dllisempty-eq_true (thread_link c ∷ (y ∷ ys)) r in
      let more : e ≡ false = not_empty e iff.0 in
      let mine : same_ref k.current_thread (some c) ≡ true = ground (arith, running) in
      rw (
        run,
        more,
        threadqueuehead-ok k (thread_link c ∷ (y ∷ ys)) r,
        names,
        mine,
        served,
        dispatched,
      )
    where
      not_empty : (e : Bool) → (e ≡ true → length (thread_link c ∷ (y ∷ ys)) ≤ 1) → e ≡ false
      not_empty true f = absurd (ground (arith, f refl))
      not_empty false f = refl

  -- The dispatch after thread `t` has been queued while `c` was the first.
  dispatch_queued :
      (k' : Kernel) (t exe e : ℕ) (before after : List Ptr)
      → before ++ after ≡ thread_link c ∷ (y ∷ ys)
      → HasQueued (activated k exe) k' t exe before after
      → t ≢ c
      → (k.heap (thread_link c)).payload ≡ some c
      → (k.heap (thread_link t)).payload ≡ some t
      → (k.thr c).executable ≡ some e
      → (k'' : Kernel) × (dispatch k' ≡ ok (next_thread k c t (k.exe exe).baseprio) k'')
        × (k''.current_thread ≡ some (next_thread k c t (k.exe exe).baseprio))
        × IsRing k''.heap thread_queue (before ++ thread_link t ∷ after)
  dispatch_queued k' t exe e [] after split done other names_c names_t runs =
      let prio : ((activated k exe).exe exe).baseprio ≡ (k.exe exe).baseprio = ground arith in
      let low : ltb (k.heap (thread_link c)).i32_key (k.exe exe).baseprio ≡ true =
        first_below after split done.below in
      let (k'', run, current_is, _, _, ring) =
        dispatch_lem k' t exe after done.queue.ring (done.payload_at (thread_link t) ∙ names_t)
          (ground (arith, done.thr_at t)) in
      (k'', rw low run, rw low current_is, ring)
    where
      first_below :
          (zs : List Ptr)
          → zs ≡ thread_link c ∷ (y ∷ ys)
          → All (λ z. (k'.heap z).i32_key < ((activated k exe).exe exe).baseprio) zs
          → ltb (k.heap (thread_link c)).i32_key (k.exe exe).baseprio ≡ true
      first_below [] s b = cc
      first_below (z ∷ zs) s b =
          let same : z ≡ thread_link c = cc in ground (arith, b.0, done.key_at z)
  dispatch_queued k' t exe e (x ∷ xs) after split done other names_c names_t runs =
      let same : x ≡ thread_link c = cc in
      let high : ltb (k.heap (thread_link c)).i32_key (k.exe exe).baseprio ≡ false =
        ground (arith, done.above.0, done.key_at x) in
      let ring : IsRing k'.heap thread_queue (thread_link c ∷ (xs ++ thread_link t ∷ after)) =
        subst (λ z. IsRing k'.heap thread_queue (z ∷ (xs ++ thread_link t ∷ after))) same
          done.queue.ring in
      let (k'', run, current_is, _, _, ring') =
        dispatch_lem k' c e (xs ++ thread_link t ∷ after) ring
          (done.payload_at (thread_link c) ∙ names_c) (ground (arith, done.thr_at c)) in
      (
        k'',
        rw high run,
        rw high current_is,
        subst (λ z. IsRing k''.heap thread_queue (z ∷ (xs ++ thread_link t ∷ after))) (sym same)
            ring',
      )

  spawn_served : (k₁ : Kernel) → sys_spawn cfg k ≡ ok tt k₁ → call_service cfg 5 k ≡ ok tt k₁
  unfolding call_service
  spawn_served k₁ e = e

  -- If the current thread c is the first of two or more threads in an ordered thread queue, which
  -- is shorter than the fuel of a walk, the links of c and t name them, and the executable of c
  -- calls spawn for an idle executable in the table, with no event status, no list element,
  -- registers and a base priority above the least, whose thread t is idle and not queued, then the
  -- system call returns: to t if the base priority is higher than the priority of c, else to c,
  -- which is then the current thread, and the queue holds t and all the threads of before in their
  -- order.
  pub syscall-spawn :
      (r e exe t re : ℕ)
      → k.current_thread ≡ some c
      → (k.thr c).regs ≡ some r
      → (k.thr c).executable ≡ some e
      → (k.heap (thread_link c)).payload ≡ some c
      → (k.reg r).gpr0 ≡ exe
      → exe < cfg.n_executables
      → exe < i32_zero
      → (k.exe exe).state ≡ exe_idle
      → (k.exe exe).events ≡ none
      → (k.exe exe).dll_element ≡ none
      → (k.exe exe).thread ≡ some t
      → (k.exe exe).registers ≡ some re
      → (k.thr t).state ≡ thread_idle
      → (k.heap (thread_link t)).payload ≡ some t
      → ThreadQueue k (thread_link c ∷ (y ∷ ys))
      → has (thread_link t) (thread_link c ∷ (y ∷ ys)) ≡ false
      → dll_min_i32_key < (k.exe exe).baseprio
      → length (y ∷ ys) + 1 < walk_fuel cfg
      → (k' : Kernel) × (before : List Ptr) × (after : List Ptr) × (syscall cfg 5 k
          ≡ ok (next_thread k c t (k.exe exe).baseprio) k')
        × (k'.current_thread ≡ some (next_thread k c t (k.exe exe).baseprio))
        × (before ++ after ≡ thread_link c ∷ (y ∷ ys))
        × IsRing k'.heap thread_queue (before ++ thread_link t ∷ after)
  syscall-spawn r e exe t re running stored runs names number fits small idle_exe no_events
        no_element on_thread registers idle names_t q out more enough =
      let other : t ≢ c = ground arith in
      let (k₁, before, after, spawned, split, done, _, _, _) =
        sys_spawn-HasQueued cfg k c r running stored exe t re (thread_link c ∷ (y ∷ ys)) number fits
          small idle_exe no_events no_element on_thread registers idle other q out more
          (ground (arith, enough)) in
      let (k', run, current_is, ring) =
        dispatch_queued k₁ t exe e before after split done other names names_t runs in
      (
        k',
        before,
        after,
        syscall-enters 5 k₁ k' (next_thread k c t (k.exe exe).baseprio) q.ring names running
            (spawn_served k₁ spawned) run,
        current_is,
        split,
        ring,
      )
