-- ===== src/Kernel/Thread/Ending.antt =====
-- The end of an executable in its thread: `dv_terminate_executable_in_thread`.
use mathlib.Core.Path.{◌∙◌}
use davros.Base.{
  ℕ, ◌<◌, ◌≡◌, false, none, some, List, [], ◌∷◌, ◌++◌, arith, update, if◌then◌else◌, ◌==◌, has,
  length,
}
use davros.Run.{ok}
use davros.Dll.{Ptr, Heap, dll_min_i32_key, dllremove}
use davros.Dll.Ring.{SameData, has-append}
use davros.Dll.Walk.{All, Sorted}
use davros.Dll.Queue.{ByPriority, IsPriorityQueue, SameData-ByPriority}
use davros.Dll.Remove.{dllremove-IsRing, elem_facts}
use davros.Kernel.State.{
  Config, Kernel, thread_idle, thread_ready, exe_idle, i32_zero, thread_queue, thread_link,
  walk_fuel,
}
use davros.Kernel.State.Steps.{executable_of-ok}
use davros.Kernel.Thread.{start_next_job, terminate_executable_in_thread}
use davros.Kernel.Thread.Queueing.{ThreadQueue}
use davros.Kernel.Thread.Leaving.{
  JobQueue, remove_run, start_next_job-none, start_next_job-HasQueued,
}

Sorted-delete :
    (R : Ptr → Ptr → Type 0) (xs : List Ptr) (a : Ptr) (ys : List Ptr)
    → Sorted R (xs ++ a ∷ ys)
    → Sorted R (xs ++ ys)
Sorted-delete R [] a ys s = s.1
Sorted-delete R (x ∷ xs) a ys s = (All-delete xs s.0, Sorted-delete R xs a ys s.1)
  where
    All-delete : (zs : List Ptr) → All (R x) (zs ++ a ∷ ys) → All (R x) (zs ++ ys)
    All-delete [] h = h.1
    All-delete (z ∷ zs) h = (h.0, All-delete zs h.1)

-- Taking an element out of a priority queue leaves a priority queue with the same data.
pub dllremove-IsPriorityQueue :
    (h : Heap) (head elem : Ptr) (xs ys : List Ptr)
    → IsPriorityQueue h head (xs ++ elem ∷ ys)
    → (g : Heap) × (dllremove elem h ≡ ok tt g) × IsPriorityQueue g head (xs ++ ys) × SameData h g
dllremove-IsPriorityQueue h head elem xs ys q =
    let (g, run, ring, same, _, _) = dllremove-IsRing h head elem xs ys q.ring in
    (
      g,
      run,
      record {
        ring = ring;
        sorted =
            SameData-ByPriority h g (xs ++ ys) same
              (Sorted-delete (ByPriority h) xs elem ys q.sorted);
        least = (same head).0 ∙ q.least;
      },
      same,
    )

module _ (cfg : Config) (k : Kernel) (t e : ℕ) (runs : (k.thr t).executable ≡ some e)
    (free : (k.exe e).semtaken ≡ none) (xs ys : List Ptr)
    (q : ThreadQueue k (xs ++ thread_link t ∷ ys)) where
  abbrev ended : Kernel
  ended = record k { exe = update k.exe e (record (k.exe e) { state = exe_idle }) }

  -- The executable is idle and out of its thread, the thread is out of the thread queue, and what is
  -- left to do is to start the next job.
  terminate_run :
      (k₁ : Kernel) × (terminate_executable_in_thread cfg t k ≡ start_next_job cfg t k₁)
      × ((a : ℕ)
          → k₁.thr a ≡ (
              if t == a
              then record (k.thr t) {
                state = thread_idle;
                executable = none;
                regs = none;
                parent = none;
              }
              else k.thr a))
      × ThreadQueue k₁ (xs ++ ys)
      × SameData k.heap k₁.heap
      × (k₁.current_thread ≡ none)
      × (k₁.exe ≡ update k.exe e (record (k.exe e) { state = exe_idle }))
      × (k₁.rbs ≡ k.rbs)
      × (k₁.bytes ≡ k.bytes)
  unfolding terminate_executable_in_thread
  terminate_run =
      let (g, removed, queue, same) =
        dllremove-IsPriorityQueue k.heap thread_queue (thread_link t) xs ys q in
      let (k₁, run, thr_at, heap_is, current_is, exe_is, rbs_is, bytes_is, reg_is) =
        remove_run cfg ended t e runs g (ground arith) removed in
      (
        k₁,
        rw (executable_of-ok k t e runs) run,
        thr_at,
        rw heap_is queue,
        rw heap_is same,
        current_is,
        exe_is,
        rbs_is,
        bytes_is,
      )

  -- If a thread without a job queue, in an ordered thread queue, ends its executable, which has no
  -- semaphore, the termination returns: the thread is idle and empty and out of the thread queue,
  -- in which the others stay in order with the same data, the executable is idle, no other thread
  -- or executable changes, and no thread is the current one.
  pub terminate_lem :
      (k.thr t).jobqueue ≡ none
      → (k' : Kernel) × (terminate_executable_in_thread cfg t k ≡ ok tt k')
        × ((a : ℕ)
            → k'.thr a ≡ (
                if t == a
                then record (k.thr t) {
                  state = thread_idle;
                  executable = none;
                  regs = none;
                  parent = none;
                }
                else k.thr a))
        × (k'.exe ≡ update k.exe e (record (k.exe e) { state = exe_idle }))
        × ThreadQueue k' (xs ++ ys)
        × SameData k.heap k'.heap
        × (k'.current_thread ≡ none)
  terminate_lem none_queued =
      let (k₁, run, thr_at, queue, same, current_is, exe_is, _, _) = terminate_run in
      (
        k₁,
        run ∙ start_next_job-none cfg k₁ t (ground (arith, thr_at t)),
        thr_at,
        exe_is,
        queue,
        same,
        current_is,
      )

  -- If the thread that ends its executable e, which has no semaphore, is in an ordered thread
  -- queue, which is shorter than the fuel of a walk, and has a job queue with a job, whose
  -- executable has registers, a place in the table and a base priority above the least, then the
  -- thread goes on with the oldest job: the termination returns, e is idle, the job is out of the
  -- job queue, the thread is ready with the new executable, which starts from its entry point with
  -- its base priority, the thread queue is in order with the other threads in their order, and no
  -- thread is the current one.
  pub terminate_next_job :
      (j base next r : ℕ) (ids : List ℕ)
      → (k.thr t).jobqueue ≡ some j
      → JobQueue k j base (next ∷ ids)
      → next < cfg.n_executables
      → next < i32_zero
      → dll_min_i32_key < (k.exe next).baseprio
      → length (xs ++ ys) < walk_fuel cfg
      → (k.exe next).registers ≡ some r
      → (k' : Kernel) × (before : List Ptr) × (after : List Ptr) × (terminate_executable_in_thread
            cfg t k
          ≡ ok tt k')
        × (before ++ after ≡ xs ++ ys)
        × ThreadQueue k' (before ++ thread_link t ∷ after)
        × ((k'.heap (thread_link t)).i32_key ≡ (k.exe next).baseprio)
        × ((k'.thr t).executable ≡ some next)
        × ((k'.thr t).state ≡ thread_ready)
        × ((k'.reg r).pc ≡ (k.exe next).function)
        × ((k'.exe e).state ≡ exe_idle)
        × JobQueue k' j base ids
        × (k'.current_thread ≡ none)
  terminate_next_job j base next r ids queued jobs fits small more enough regs =
      let (k₁, run, thr_at, queue, same, current_is, exe_is, rbs_is, bytes_is) = terminate_run in
      let exe_at : (a : ℕ) → (k₁.exe a).baseprio ≡ (k.exe a).baseprio =
        λ a. rw exe_is (ground arith) in
      let regs₁ : (k₁.exe next).registers ≡ some r = rw exe_is (ground arith) in
      let func₁ : (k₁.exe next).function ≡ (k.exe next).function = rw exe_is (ground arith) in
      let jobs₁ : JobQueue k₁ j base (next ∷ ids) = rw (rbs_is, bytes_is) jobs in
      let (k', before, after, started, split, done, jobs', pc, sp) =
        start_next_job-HasQueued cfg k₁ t j base next r ids (xs ++ ys) (ground (arith, thr_at t))
          jobs₁ fits small queue link_out (ground (arith, exe_at next)) enough regs₁ in
      (
        k',
        before,
        after,
        run ∙ started,
        split,
        done.queue,
        ground (arith, done.key_at (thread_link t), exe_at next),
        ground (arith, done.thr_at t),
        ground (arith, done.thr_at t),
        pc ∙ func₁,
        rw (done.exe_is, exe_is) (ground arith),
        jobs',
        done.current_is ∙ current_is,
      )
    where
      link_out : has (thread_link t) (xs ++ ys) ≡ false
      link_out = ground (
        arith,
        has-append (thread_link t) xs ys,
        elem_facts k.heap thread_queue (thread_link t) xs ys q.ring,
      )
