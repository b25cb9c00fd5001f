-- ===== src/Kernel/Thread/Leaving.antt =====
-- An executable leaves its thread, and the next job of the thread's queue takes its place.
use davros.Base.{
  ℕ, ◌<◌, ◌≡◌, refl, false, none, some, List, ◌∷◌, ◌++◌, arith, update, if◌then◌else◌, ◌==◌, has,
  length,
}
use davros.Run.{ok}
use davros.Dll.{Ptr, Heap, dll_min_i32_key, dllremove}
use davros.RingBuffer.{RbState, rb_remove_simple}
use davros.RingBuffer.Queue.{IsQueue, rb_remove_simple_lem}
use davros.Kernel.State.{
  Config, Kernel, thread_idle, i32_zero, thread_link, walk_fuel, out_of_range,
}
use davros.Kernel.State.Steps.{executable_of-ok}
use davros.Kernel.Thread.{start_next_job, remove_executable_from_thread, spawn_executable_in_thread}
use davros.Kernel.Thread.Queueing.{ThreadQueue, HasQueued, spawn_executable_in_thread-HasQueued}

-- Ring buffer `j` with the buffer bytes holds the jobs `ids`.
abbrev pub JobQueue : Kernel → (j base : ℕ) → List ℕ → Type 0
JobQueue k j base ids = IsQueue (record { rb = k.rbs j; bytes = k.bytes }) base ids

module _ (cfg : Config) (k : Kernel) (t : ℕ) where
  -- With no job queue there is nothing to start.
  pub start_next_job-none : (k.thr t).jobqueue ≡ none → start_next_job cfg t k ≡ ok tt k
  unfolding start_next_job
  start_next_job-none e = ground arith

  start_run :
      (j exe : ℕ) (s : RbState) (k' : Kernel)
      → (k.thr t).jobqueue ≡ some j
      → rb_remove_simple (record { rb = k.rbs j; bytes = k.bytes }) ≡ ok (some exe) s
      → out_of_range exe cfg.n_executables ≡ false
      → spawn_executable_in_thread cfg exe t
          (record k { rbs = update k.rbs j s.rb; bytes = s.bytes })
        ≡ ok tt k'
      → start_next_job cfg t k ≡ ok tt k'
  unfolding start_next_job
  start_run j exe s k' queued taken fits spawned = ground arith

  -- The oldest job of the queue is taken out of it and gets the thread, which starts it from its entry
  -- point, also if it had been suspended or asleep when it was queued.
  pub start_next_job-HasQueued :
      (j base exe r : ℕ) (ids : List ℕ) (xs : List Ptr)
      → (k.thr t).jobqueue ≡ some j
      → JobQueue k j base (exe ∷ ids)
      → exe < cfg.n_executables
      → exe < i32_zero
      → ThreadQueue k xs
      → has (thread_link t) xs ≡ false
      → dll_min_i32_key < (k.exe exe).baseprio
      → length xs < walk_fuel cfg
      → (k.exe exe).registers ≡ some r
      → (k' : Kernel) × (before : List Ptr) × (after : List Ptr) × (start_next_job cfg t k
          ≡ ok tt k')
        × (before ++ after ≡ xs)
        × HasQueued k k' t exe before after
        × JobQueue k' j base ids
        × ((k'.reg r).pc ≡ (k.exe exe).function)
        × ((k'.reg r).sp ≡ (k.exe exe).initial_sp)
  start_next_job-HasQueued j base exe r ids xs queued jobs fits small q out more enough regs =
      let (s, taken, jobs', _, _) = rb_remove_simple_lem (exe ∷ ids) jobs in
      let (k', before, after, run, split, done, pc, sp, _, rbs_is, bytes_is) =
        spawn_executable_in_thread-HasQueued cfg
          (record k { rbs = update k.rbs j s.rb; bytes = s.bytes }) t exe r xs q out more enough
          regs in
      let self : update k.rbs j s.rb j ≡ s.rb = ground arith in
      (
        k',
        before,
        after,
        start_run j exe s k' queued taken (ground arith) run,
        split,
        record {
          thr_at = done.thr_at;
          queue = done.queue;
          above = done.above;
          below = done.below;
          key_at = done.key_at;
          payload_at = done.payload_at;
          exe_is = done.exe_is;
          sem_is = done.sem_is;
          current_is = done.current_is;
        },
        rw (rbs_is, bytes_is, self) jobs',
        pc,
        sp,
      )

module _ (cfg : Config) (k : Kernel) (t e : ℕ) (runs : (k.thr t).executable ≡ some e) where
  pub remove_run :
      (g : Heap)
      → (k.exe e).semtaken ≡ none
      → dllremove (thread_link t) k.heap ≡ ok tt g
      → (k₁ : Kernel) × (remove_executable_from_thread cfg t k ≡ start_next_job cfg t k₁)
        × ((a : ℕ)
            → k₁.thr a ≡ (
                if t == a
                then record (k.thr t) {
                  state = thread_idle;
                  executable = none;
                  regs = none;
                  parent = none;
                }
                else k.thr a))
        × (k₁.heap ≡ g)
        × (k₁.current_thread ≡ none)
        × (k₁.exe ≡ k.exe)
        × (k₁.rbs ≡ k.rbs)
        × (k₁.bytes ≡ k.bytes)
        × (k₁.reg ≡ k.reg)
  unfolding remove_executable_from_thread
  remove_run g free removed =
      let k₁ : Kernel = record k {
        heap = g;
        thr = update k.thr t (record (k.thr t) { state = thread_idle });
      } in
      let k₂ : Kernel = record k₁ {
        thr = update k₁.thr t (record (k₁.thr t) { executable = none; regs = none; parent = none });
        current_thread = none;
      } in
      let runs₁ : (k₁.thr t).executable ≡ some e = ground arith in
      (
        k₂,
        rw (removed, executable_of-ok k₁ t e runs₁, free),
        λ a. ground arith,
        refl,
        refl,
        refl,
        refl,
        refl,
        refl,
      )
