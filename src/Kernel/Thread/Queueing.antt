-- ===== src/Kernel/Thread/Queueing.antt =====
-- A thread enters the thread queue with an executable, and leaves it.
use davros.Base.{
  ℕ, ◌≤◌, ◌<◌, ◌≡◌, refl, false, none, some, List, ◌∷◌, ◌++◌, arith, update, if◌then◌else◌, ◌==◌,
  has, length,
}
use davros.Run.{ok}
use davros.Dll.{Ptr, Heap, dll_min_i32_key, dllinsertaftersame}
use davros.Dll.Walk.{All, All-imp}
use davros.Dll.Queue.{IsPriorityQueue, dllinsertaftersame_lem}
use davros.Dll.Keys.{with_key, i32_key-with_key, links-with_key, IsRing-with_key, Sorted-with_key}
use davros.Kernel.State.{Config, Kernel, Thread, thread_ready, thread_queue, thread_link, walk_fuel}
use davros.Kernel.State.Steps.{set_prio-ok}
use davros.Kernel.Thread.{set_registers, resume_executable_in_thread, spawn_executable_in_thread}

-- The thread queue is in order and holds the links `xs`.
abbrev pub ThreadQueue : Kernel → List Ptr → Type 0
ThreadQueue k xs = IsPriorityQueue k.heap thread_queue xs

-- What a thread is when it has been given executable `exe` to run.
abbrev pub ready_thread : Kernel → (t exe : ℕ) → Thread
ready_thread k t exe = record (k.thr t) {
  executable = some exe;
  parent = none;
  state = thread_ready;
  regs = (k.exe exe).registers;
}

-- `k'` is `k` after thread `t` has been queued with `exe`, behind `before` and in front of `after`.
pub record HasQueued (k k' : Kernel) (t exe : ℕ) (before after : List Ptr) : Type 0 where
  pub thr_at : (j : ℕ) → k'.thr j ≡ (if t == j then ready_thread k t exe else k.thr j)
  pub queue : ThreadQueue k' (before ++ thread_link t ∷ after)
  pub above : All (λ y. (k.exe exe).baseprio ≤ (k'.heap y).i32_key) before
  pub below : All (λ y. (k'.heap y).i32_key < (k.exe exe).baseprio) after
  pub key_at :
      (a : Ptr)
      → (k'.heap a).i32_key
        ≡ (if thread_link t == a then (k.exe exe).baseprio else (k.heap a).i32_key)
  pub payload_at : (a : Ptr) → (k'.heap a).payload ≡ (k.heap a).payload
  pub exe_is : k'.exe ≡ k.exe
  pub sem_is : k'.sem ≡ k.sem
  pub current_is : k'.current_thread ≡ k.current_thread

module _ (cfg : Config) (k : Kernel) (t exe : ℕ) (xs : List Ptr) (q : ThreadQueue k xs)
    (out : has (thread_link t) xs ≡ false) (more : dll_min_i32_key < (k.exe exe).baseprio)
    (enough : length xs < walk_fuel cfg) where
  resume_run :
      (g : Heap)
      → dllinsertaftersame
          (walk_fuel cfg)
          thread_queue
          (thread_link t)
          (with_key k.heap (thread_link t) (k.exe exe).baseprio)
        ≡ ok tt g
      → resume_executable_in_thread cfg exe t k
        ≡ ok tt (record k { thr = update k.thr t (ready_thread k t exe); heap = g })
  unfolding resume_executable_in_thread
  resume_run g inserted = rw (
    set_prio-ok t (k.exe exe).baseprio (record k { thr = update k.thr t (ready_thread k t exe) }),
    inserted,
  )

  -- If an executable with a base priority above the least is resumed in a thread that is not in the
  -- ordered thread queue, which is shorter than the fuel of a walk, the resume returns: the thread
  -- is ready with the executable, its registers and its base priority, and is in the queue behind
  -- all threads of the same or a higher priority and in front of all of a lower one, the others as
  -- before. No register store and no ring buffer changes.
  pub resume_executable_in_thread-HasQueued :
      (k' : Kernel) × (before : List Ptr) × (after : List Ptr) × (resume_executable_in_thread cfg
          exe t k
        ≡ ok tt k')
      × (before ++ after ≡ xs)
      × HasQueued k k' t exe before after
      × (k'.reg ≡ k.reg)
      × (k'.rbs ≡ k.rbs)
      × (k'.bytes ≡ k.bytes)
  resume_executable_in_thread-HasQueued =
      let p = (k.exe exe).baseprio in
      let h₁ = with_key k.heap (thread_link t) p in
      let self : (h₁ (thread_link t)).i32_key ≡ p =
        ground (arith, i32_key-with_key k.heap (thread_link t) p (thread_link t)) in
      let q₁ : IsPriorityQueue h₁ thread_queue xs = record {
        ring = IsRing-with_key k.heap (thread_link t) p thread_queue xs q.ring;
        sorted = Sorted-with_key k.heap (thread_link t) p xs out q.sorted;
        least = ground (arith, i32_key-with_key k.heap (thread_link t) p thread_queue, q.least);
      } in
      let (g, before, after, run, split, above, below, queue, same) =
        dllinsertaftersame_lem (walk_fuel cfg) thread_queue (thread_link t) q₁
          (record { ne_null = omega arith; outside = ground arith; enough = enough })
          (ground arith) in
      (
        record k { thr = update k.thr t (ready_thread k t exe); heap = g },
        before,
        after,
        resume_run g run,
        split,
        record {
          thr_at = λ j. refl;
          queue = queue;
          above = All-imp before (λ y l. ground (arith, same y)) above;
          below = All-imp after (λ y l. ground (arith, same y)) below;
          key_at = λ a. ground (arith, same a, i32_key-with_key k.heap (thread_link t) p a);
          payload_at = λ a. ground (arith, same a, links-with_key k.heap (thread_link t) p a);
          exe_is = refl;
          sem_is = refl;
          current_is = refl;
        },
        refl,
        refl,
        refl,
      )

-- If an executable with registers and a base priority above the least is spawned in a thread that
-- is not in the ordered thread queue, which is shorter than the fuel of a walk, the spawn returns:
-- the registers are set to its entry point, its initial stack and the return address, the thread is
-- ready with the executable and its base priority, and is in the queue behind all threads of the
-- same or a higher priority and in front of all of a lower one, the others as before.
pub spawn_executable_in_thread-HasQueued :
    (cfg : Config) (k : Kernel) (t exe r : ℕ) (xs : List Ptr)
    → ThreadQueue k xs
    → has (thread_link t) xs ≡ false
    → dll_min_i32_key < (k.exe exe).baseprio
    → length xs < walk_fuel cfg
    → (k.exe exe).registers ≡ some r
    → (k' : Kernel) × (before : List Ptr) × (after : List Ptr) × (spawn_executable_in_thread cfg exe
          t k
        ≡ ok tt k')
      × (before ++ after ≡ xs)
      × HasQueued k k' t exe before after
      × ((k'.reg r).pc ≡ (k.exe exe).function)
      × ((k'.reg r).sp ≡ (k.exe exe).initial_sp)
      × ((k'.reg r).lr ≡ cfg.exit_address)
      × (k'.rbs ≡ k.rbs)
      × (k'.bytes ≡ k.bytes)
unfolding spawn_executable_in_thread set_registers
spawn_executable_in_thread-HasQueued cfg k t exe r xs q out more enough regs =
    let g = record (k.reg r) {
      pc = (k.exe exe).function;
      cpsr = 0x5f;
      sp = (k.exe exe).initial_sp;
      lr = cfg.exit_address;
    } in
    let k₁ : Kernel = record k { reg = update k.reg r g } in
    let (k', before, after, run, split, done, reg_is, rbs_is, bytes_is) =
      resume_executable_in_thread-HasQueued cfg k₁ t exe xs q out more enough in
    (
      k',
      before,
      after,
      spawn_run k' run,
      split,
      record {
        thr_at = done.thr_at;
        queue = done.queue;
        above = done.above;
        below = done.below;
        key_at = done.key_at;
        payload_at = done.payload_at;
        exe_is = done.exe_is;
        sem_is = done.sem_is;
        current_is = done.current_is;
      },
      rw reg_is (ground arith),
      rw reg_is (ground arith),
      rw reg_is (ground arith),
      rbs_is,
      bytes_is,
    )
  where
    spawn_run :
        (k' : Kernel)
        → resume_executable_in_thread cfg exe t (record k {
          reg = update k.reg r (record (k.reg r) {
            pc = (k.exe exe).function;
            cpsr = 0x5f;
            sp = (k.exe exe).initial_sp;
            lr = cfg.exit_address;
          });
        })
          ≡ ok tt k'
        → spawn_executable_in_thread cfg exe t k ≡ ok tt k'
    spawn_run k' run = ground (arith, run, regs)
