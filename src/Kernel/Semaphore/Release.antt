-- ===== src/Kernel/Semaphore/Release.antt =====
-- Giving a mutex back: every branch of `dv_signal_semimmceil`, and a wait with its signal.
use davros.Base.{
  ℕ, ◌+◌, ◌≤◌, ◌<◌, ◌≡◌, refl, true, false, none, some, List, ◌∷◌, ◌++◌, arith, ltb, leb, same_ref,
  update, if◌then◌else◌, ◌==◌, length,
}
use davros.Run.{ok}
use davros.Dll.{Ptr, Heap, dll_min_i32_key, dlldemote}
use davros.Dll.Ring.{IsRing}
use davros.Dll.Walk.{All, Sorted, All-imp}
use davros.Dll.Queue.{ByPriority, IsPriorityQueue}
use davros.Dll.Keys.{with_key, i32_key-with_key, IsRing-with_key, Sorted-with_key}
use davros.Dll.Demote.{dlldemote_lem}
use davros.Kernel.State.{
  Config, Kernel, Semaphore, eid_none, semaphore_not_occupied, i32_zero, thread_queue, thread_link,
  walk_fuel,
}
use davros.Kernel.State.Steps.{current-ok, executable_of-ok, set_prio-ok}
use davros.Kernel.Semaphore.{relinquish_mutex, signal_semimmceil, i32_inc}

-- `k'` is `k` after executable `e` of thread `t` has given semaphore `i` back: the thread's priority
-- is `p`, and its queue is in order, with the thread behind `before` and in front of `after`.
pub record HasReleased (k k' : Kernel) (i t e : ℕ) (s : Semaphore) (before after : List Ptr)
    : Type 0 where
  pub sem_at : (j : ℕ) → k'.sem j ≡ (if i == j then s else k.sem j)
  pub exe_at :
      (a : ℕ)
      → k'.exe a ≡ (if e == a then record (k.exe e) { semtaken = (k.sem i).link } else k.exe a)
  pub queue : IsPriorityQueue k'.heap thread_queue (before ++ thread_link t ∷ after)
  pub above : All (λ y. (k.sem i).oldprio < (k'.heap y).i32_key) before
  pub below : All (λ y. (k'.heap y).i32_key ≤ (k.sem i).oldprio) after
  pub key_at :
      (a : Ptr)
      → (k'.heap a).i32_key ≡ (if thread_link t == a then (k.sem i).oldprio else (k.heap a).i32_key)
  pub thr_is : k'.thr ≡ k.thr
  pub current_is : k'.current_thread ≡ k.current_thread

module _ (cfg : Config) (k : Kernel) (i t e : ℕ) (running : k.current_thread ≡ some t)
    (runs : (k.thr t).executable ≡ some e) where
  -- Who does not own the mutex is told so, and nothing changes.
  pub signal_semimmceil-not_owner :
      same_ref (k.sem i).owner (some e) ≡ false
      → signal_semimmceil cfg i k ≡ ok semaphore_not_occupied k
  unfolding signal_semimmceil
  signal_semimmceil-not_owner other =
      let other' : same_ref (k.sem i).owner (k.thr t).executable ≡ false = ground arith in
      rw (current-ok k t running, other')

  abbrev given_back : Kernel
  given_back =
      let k₀ : Kernel = record k {
        sem = update k.sem i (record (k.sem i) { count = i32_inc (k.sem i).count });
      } in
      let k₁ : Kernel = record k₀ { sem = update k₀.sem i (record (k₀.sem i) { owner = none }) } in
      let k₂ : Kernel = record k₁ {
        exe = update k₁.exe e (record (k₁.exe e) { semtaken = (k₁.sem i).link });
      } in
      record k₂ { sem = update k₂.sem i (record (k₂.sem i) { link = none }) }

  signal_run :
      (p : ℕ) (g : Heap)
      → (k.sem i).owner ≡ some e
      → (k.sem i).count ≡ i32_zero
      → (k.sem i).oldprio ≡ p
      → dlldemote (walk_fuel cfg) (thread_link t) (with_key k.heap (thread_link t) p) ≡ ok tt g
      → signal_semimmceil cfg i k ≡ ok eid_none (record given_back { heap = g })
  unfolding signal_semimmceil relinquish_mutex
  signal_run p g owns zero_now old demoted =
      let mine : same_ref (k.sem i).owner (k.thr t).executable ≡ true = ground arith in
      let k₀ : Kernel = record k {
        sem = update k.sem i (record (k.sem i) { count = i32_inc (k.sem i).count });
      } in
      let k₁ : Kernel = record k₀ { sem = update k₀.sem i (record (k₀.sem i) { owner = none }) } in
      let small : ltb (k₀.sem i).count (i32_zero + 2) ≡ true = ground arith in
      let large : leb (i32_zero + 1) (k₀.sem i).count ≡ true = ground arith in
      let old₁ : (k₁.sem i).oldprio ≡ p = ground arith in
      let demoted₁ : dlldemote (walk_fuel cfg) (thread_link t)
            (with_key k.heap (thread_link t) (k₁.sem i).oldprio)
          ≡ ok tt g =
        rw old₁ demoted in
      rw (
        current-ok k t running,
        mine,
        small,
        large,
        executable_of-ok k₁ t e runs,
        set_prio-ok t (k₁.sem i).oldprio given_back,
        demoted₁,
      )

  -- If the current thread is the first of a thread queue whose others are in order and fewer than
  -- the fuel of a walk, and its executable owns a mutex that has count 0 and keeps an old priority
  -- above the least, then giving it back answers no error: the mutex is free, the executable's list
  -- of mutexes is the rest of its list, the thread has the old priority and is in the thread queue
  -- behind all threads of a higher priority and in front of those of the same or a lower one, and
  -- no other semaphore, executable or priority changes.
  pub signal_semimmceil-HasReleased :
      (xs : List Ptr)
      → (k.sem i).owner ≡ some e
      → (k.sem i).count ≡ i32_zero
      → IsRing k.heap thread_queue (thread_link t ∷ xs)
      → Sorted (ByPriority k.heap) xs
      → (k.heap thread_queue).i32_key ≡ dll_min_i32_key
      → dll_min_i32_key < (k.sem i).oldprio
      → length xs < walk_fuel cfg
      → (k' : Kernel) × (before : List Ptr) × (after : List Ptr) × (signal_semimmceil cfg i k
          ≡ ok eid_none k')
        × (before ++ after ≡ xs)
        × HasReleased k k' i t e
            (record (k.sem i) { owner = none; link = none; count = i32_zero + 1 })
            before
            after
  signal_semimmceil-HasReleased xs owns zero_now ring sorted least more enough =
      let p = (k.sem i).oldprio in
      let h₁ = with_key k.heap (thread_link t) p in
      let self : (h₁ (thread_link t)).i32_key ≡ p =
        ground (arith, i32_key-with_key k.heap (thread_link t) p (thread_link t)) in
      let (g, before, after, run, split, above, below, queue, same) =
        dlldemote_lem h₁ (walk_fuel cfg) thread_queue (thread_link t) xs
          (IsRing-with_key k.heap (thread_link t) p thread_queue (thread_link t ∷ xs) ring)
          (Sorted-with_key k.heap (thread_link t) p xs ring.distinct.0 sorted)
          (ground (arith, i32_key-with_key k.heap (thread_link t) p thread_queue)) (ground arith)
          enough in
      (
        record given_back { heap = g },
        before,
        after,
        signal_run p g owns zero_now refl run,
        split,
        record {
          sem_at = λ j. ground arith;
          exe_at = λ a. ground arith;
          queue = queue;
          above = All-imp before (λ y l. ground (arith, same y)) above;
          below = All-imp after (λ y l. ground (arith, same y)) below;
          key_at = λ a. ground (arith, same a, i32_key-with_key k.heap (thread_link t) p a);
          thr_is = refl;
          current_is = refl;
        },
      )
