-- ===== src/Kernel/Semaphore/Round.antt =====
-- A wait on a free mutex, and the signal that follows it.
use mathlib.Core.Path.{sym, subst, ◌∙◌}
use davros.Base.{
  ℕ, ◌+◌, ◌≤◌, ◌<◌, ◌≡◌, refl, inl, inr, false, none, some, List, [], ◌∷◌, ◌++◌, arith, ltb,
  Bool-cases, if◌then◌else◌, ◌==◌, has, length,
}
use davros.Run.{ok}
use davros.Dll.{Ptr, Heap, dll_min_i32_key}
use davros.Dll.Ring.{IsRing}
use davros.Dll.Walk.{All, Sorted}
use davros.Dll.Queue.{ByPriority, IsPriorityQueue}
use davros.Dll.Keys.{i32_key-with_key, IsRing-with_key, Sorted-with_key}
use davros.Kernel.State.{Config, Kernel, eid_none, i32_zero, thread_queue, thread_link, walk_fuel}
use davros.Kernel.Semaphore.{wait_semimmceil, signal_semimmceil}
use davros.Kernel.Semaphore.Taking.{taken_sem, raised, wait_semimmceil-HasTaken}
use davros.Kernel.Semaphore.Release.{signal_semimmceil-HasReleased}

module _ (h : Heap) (t p : ℕ) where
  raised-IsRing : (head : Ptr) (xs : List Ptr) → IsRing h head xs → IsRing (raised h t p) head xs
  raised-IsRing head xs r = elim (Bool-cases (ltb (h (thread_link t)).i32_key p)) [
    | inl e ↦ rw e (IsRing-with_key h (thread_link t) p head xs r)
    | inr e ↦ rw e r
  ]

  raised-Sorted :
      (xs : List Ptr)
      → has (thread_link t) xs ≡ false
      → Sorted (ByPriority h) xs
      → Sorted (ByPriority (raised h t p)) xs
  raised-Sorted xs o s = elim (Bool-cases (ltb (h (thread_link t)).i32_key p)) [
    | inl e ↦ rw e (Sorted-with_key h (thread_link t) p xs o s)
    | inr e ↦ rw e s
  ]

  raised-key : (a : Ptr) → (thread_link t == a) ≡ false → (raised h t p a).i32_key ≡ (h a).i32_key
  raised-key a d = elim (Bool-cases (ltb (h (thread_link t)).i32_key p)) [
    | inl e ↦ rw e (ground (arith, i32_key-with_key h (thread_link t) p a))
    | inr e ↦ rw e
  ]

-- No element in front of the first of a sorted queue.
nothing_before :
    (h g : Heap) (link p : ℕ) (before after xs : List Ptr)
    → before ++ after ≡ xs
    → has link xs ≡ false
    → All (λ y. (h y).i32_key ≤ p) xs
    → All (λ y. p < (g y).i32_key) before
    → ((a : Ptr) → (g a).i32_key ≡ (if link == a then p else (h a).i32_key))
    → (before ≡ []) × (after ≡ xs)
nothing_before h g link p [] after xs split out low high key = (refl, split)
nothing_before h g link p (y ∷ ys) after [] split out low high key = cc
nothing_before h g link p (y ∷ ys) after (x ∷ xs) split out low high key =
    let same : y ≡ x = cc in absurd (ground (arith, key y, same, low.0, high.0))

-- If the first thread of an ordered thread queue, which is the current one, of a priority above the
-- least, with fewer others than the fuel of a walk, takes a free mutex (count 1, no owner, no link)
-- with a ceiling not below the base priority of its executable, and gives it back, both calls
-- answer no error, the thread queue is in order with the same threads in the same order, every
-- thread has its priority, and every executable and semaphore is as before, but for the priority
-- that the mutex keeps from the time of its taking.
pub wait-signal :
    (cfg : Config) (k : Kernel) (i t e : ℕ) (xs : List Ptr)
    → k.current_thread ≡ some t
    → (k.thr t).executable ≡ some e
    → (k.exe e).baseprio ≤ (k.sem i).ceiling
    → (k.sem i).count ≡ i32_zero + 1
    → (k.sem i).owner ≡ none
    → (k.sem i).link ≡ none
    → IsPriorityQueue k.heap thread_queue (thread_link t ∷ xs)
    → dll_min_i32_key < (k.heap (thread_link t)).i32_key
    → length xs < walk_fuel cfg
    → (k₁ : Kernel) × (k' : Kernel) × (wait_semimmceil i k ≡ ok eid_none k₁)
      × (signal_semimmceil cfg i k₁ ≡ ok eid_none k')
      × IsPriorityQueue k'.heap thread_queue (thread_link t ∷ xs)
      × ((a : Ptr) → (k'.heap a).i32_key ≡ (k.heap a).i32_key)
      × ((a : ℕ) → k'.exe a ≡ k.exe a)
      × ((j : ℕ)
          → k'.sem j ≡ (
              if i == j
              then record (k.sem i) { oldprio = (k.heap (thread_link t)).i32_key }
              else k.sem j))
wait-signal cfg k i t e xs running runs low free no_owner no_link q more enough =
    let p = (k.heap (thread_link t)).i32_key in
    let (k₁, waited, got) = wait_semimmceil-HasTaken k i t e running runs low free in
    let s₁ : k₁.sem i ≡ record (taken_sem k i t e) { count = i32_zero } =
      ground (arith, got.sem_at i) in
    let ring₁ : IsRing k₁.heap thread_queue (thread_link t ∷ xs) =
      subst (λ h. IsRing h thread_queue (thread_link t ∷ xs)) (sym got.heap_is)
        (raised-IsRing k.heap t (k.sem i).ceiling thread_queue (thread_link t ∷ xs) q.ring) in
    let sorted₁ : Sorted (ByPriority k₁.heap) xs =
      subst (λ h. Sorted (ByPriority h) xs) (sym got.heap_is)
        (raised-Sorted k.heap t (k.sem i).ceiling xs q.ring.distinct.0 q.sorted.1) in
    let least₁ : (k₁.heap thread_queue).i32_key ≡ dll_min_i32_key =
      subst (λ h. (h thread_queue).i32_key ≡ dll_min_i32_key) (sym got.heap_is)
        (raised-key k.heap t (k.sem i).ceiling thread_queue (ground arith) ∙ q.least) in
    let (k₂, before, after, signalled, split, done) =
      signal_semimmceil-HasReleased cfg k₁ i t e (got.current_is ∙ running) (rw got.thr_is runs) xs
        (ground (arith, s₁)) (ground (arith, s₁)) ring₁ sorted₁ least₁ (ground (arith, s₁))
        enough in
    let old : (k₁.sem i).oldprio ≡ p = ground (arith, s₁) in
    let key : (a : Ptr)
        → (k₂.heap a).i32_key ≡ (if thread_link t == a then p else (k.heap a).i32_key) =
      λ a. key_after k₁ k₂ a old got.heap_is (done.key_at a) in
    let (none_before, all_after) =
      nothing_before k.heap k₂.heap (thread_link t) p before after xs split q.ring.distinct.0
        q.sorted.0 (subst (λ n. All (λ y. n < (k₂.heap y).i32_key) before) old done.above) key in
    (
      k₁,
      k₂,
      waited,
      signalled,
      subst (λ l. IsPriorityQueue k₂.heap thread_queue (l ++ thread_link t ∷ xs)) none_before
          (subst (λ l. IsPriorityQueue k₂.heap thread_queue (before ++ thread_link t ∷ l)) all_after
            done.queue),
      λ a. ground (arith, key a),
      λ a. ground (arith, done.exe_at a, got.exe_at a, got.exe_at e, s₁),
      λ j. ground (arith, done.sem_at j, got.sem_at j, s₁),
    )
  where
    key_after :
        (k₁ k₂ : Kernel) (a : Ptr)
        → (k₁.sem i).oldprio ≡ (k.heap (thread_link t)).i32_key
        → k₁.heap ≡ raised k.heap t (k.sem i).ceiling
        → (k₂.heap a).i32_key
          ≡ (if thread_link t == a then (k₁.sem i).oldprio else (k₁.heap a).i32_key)
        → (k₂.heap a).i32_key
          ≡ (if thread_link t == a then (k.heap (thread_link t)).i32_key else (k.heap a).i32_key)
    key_after k₁ k₂ a o h e = elim (Bool-cases (thread_link t == a)) [
      | inl same ↦ e ∙ rw same o
      | inr other ↦ e ∙ rw (other, h) (raised-key k.heap t (k.sem i).ceiling a other)
    ]
