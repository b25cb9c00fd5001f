-- ===== src/Kernel/Semaphore/Taking.antt =====
-- Taking a mutex: every branch of `dv_wait_semimmceil`.
use davros.Base.{
  ℕ, ◌+◌, ◌≤◌, ◌<◌, ◌≡◌, ◌≢◌, ◌⊎◌, refl, inl, inr, true, false, some, arith, ltb, update,
  Bool-cases, if◌then◌else◌, ◌==◌,
}
use davros.Run.{ok, panic, semaphore_occupied}
use davros.Dll.{Heap}
use davros.Dll.Keys.{with_key}
use davros.Kernel.State.{
  Kernel, Semaphore, eid_none, semaphore_ceiling_too_low, i32_zero, thread_link, set_prio,
}
use davros.Kernel.State.Steps.{current-ok, executable_of-ok, get_prio-ok, set_prio-ok}
use davros.Kernel.Semaphore.{acquire_mutex, wait_semimmceil, i32_dec}

-- The semaphore after executable `e` of thread `t` has taken it.
abbrev pub taken_sem : Kernel → (i t e : ℕ) → Semaphore
taken_sem k i t e = record (k.sem i) {
  owner = some e;
  link = (k.exe e).semtaken;
  oldprio = (k.heap (thread_link t)).i32_key;
}

-- `k'` is `k` after executable `e` has got semaphore `i`, whose record is `s`, and heap `h`.
pub record HasTaken (k k' : Kernel) (i e : ℕ) (s : Semaphore) (h : Heap) : Type 0 where
  pub sem_at : (j : ℕ) → k'.sem j ≡ (if i == j then s else k.sem j)
  pub exe_at :
      (a : ℕ) → k'.exe a ≡ (if e == a then record (k.exe e) { semtaken = some i } else k.exe a)
  pub heap_is : k'.heap ≡ h
  pub thr_is : k'.thr ≡ k.thr
  pub current_is : k'.current_thread ≡ k.current_thread

module _ (k : Kernel) (i t e : ℕ) (runs : (k.thr t).executable ≡ some e) where
  pub acquire_mutex-HasTaken :
      (k' : Kernel) × (acquire_mutex i t k ≡ ok tt k')
      × HasTaken k k' i e (taken_sem k i t e) k.heap
  unfolding acquire_mutex
  acquire_mutex-HasTaken =
      let k₁ : Kernel = record k { sem = update k.sem i (record (k.sem i) { owner = some e }) } in
      let k₂ : Kernel = record k₁ {
        sem = update k₁.sem i (record (k₁.sem i) { link = (k.exe e).semtaken });
      } in
      let k₃ : Kernel = record k₂ {
        exe = update k.exe e (record (k.exe e) { semtaken = some i });
      } in
      let k₄ : Kernel = record k₃ {
        sem = update k₃.sem i (record (k₃.sem i) { oldprio = (k.heap (thread_link t)).i32_key });
      } in
      (
        k₄,
        rw (executable_of-ok k t e runs, get_prio-ok t k₃),
        record {
          sem_at = λ j. ground arith;
          exe_at = λ a. ground arith;
          heap_is = refl;
          thr_is = refl;
          current_is = refl;
        },
      )

-- The heap with the priority of thread `t` raised to at least `p`.
abbrev pub raised : Heap → (t p : ℕ) → Heap
raised h t p = if ltb (h (thread_link t)).i32_key p then with_key h (thread_link t) p else h

abbrev pub lowered_count : Kernel → ℕ → Kernel
lowered_count k i = record k {
  sem = update k.sem i (record (k.sem i) { count = i32_dec (k.sem i).count });
}

module _ (k : Kernel) (i t e : ℕ) (running : k.current_thread ≡ some t)
    (runs : (k.thr t).executable ≡ some e) where
  -- A caller with a base priority above the ceiling is refused, and nothing changes.
  pub wait_semimmceil-too_low :
      (k.sem i).ceiling < (k.exe e).baseprio → wait_semimmceil i k ≡ ok semaphore_ceiling_too_low k
  unfolding wait_semimmceil
  wait_semimmceil-too_low h =
      let high : ltb (k.sem i).ceiling (k.exe e).baseprio ≡ true = ground arith in
      rw (current-ok k t running, executable_of-ok k t e runs, high)

  -- The raise at the end of a successful wait.
  finish :
      (k₁ : Kernel)
      → HasTaken k k₁ i e (record (taken_sem k i t e) { count = i32_zero }) k.heap
      → (k' : Kernel) × ((if ltb (k₁.sem i).oldprio (k₁.sem i).ceiling
              then set_prio t (k₁.sem i).ceiling
              else (λ s. ok tt s))
            k₁
          ≡ ok tt k')
        × HasTaken k k' i e
            (record (taken_sem k i t e) { count = i32_zero })
            (raised k.heap t (k.sem i).ceiling)
  finish k₁ got =
      let old : (k₁.sem i).oldprio ≡ (k.heap (thread_link t)).i32_key =
        ground (arith, got.sem_at i) in
      let top : (k₁.sem i).ceiling ≡ (k.sem i).ceiling = ground (arith, got.sem_at i) in
      elim (Bool-cases (ltb (k.heap (thread_link t)).i32_key (k.sem i).ceiling)) [
        | inl low ↦ (
          record k₁ { heap = with_key k₁.heap (thread_link t) (k.sem i).ceiling },
          rw (old, top, low, set_prio-ok t (k.sem i).ceiling k₁),
          record {
            sem_at = got.sem_at;
            exe_at = got.exe_at;
            heap_is = rw (low, got.heap_is);
            thr_is = got.thr_is;
            current_is = got.current_is;
          },
        )
        | inr high ↦ (
          k₁,
          rw (old, top, high),
          record {
            sem_at = got.sem_at;
            exe_at = got.exe_at;
            heap_is = rw high got.heap_is;
            thr_is = got.thr_is;
            current_is = got.current_is;
          },
        )
      ]

  wait_run :
      (k₁ k' : Kernel)
      → (k.exe e).baseprio ≤ (k.sem i).ceiling
      → (k.sem i).count ≡ i32_zero + 1
      → acquire_mutex i t (lowered_count k i) ≡ ok tt k₁
      → (if ltb (k₁.sem i).oldprio (k₁.sem i).ceiling
            then set_prio t (k₁.sem i).ceiling
            else (λ s. ok tt s))
          k₁
        ≡ ok tt k'
      → wait_semimmceil i k ≡ ok eid_none k'
  unfolding wait_semimmceil
  wait_run k₁ k' h free run raise =
      let low : ltb (k.sem i).ceiling (k.exe e).baseprio ≡ false = ground arith in
      let zero_now : ltb ((lowered_count k i).sem i).count i32_zero ≡ false = ground arith in
      rw (current-ok k t running, executable_of-ok k t e runs, low, zero_now, run, raise)

  -- If the current thread's executable has a base priority not above the ceiling and the mutex's
  -- count is 1, the wait answers no error: the count falls to 0, the executable becomes the owner,
  -- the mutex goes on top of the executable's list with the thread's priority of before, and the
  -- thread's priority rises to the ceiling if it is lower. No other semaphore, executable or
  -- priority changes, and no thread.
  pub wait_semimmceil-HasTaken :
      (k.exe e).baseprio ≤ (k.sem i).ceiling
      → (k.sem i).count ≡ i32_zero + 1
      → (k' : Kernel) × (wait_semimmceil i k ≡ ok eid_none k')
        × HasTaken k k' i e
            (record (taken_sem k i t e) { count = i32_zero })
            (raised k.heap t (k.sem i).ceiling)
  wait_semimmceil-HasTaken h free =
      let k₀ = lowered_count k i in
      let (k₁, run, got) = acquire_mutex-HasTaken k₀ i t e runs in
      let got' : HasTaken k k₁ i e (record (taken_sem k i t e) { count = i32_zero }) k.heap =
        record {
          sem_at = λ j. ground (arith, got.sem_at j);
          exe_at = got.exe_at;
          heap_is = got.heap_is;
          thr_is = got.thr_is;
          current_is = got.current_is;
        } in
      let (k', raise, done) = finish k₁ got' in (k', wait_run k₁ k' h free run raise, done)

  -- If the current thread's executable, of a base priority not above the ceiling, waits for a mutex
  -- that is owned and has a count above the least and at most 0, then if it is the owner the wait
  -- panics, and if it is not it answers no error though the mutex stays with its owner: only the
  -- count changes.
  pub wait_semimmceil-taken :
      (owner : ℕ)
      → (k.exe e).baseprio ≤ (k.sem i).ceiling
      → 0 < (k.sem i).count
      → (k.sem i).count ≤ i32_zero
      → (k.sem i).owner ≡ some owner
      → ((owner ≡ e) × (wait_semimmceil i k ≡ panic semaphore_occupied))
        ⊎ ((owner ≢ e) × (wait_semimmceil i k ≡ ok eid_none (lowered_count k i)))
  unfolding wait_semimmceil
  wait_semimmceil-taken owner h pos taken own =
      let low : ltb (k.sem i).ceiling (k.exe e).baseprio ≡ false = ground arith in
      let k₀ = lowered_count k i in
      let negative : ltb (k₀.sem i).count i32_zero ≡ true = ground arith in
      let own₀ : (k₀.sem i).owner ≡ some owner = ground arith in
      elim (Bool-cases (owner == e)) [
        | inl same ↦ inl (
          ground arith,
          rw (current-ok k t running, executable_of-ok k t e runs, low, negative, own₀, same),
        )
        | inr other ↦ inr (
          ground arith,
          rw (current-ok k t running, executable_of-ok k t e runs, low, negative, own₀, other),
        )
      ]
