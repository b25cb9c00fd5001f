-- ===== src/Kernel/Dispatch/Entry.antt =====
-- The way into the kernel and out of it.
use mathlib.Core.Path.{◌∙◌}
use davros.Base.{
  ℕ, suc, ◌-◌, ◌≤◌, ◌≡◌, ◌≢◌, refl, inl, inr, Bool, true, false, Option, none, some, List, [], ◌∷◌,
  arith, update, same_ref, ltb, if◌then◌else◌, ◌==◌, length, Bool-cases,
}
use davros.Run.{ok, panic, thread_queue_empty, current_thread_not_queue_head}
use davros.Dll.{Ptr, null, Heap}
use davros.Dll.Links.{load-ok}
use davros.Dll.Ring.{IsRing, first_or, Chain-successor}
use davros.Dll.Queue.{dllisempty-eq_true}
use davros.Dll.Keys.{with_key, i32_key-with_key, IsRing-with_key}
use davros.Kernel.State.{
  Config, Kernel, ThreadState, thread_running, thread_ready, thread_queue, thread_link,
  threadqueuehead,
}
use davros.Kernel.State.Steps.{executable_of-ok, get_prio-ok, set_prio-ok}
use davros.Kernel.Semaphore.{set_runprio}
use davros.Kernel.Services.{sys_empty}
use davros.Kernel.Dispatch.{dispatch, mark_ready, call_service, syscall}

module _ (k : Kernel) where
  -- The head of the thread queue is what the first element points at, or what the head does.
  pub threadqueuehead-ok :
      (xs : List Ptr)
      → IsRing k.heap thread_queue xs
      → threadqueuehead k ≡ ok (k.heap (first_or xs thread_queue)).payload k
  unfolding threadqueuehead
  threadqueuehead-ok xs r = rw (
    load-ok k.heap thread_queue thread_queue r.head_ne_null,
    Chain-successor k.heap thread_queue xs thread_queue r.chain,
    load-ok k.heap (first_or xs thread_queue) null (first_ne_null xs r),
  )
    where
      first_ne_null :
          (ys : List Ptr) → IsRing k.heap thread_queue ys → first_or ys thread_queue ≢ null
      first_ne_null [] s = s.head_ne_null
      first_ne_null (y ∷ ys) s = ground (arith, s.no_null)

  -- If no more than one thread is in the ring of the thread queue, every system call panics with an
  -- empty thread queue.
  pub syscall-thread_queue_empty :
      (cfg : Config) (sc : ℕ) (xs : List Ptr)
      → IsRing k.heap thread_queue xs
      → length xs ≤ 1
      → syscall cfg sc k ≡ panic thread_queue_empty
  unfolding syscall
  syscall-thread_queue_empty cfg sc xs r few =
      let (e, run, iff) = dllisempty-eq_true xs r in rw (run, iff.1 few)

  -- If two or more threads are in the ring of the thread queue and the current thread is not the
  -- one that the first link names, every system call panics, and no service is called.
  pub syscall-not_queue_head :
      (cfg : Config) (sc : ℕ) (x y : Ptr) (xs : List Ptr)
      → IsRing k.heap thread_queue (x ∷ (y ∷ xs))
      → same_ref k.current_thread (k.heap x).payload ≡ false
      → syscall cfg sc k ≡ panic current_thread_not_queue_head
  unfolding syscall
  syscall-not_queue_head cfg sc x y xs r other =
      let (e, run, iff) = dllisempty-eq_true (x ∷ (y ∷ xs)) r in
      let more : e ≡ false = not_empty e iff.0 in
      rw (run, more, threadqueuehead-ok (x ∷ (y ∷ xs)) r, other)
    where
      not_empty : (e : Bool) → (e ≡ true → length (x ∷ (y ∷ xs)) ≤ 1) → e ≡ false
      not_empty true f = absurd (ground (arith, f refl))
      not_empty false f = refl

  -- A number past the table does nothing.
  pub call_service-unknown : (cfg : Config) (n : ℕ) → 17 ≤ n → call_service cfg n k ≡ ok tt k
  unfolding call_service sys_empty
  call_service-unknown cfg n h = let (m, e) = past n h in rw e
    where
      past :
          (a : ℕ)
          → 17 ≤ a
          → (m : ℕ) × (a
              ≡ suc (
                  suc (
                    suc (
                      suc (
                        suc (
                          suc (
                            suc (suc (suc (suc (suc (suc (suc (suc (suc (suc (suc m)))))))))))))))))
      past a l = (a - 17, omega arith)

-- The state of thread `j` after a dispatch of thread `t`.
abbrev pub dispatched_state : Kernel → (t j : ℕ) → ThreadState
dispatched_state k t j =
    if same_ref k.current_thread (some t)
    then (k.thr j).state
    else if t == j
    then thread_running
    else if same_ref k.current_thread (some j)
    then thread_ready
    else (k.thr j).state

-- The priority at `a` after the rise of thread `t`, which runs `e`, to at least its run priority.
abbrev pub risen_key : Kernel → (t e : ℕ) → (a : Ptr) → ℕ
risen_key k t e a =
    if thread_link t == a
    then (if ltb (k.heap (thread_link t)).i32_key (k.exe e).runprio
        then (k.exe e).runprio
        else (k.heap (thread_link t)).i32_key)
    else (k.heap a).i32_key

set_runprio-ok :
    (k : Kernel) (t e : ℕ) (xs : List Ptr)
    → (k.thr t).executable ≡ some e
    → IsRing k.heap thread_queue xs
    → (g : Heap) × (set_runprio t k ≡ ok tt (record k { heap = g }))
      × ((a : Ptr) → (g a).i32_key ≡ risen_key k t e a)
      × IsRing g thread_queue xs
unfolding set_runprio
set_runprio-ok k t e xs runs r =
    elim (Bool-cases (ltb (k.heap (thread_link t)).i32_key (k.exe e).runprio)) [
      | inl low ↦ (
        with_key k.heap (thread_link t) (k.exe e).runprio,
        rw (get_prio-ok t k, executable_of-ok k t e runs, low, set_prio-ok t (k.exe e).runprio k),
        λ a. ground (arith, i32_key-with_key k.heap (thread_link t) (k.exe e).runprio a),
        IsRing-with_key k.heap (thread_link t) (k.exe e).runprio thread_queue xs r,
      )
      | inr high ↦
          (k.heap, rw (get_prio-ok t k, executable_of-ok k t e runs, high), λ a. ground arith, r)
    ]

-- The kernel after the outgoing thread, if there is one, has been marked as ready.
abbrev readied : Kernel → Option ℕ → Kernel
readied k none = k
readied k (some o) = record k { thr = update k.thr o (record (k.thr o) { state = thread_ready }) }

module _ (k : Kernel) where
  mark_ready-ok : (c : Option ℕ) → mark_ready c k ≡ ok tt (readied k c)
  mark_ready-ok none = refl
  mark_ready-ok (some o) = refl

  readied-state :
      (c : Option ℕ) (j : ℕ)
      → ((readied k c).thr j).state
        ≡ (if same_ref c (some j) then thread_ready else (k.thr j).state)
  readied-state none j = refl
  readied-state (some o) j = ground arith

  readied-rest :
      (c : Option ℕ) (j : ℕ)
      → (((readied k c).thr j).executable ≡ (k.thr j).executable)
        × ((readied k c).heap ≡ k.heap)
        × ((readied k c).exe ≡ k.exe)
  readied-rest none j = (refl, refl, refl)
  readied-rest (some o) j = (ground arith, refl, refl)

  abbrev switched : ℕ → Kernel
  switched t =
      let k₁ = readied k k.current_thread in
      record k₁ {
        thr = update k₁.thr t (record (k₁.thr t) { state = thread_running });
        current_thread = some t;
      }

  switch_run :
      (t : ℕ) (xs : List Ptr)
      → IsRing k.heap thread_queue (thread_link t ∷ xs)
      → (k.heap (thread_link t)).payload ≡ some t
      → (k' : Kernel)
      → (if same_ref k.current_thread (some t) then set_runprio t k else set_runprio t (switched t))
        ≡ ok tt k'
      → dispatch k ≡ ok t k'
  unfolding dispatch
  switch_run t xs r names k' run = elim (Bool-cases (same_ref k.current_thread (some t))) [
    | inl same ↦
        let run' : set_runprio t k ≡ ok tt k' = ground (arith, run) in
        rw (threadqueuehead-ok k (thread_link t ∷ xs) r, names, same, run')
    | inr other ↦
        let run' : set_runprio t (switched t) ≡ ok tt k' = ground (arith, run) in
        rw (
          threadqueuehead-ok k (thread_link t ∷ xs) r,
          names,
          other,
          mark_ready-ok k.current_thread,
          run',
        )
  ]

  -- If the first link of the thread queue names its thread and the thread has an executable, the
  -- dispatcher returns to that thread and makes it the current one. If another was current, that
  -- one is ready and the first is running; else no state changes. The priority of the first thread
  -- rises to the run priority of its executable if it is lower, no other priority changes, and the
  -- queue holds the same threads in the same order.
  pub dispatch_lem :
      (t e : ℕ) (xs : List Ptr)
      → IsRing k.heap thread_queue (thread_link t ∷ xs)
      → (k.heap (thread_link t)).payload ≡ some t
      → (k.thr t).executable ≡ some e
      → (k' : Kernel) × (dispatch k ≡ ok t k')
        × (k'.current_thread ≡ some t)
        × ((j : ℕ) → (k'.thr j).state ≡ dispatched_state k t j)
        × ((a : Ptr) → (k'.heap a).i32_key ≡ risen_key k t e a)
        × IsRing k'.heap thread_queue (thread_link t ∷ xs)
  dispatch_lem t e xs r names runs = elim (Bool-cases (same_ref k.current_thread (some t))) [
    | inl same ↦
        let (g, run, key, ring) = set_runprio-ok k t e (thread_link t ∷ xs) runs r in
        (
          record k { heap = g },
          switch_run t xs r names (record k { heap = g }) (rw same run),
          ground (arith, same),
          λ j. ground (arith, same),
          key,
          ring,
        )
    | inr other ↦
        let k₂ = switched t in
        let (runs₁, heap_is, exe_is) = readied-rest k.current_thread t in
        let (g, run, key, ring) =
          set_runprio-ok k₂ t e (thread_link t ∷ xs) (ground (arith, runs₁)) (rw heap_is r) in
        (
          record k₂ { heap = g },
          switch_run t xs r names (record k₂ { heap = g }) (rw other run),
          refl,
          λ j. ground (arith, other, readied-state k.current_thread j),
          λ a. key a ∙ rw (heap_is, exe_is),
          ring,
        )
  ]
