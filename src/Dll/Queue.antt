-- ===== src/Dll/Queue.antt =====
-- The priority queues and the time queues that the kernel keeps in rings.
use davros.Base.{
  ℕ, ◌≤◌, ◌<◌, ◌≡◌, ◌≢◌, ◌↔◌, Bool, true, false, List, [], ◌∷◌, ◌++◌, arith, ◌==◌, ltb, leb, has,
  length,
}
use mathlib.Core.Path.{sym, subst}
use davros.Run.{ok, pure, ◌>>=◌, ◌>>◌}
use davros.Dll.{
  Ptr, null, Element, Heap, dll_min_i32_key, dll_max_u64_key, load, walk, dllinsertbefore,
  dllinsertaftersame_elem, dllinsertbeforesame_elem, dllinsertaftersame, dllinsertbeforesame,
  dllinserttime, dllisempty,
}
use davros.Dll.Links.{load-ok}
use davros.Dll.Ring.{IsRing, SameData, last_of, has-append, Chain-predecessor, last_of-has}
use davros.Dll.Walk.{
  All, Sorted, front, rest, front-append-rest, All-front, All-imp, All-rest, Sorted-insert,
  walk_insert-IsRing,
}

-- No element behind `x` has a higher priority.
abbrev pub ByPriority : Heap → Ptr → Ptr → Type 0
ByPriority h x y = (h y).i32_key ≤ (h x).i32_key

-- No element behind `x` is due earlier.
abbrev pub ByTime : Heap → Ptr → Ptr → Type 0
ByTime h x y = (h x).u64_key ≤ (h y).u64_key

pub record IsPriorityQueue (h : Heap) (head : Ptr) (xs : List Ptr) : Type 0 where
  pub ring : IsRing h head xs
  pub sorted : Sorted (ByPriority h) xs
  pub least : (h head).i32_key ≡ dll_min_i32_key

pub record IsTimeQueue (h : Heap) (head : Ptr) (xs : List Ptr) : Type 0 where
  pub ring : IsRing h head xs
  pub sorted : Sorted (ByTime h) xs
  pub greatest : (h head).u64_key ≡ dll_max_u64_key

All-transfer : (R S : Ptr → Type 0) (xs : List Ptr) → ((y : Ptr) → R y → S y) → All R xs → All S xs
All-transfer R S [] f a = tt
All-transfer R S (x ∷ xs) f a = (f x a.0, All-transfer R S xs f a.1)

pub Sorted-transfer :
    (R S : Ptr → Ptr → Type 0) (xs : List Ptr)
    → ((x y : Ptr) → R x y → S x y)
    → Sorted R xs
    → Sorted S xs
Sorted-transfer R S [] f s = tt
Sorted-transfer R S (x ∷ xs) f s =
    (All-transfer (R x) (S x) xs (f x) s.0, Sorted-transfer R S xs f s.1)

pub SameData-ByPriority :
    (h g : Heap) (xs : List Ptr)
    → SameData h g
    → Sorted (ByPriority h) xs
    → Sorted (ByPriority g) xs
SameData-ByPriority h g xs s =
    Sorted-transfer (ByPriority h) (ByPriority g) xs (λ x y r. ground (arith, s x, s y))

pub SameData-ByTime :
    (h g : Heap) (xs : List Ptr) → SameData h g → Sorted (ByTime h) xs → Sorted (ByTime g) xs
SameData-ByTime h g xs s =
    Sorted-transfer (ByTime h) (ByTime g) xs (λ x y r. ground (arith, s x, s y))

-- A new element and the queue that takes it: not null, not the head, not queued, and enough rounds.
pub record CanInsert (fuel : ℕ) (head elem : Ptr) (xs : List Ptr) : Type 0 where
  pub ne_null : elem ≢ null
  pub outside : has elem (head ∷ xs) ≡ false
  pub enough : length xs < fuel

-- What an insertion with the test `stay` does to a queue in the order `R`: it goes behind the elements
-- that pass, of which `A` holds, and in front of the others, of which `B` holds.
module _ (stay : Element → Element → Bool) (R : Heap → Ptr → Ptr → Type 0) (h : Heap) (fuel : ℕ)
    (head elem : Ptr) (xs : List Ptr) (A B : Ptr → Type 0) where
  queue_insertion :
      ((x y : Ptr) → R h x y → stay (h elem) (h x) ≡ false → stay (h elem) (h y) ≡ false)
      → ((y : Ptr) → stay (h elem) (h y) ≡ true → A y × R h y elem)
      → ((y : Ptr) → stay (h elem) (h y) ≡ false → B y × R h elem y)
      → ((g : Heap) (ys : List Ptr) → SameData h g → Sorted (R h) ys → Sorted (R g) ys)
      → IsRing h head xs
      → Sorted (R h) xs
      → CanInsert fuel head elem xs
      → stay (h elem) (h head) ≡ false
      → (g : Heap) × (before : List Ptr) × (after : List Ptr) × ((walk stay fuel
                (h head).successor
                elem
              >>= λ e. dllinsertbefore e elem)
            h
          ≡ ok tt g)
        × (before ++ after ≡ xs)
        × All A before
        × All B after
        × IsRing g head (before ++ elem ∷ after)
        × Sorted (R g) (before ++ elem ∷ after)
        × SameData h g
        × ((g elem).predecessor ≡ last_of head before)
  queue_insertion mono above below transfer ring sorted can stop =
      let p = λ (y : Ptr). stay (h elem) (h y) in
      let (g, run, ring', same, last) =
        walk_insert-IsRing stay h head elem fuel xs ring can.ne_null can.outside stop can.enough in
      let passed = All-front p xs in
      let failed = All-rest (R h) p mono xs sorted in
      (
        g,
        front p xs,
        rest p xs,
        run,
        front-append-rest p xs,
        All-imp (front p xs) (λ y e. (above y e).0) passed,
        All-imp (rest p xs) (λ y e. (below y e).0) failed,
        ring',
        transfer g (front p xs ++ elem ∷ rest p xs) same (
            Sorted-insert (R h) (front p xs) elem (rest p xs)
              (subst (Sorted (R h)) (sym (front-append-rest p xs)) sorted)
              (All-imp (front p xs) (λ y e. (above y e).1) passed)
              (All-imp (rest p xs) (λ y e. (below y e).1) failed)),
        same,
        last,
      )

module _ {h : Heap} {xs : List Ptr} (fuel : ℕ) (head elem : Ptr) (q : IsPriorityQueue h head xs)
    (can : CanInsert fuel head elem xs) (more : dll_min_i32_key < (h elem).i32_key) where
  -- If an element that is not null, not queued, and above the least priority is inserted into a
  -- priority queue after those of the same priority, with more fuel than the queue has elements,
  -- then the insertion returns, the element is behind all elements of the same or a higher priority
  -- and in front of all of a lower one, the others keep their order, and the queue stays a priority
  -- queue with the same data.
  pub dllinsertaftersame_lem :
      (g : Heap) × (before : List Ptr) × (after : List Ptr) × (dllinsertaftersame fuel head elem h
        ≡ ok tt g)
      × (before ++ after ≡ xs)
      × All (λ y. (h elem).i32_key ≤ (h y).i32_key) before
      × All (λ y. (h y).i32_key < (h elem).i32_key) after
      × IsPriorityQueue g head (before ++ elem ∷ after)
      × SameData h g
  unfolding dllinsertaftersame dllinsertaftersame_elem
  dllinsertaftersame_lem =
      let (g, before, after, run, split, above, below, ring, sorted, same, last) =
        queue_insertion (λ x y. leb x.i32_key y.i32_key) ByPriority h fuel head elem xs
          (λ y. (h elem).i32_key ≤ (h y).i32_key) (λ y. (h y).i32_key < (h elem).i32_key)
          (λ x y r e. ground arith) (λ y e. ground arith) (λ y e. ground arith)
          (SameData-ByPriority h) q.ring q.sorted can (ground (arith, q.least)) in
      (
        g,
        before,
        after,
        rw (load-ok h head head q.ring.head_ne_null) run,
        split,
        above,
        below,
        record { ring = ring; sorted = sorted; least = ground (arith, same head, q.least) },
        same,
      )

  -- If an element that is not null, not queued, and above the least priority is inserted into a
  -- priority queue before those of the same priority, with more fuel than the queue has elements,
  -- then the insertion returns, the element is behind all elements of a higher priority and in
  -- front of all of the same or a lower one, the others keep their order, and the queue stays a
  -- priority queue with the same data.
  pub dllinsertbeforesame_lem :
      (g : Heap) × (before : List Ptr) × (after : List Ptr) × (dllinsertbeforesame fuel head elem h
        ≡ ok tt g)
      × (before ++ after ≡ xs)
      × All (λ y. (h elem).i32_key < (h y).i32_key) before
      × All (λ y. (h y).i32_key ≤ (h elem).i32_key) after
      × IsPriorityQueue g head (before ++ elem ∷ after)
      × SameData h g
  unfolding dllinsertbeforesame dllinsertbeforesame_elem
  dllinsertbeforesame_lem =
      let (g, before, after, run, split, above, below, ring, sorted, same, last) =
        queue_insertion (λ x y. ltb x.i32_key y.i32_key) ByPriority h fuel head elem xs
          (λ y. (h elem).i32_key < (h y).i32_key) (λ y. (h y).i32_key ≤ (h elem).i32_key)
          (λ x y r e. ground arith) (λ y e. ground arith) (λ y e. ground arith)
          (SameData-ByPriority h) q.ring q.sorted can (ground (arith, q.least)) in
      (
        g,
        before,
        after,
        rw (load-ok h head head q.ring.head_ne_null) run,
        split,
        above,
        below,
        record { ring = ring; sorted = sorted; least = ground (arith, same head, q.least) },
        same,
      )

-- If an element that is not null, not queued, and due before the greatest time is inserted into a
-- time queue, with more fuel than the queue has elements, the insertion returns: the element is
-- behind all elements that are due at the same time or earlier and in front of all that are due
-- later, the others keep their order, the queue stays a time queue with the same data, and the
-- answer is true exactly if the element has become the first.
pub dllinserttime_lem :
    {h : Heap} {xs : List Ptr} (fuel : ℕ) (head elem : Ptr)
    → IsTimeQueue h head xs
    → CanInsert fuel head elem xs
    → (h elem).u64_key < dll_max_u64_key
    → (g : Heap) × (before : List Ptr) × (after : List Ptr) × (first : Bool) × (dllinserttime fuel
          head elem h
        ≡ ok first g)
      × (before ++ after ≡ xs)
      × All (λ y. (h y).u64_key ≤ (h elem).u64_key) before
      × All (λ y. (h elem).u64_key < (h y).u64_key) after
      × IsTimeQueue g head (before ++ elem ∷ after)
      × SameData h g
      × ((first ≡ true) ↔ (before ≡ []))
unfolding dllinserttime
dllinserttime_lem {h} {xs} fuel head elem q can less =
    let (g, before, after, run, split, above, below, ring, sorted, same, last) =
      queue_insertion (λ x y. leb y.u64_key x.u64_key) ByTime h fuel head elem xs
        (λ y. (h y).u64_key ≤ (h elem).u64_key) (λ y. (h elem).u64_key < (h y).u64_key)
        (λ x y r e. ground arith) (λ y e. ground arith) (λ y e. ground arith) (SameData-ByTime h)
        q.ring q.sorted can (ground (arith, q.greatest)) in
    (
      g,
      before,
      after,
      (g elem).predecessor == head,
      rw (load-ok h head head q.ring.head_ne_null) (answer before g run),
      split,
      above,
      below,
      record { ring = ring; sorted = sorted; greatest = ground (arith, same head, q.greatest) },
      same,
      is_first g before (elem ∷ after) ring.head_outside last,
    )
  where
    answer :
        (before : List Ptr) (g : Heap)
        → (walk (λ x y. leb y.u64_key x.u64_key) fuel (h head).successor elem >>= λ e.
              dllinsertbefore e elem)
            h
          ≡ ok tt g
        → (walk (λ x y. leb y.u64_key x.u64_key) fuel (h head).successor elem >>= λ e.
              dllinsertbefore e elem >> (load elem >>= λ x. pure (x.predecessor == head)))
            h
          ≡ ok ((g elem).predecessor == head) g
    answer before g run = ground (arith, load-ok g elem elem can.ne_null)

    is_first :
        (g : Heap) (before after : List Ptr)
        → has head (before ++ after) ≡ false
        → (g elem).predecessor ≡ last_of head before
        → (((g elem).predecessor == head) ≡ true) ↔ (before ≡ [])
    is_first g [] after o e = ground arith
    is_first g (y ∷ ys) after o e = ground (arith, has-append head (y ∷ ys) after, last_of-has y ys)

-- On a ring the test for an empty list returns, changes nothing, and answers true exactly if there
-- is at most one element: it compares the first with the last, which are the same element in a list
-- of one.
pub dllisempty-eq_true :
    {h : Heap} {head : Ptr} (xs : List Ptr)
    → IsRing h head xs
    → (e : Bool) × (dllisempty head h ≡ ok e h) × ((e ≡ true) ↔ (length xs ≤ 1))
unfolding dllisempty
dllisempty-eq_true {h} {head} xs r =
    ((h head).successor == (h head).predecessor, rw (load-ok h head head r.head_ne_null), ends xs r)
  where
    ends :
        (ys : List Ptr)
        → IsRing h head ys
        → ((((h head).successor) == ((h head).predecessor)) ≡ true) ↔ (length ys ≤ 1)
    ends [] s = ground (arith, s.chain)
    ends (y ∷ []) s = ground (arith, s.chain)
    ends (y ∷ (z ∷ zs)) s = ground (
      arith,
      s.chain,
      s.distinct,
      Chain-predecessor h head (y ∷ (z ∷ zs)) head s.chain,
      last_of-has z zs,
    )
