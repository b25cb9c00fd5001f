-- ===== src/Dll/Demote.antt =====
-- `dv_dlldemote`: the first element of a queue, its priority lowered, finds its new place.
use mathlib.Core.Path.{sym, ◌∙◌}
use davros.Base.{
  ℕ, ◌≤◌, ◌<◌, ◌≡◌, ◌≢◌, refl, inl, inr, List, [], ◌∷◌, ◌++◌, arith, ltb, length, Bool-cases,
  if◌then◌else◌,
}
use davros.Run.{ok, ◌>>◌}
use davros.Dll.{
  Ptr, null, Heap, dll_min_i32_key, dlldemote, dllremove, dllinsertbeforesame,
  dllinsertbeforesame_elem,
}
use davros.Dll.Links.{load-ok, SameData-trans}
use davros.Dll.Ring.{IsRing, SameData, first_or, Chain-successor}
use davros.Dll.Walk.{All, Sorted, All-imp}
use davros.Dll.Remove.{dllremove-IsRing}
use davros.Dll.Queue.{ByPriority, IsPriorityQueue, dllinsertbeforesame_lem, SameData-ByPriority}

insert_from_first :
    (fuel : ℕ) (g : Heap) (head elem : Ptr) (xs : List Ptr)
    → IsRing g head xs
    → dllinsertbeforesame fuel head elem g ≡ dllinsertbeforesame_elem fuel (first_or xs head) elem g
unfolding dllinsertbeforesame
insert_from_first fuel g head elem xs r =
    rw (load-ok g head head r.head_ne_null, Chain-successor g head xs head r.chain)

-- No element has a higher priority than the first of a sorted list.
none_above_first :
    (h : Heap) (head elem : Ptr) (xs : List Ptr)
    → Sorted (ByPriority h) xs
    → (h (first_or xs head)).i32_key ≤ (h elem).i32_key
    → All (λ y. (h y).i32_key ≤ (h elem).i32_key) xs
none_above_first h head elem [] s e = tt
none_above_first h head elem (x ∷ xs) s e = (e, All-imp xs (λ y l. omega arith) s.0)

first_ne_null :
    (h : Heap) (head elem : Ptr) (xs : List Ptr)
    → IsRing h head (elem ∷ xs)
    → first_or xs head ≢ null
first_ne_null h head elem [] r = r.head_ne_null
first_ne_null h head elem (x ∷ xs) r = ground (arith, r.no_null)

-- If the elements behind the first of a ring are in order and the first has a priority above the
-- least, a demotion of the first, with more fuel than there are others, returns: the element is
-- behind all others of a higher priority and in front of those of the same or a lower one, the
-- others keep their order, and the whole ring is a priority queue with the same data.
pub dlldemote_lem :
    (h : Heap) (fuel : ℕ) (head elem : Ptr) (xs : List Ptr)
    → IsRing h head (elem ∷ xs)
    → Sorted (ByPriority h) xs
    → (h head).i32_key ≡ dll_min_i32_key
    → dll_min_i32_key < (h elem).i32_key
    → length xs < fuel
    → (g : Heap) × (before : List Ptr) × (after : List Ptr) × (dlldemote fuel elem h ≡ ok tt g)
      × (before ++ after ≡ xs)
      × All (λ y. (h elem).i32_key < (h y).i32_key) before
      × All (λ y. (h y).i32_key ≤ (h elem).i32_key) after
      × IsPriorityQueue g head (before ++ elem ∷ after)
      × SameData h g
unfolding dlldemote
dlldemote_lem h fuel head elem xs r sorted least more enough =
    elim (Bool-cases (ltb (h elem).i32_key (h (first_or xs head)).i32_key)) [
      | inl lower ↦
          let (g₁, removed, ring, same₁, _, _) = dllremove-IsRing h head elem [] xs r in
          let q : IsPriorityQueue g₁ head xs = record {
            ring = ring;
            sorted = SameData-ByPriority h g₁ xs same₁ sorted;
            least = (same₁ head).0 ∙ least;
          } in
          let (g₂, before, after, run, split, above, below, queue, same₂) =
            dllinsertbeforesame_lem fuel head elem q
              (record {
                ne_null = ground (arith, r.no_null);
                outside = ground (arith, r.head_outside, r.distinct);
                enough = enough;
              })
              (ground (arith, same₁ elem)) in
          (
            g₂,
            before,
            after,
            rw (start, lower, removed) (sym (insert_from_first fuel g₁ head elem xs ring) ∙ run),
            split,
            All-imp before (λ y l. ground (arith, same₁ elem, same₁ y)) above,
            All-imp after (λ y l. ground (arith, same₁ elem, same₁ y)) below,
            queue,
            SameData-trans h g₁ g₂ same₁ same₂,
          )
      | inr placed ↦
          let below = none_above_first h head elem xs sorted (ground arith) in
          (
            h,
            [],
            xs,
            rw (start, placed),
            refl,
            tt,
            below,
            record { ring = r; sorted = (below, sorted); least = least },
            λ a. (refl, refl, refl, refl),
          )
    ]
  where
    start :
        dlldemote fuel elem h
        ≡ (if ltb (h elem).i32_key (h (first_or xs head)).i32_key
              then (dllremove elem >> dllinsertbeforesame_elem fuel (first_or xs head) elem)
              else (λ s. ok tt s))
            h
    start = rw (
      load-ok h elem elem (ground (arith, r.no_null)),
      Chain-successor h elem xs head r.chain.2,
      load-ok h (first_or xs head) head (first_ne_null h head elem xs r),
    )
