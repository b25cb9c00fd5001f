-- ===== src/Dll/Insert.antt =====
-- Insertion into a ring: the links that `dv_dllinsertbefore` writes, and the ring that they make.
use davros.Base.{◌≡◌, ◌≢◌, refl, true, false, List, [], ◌∷◌, ◌++◌, arith, ◌==◌, has, if◌then◌else◌}
use davros.Run.{ok}
use davros.Dll.{Ptr, null, Heap, dllinsertbefore}
use davros.Dll.Links.{
  with_successor, with_predecessor, load-ok, set_successor-ok, set_predecessor-ok,
  successor-with_successor, predecessor-with_successor, successor-with_predecessor,
  predecessor-with_predecessor, same-with_successor, same-with_predecessor, SameData-trans,
}
use davros.Dll.Ring.{
  Chain, Distinct, IsRing, SameData, last_of, first_or, has-append, Chain-append, Chain-frame,
  last_of-has, Distinct-front, Distinct-back, Distinct-apart, Distinct-insert, ring_front,
  ring_back,
}

-- `g` is `h` with `elem` linked in between `before` and `succ`.
pub record Linked (h g : Heap) (before elem succ : Ptr) : Type 0 where
  pub successor_at :
      (a : Ptr)
      → (g a).successor
        ≡ (if elem == a then succ else if before == a then elem else (h a).successor)
  pub predecessor_at :
      (a : Ptr)
      → (g a).predecessor
        ≡ (if succ == a then elem else if elem == a then before else (h a).predecessor)
  pub same : SameData h g

pub dllinsertbefore-Linked :
    (h : Heap) (before elem succ : Ptr)
    → succ ≢ null
    → elem ≢ null
    → before ≢ null
    → elem ≢ succ
    → elem ≢ before
    → (h succ).predecessor ≡ before
    → (g : Heap) × (dllinsertbefore succ elem h ≡ ok tt g) × Linked h g before elem succ
unfolding dllinsertbefore
dllinsertbefore-Linked h before elem succ s e p es ep q =
    let h₁ = with_predecessor h elem before in
    let h₂ = with_successor h₁ elem succ in
    let h₃ = with_successor h₂ before elem in
    let h₄ = with_predecessor h₃ succ elem in
    let back : (h₂ succ).predecessor ≡ before = ground (
      arith,
      predecessor-with_successor h₁ elem succ succ,
      predecessor-with_predecessor h elem before succ,
    ) in
    (
      h₄,
      rw (
        load-ok h succ succ s,
        q,
        set_predecessor-ok h elem before e,
        set_successor-ok h₁ elem succ e,
        load-ok h₂ succ succ s,
        back,
        set_successor-ok h₂ before elem p,
        set_predecessor-ok h₃ succ elem s,
      ),
      record {
        successor_at = λ a. ground (
          arith,
          successor-with_predecessor h₃ succ elem a,
          successor-with_successor h₂ before elem a,
          successor-with_successor h₁ elem succ a,
          successor-with_predecessor h elem before a,
        );
        predecessor_at = λ a. ground (
          arith,
          predecessor-with_predecessor h₃ succ elem a,
          predecessor-with_successor h₂ before elem a,
          predecessor-with_successor h₁ elem succ a,
          predecessor-with_predecessor h elem before a,
        );
        same = SameData-trans h h₁ h₄ (same-with_predecessor h elem before) (
            SameData-trans h₁ h₂ h₄ (same-with_successor h₁ elem succ) (
              SameData-trans h₂ h₃ h₄ (same-with_successor h₂ before elem)
                (same-with_predecessor h₃ succ elem)));
      },
    )

module _ (h g : Heap) (elem e : Ptr) where
  -- Up to the new element, the chain in front of it is as before.
  Linked-Chain_front :
      (a : Ptr) (xs : List Ptr)
      → Chain h a xs e
      → Linked h g (last_of a xs) elem e
      → has elem (a ∷ xs) ≡ false
      → Distinct (a ∷ xs)
      → elem ≢ e
      → has e xs ≡ false
      → Chain g a xs elem
  Linked-Chain_front a [] c l out d n f = ground (arith, l.successor_at a, l.predecessor_at elem)
  Linked-Chain_front a (x ∷ xs) c l out d n f = (
    ground (arith, l.successor_at a, last_of-has x xs),
    ground (arith, l.predecessor_at x),
    Linked-Chain_front x xs c.2 l (ground arith) d.1 n (ground arith),
  )

-- Behind the new element the chain goes on as before.
Linked-Chain_back :
    (h g : Heap) (before elem head : Ptr) (ys : List Ptr)
    → ((y : Ptr) (zs : List Ptr) → ys ≡ y ∷ zs → Chain h y zs head)
    → Linked h g before elem (first_or ys head)
    → has elem (head ∷ ys) ≡ false
    → Distinct (head ∷ ys)
    → has before ys ≡ false
    → Chain g elem ys head
Linked-Chain_back h g before elem head [] c l out d b =
    ground (arith, l.successor_at elem, l.predecessor_at head)
Linked-Chain_back h g before elem head (y ∷ ys) c l out d b = (
  ground (arith, l.successor_at elem),
  ground (arith, l.predecessor_at y),
  Chain-frame h g y ys head (c y ys refl) (λ p m. ground (arith, l.successor_at p))
      (λ p m. ground (arith, l.predecessor_at p)),
)

-- Linking in front of `ys` puts the new element between `xs` and `ys`.
pub Linked-IsRing :
    (h g : Heap) (head elem : Ptr) (xs ys : List Ptr)
    → IsRing h head (xs ++ ys)
    → elem ≢ null
    → has elem (head ∷ (xs ++ ys)) ≡ false
    → Linked h g (last_of head xs) elem (first_or ys head)
    → IsRing g head (xs ++ elem ∷ ys)
Linked-IsRing h g head elem xs ys r n out l = record {
  chain =
      Chain-append g head xs elem ys head
        (Linked-Chain_front h g elem (first_or ys head) head xs (ring_front h head xs ys r.chain) l
          (ground (arith, has-append elem xs ys))
          (ground (arith, has-append head xs ys, Distinct-front xs ys r.distinct)) (elem_ne ys out)
          (first_outside ys r.head_outside r.distinct))
        (Linked-Chain_back h g (last_of head xs) elem head ys (ring_back h head xs ys r.chain) l
          (ground (arith, has-append elem xs ys))
          (ground (arith, has-append head xs ys, Distinct-back xs ys r.distinct))
          (last_outside (last_of-has head xs)));
  head_ne_null = r.head_ne_null;
  no_null = ground (arith, r.no_null, has-append null xs ys, has-append null xs (elem ∷ ys));
  head_outside =
      ground (arith, r.head_outside, has-append head xs ys, has-append head xs (elem ∷ ys));
  distinct = Distinct-insert elem xs ys r.distinct (ground arith);
}
  where
    elem_ne : (zs : List Ptr) → has elem (head ∷ (xs ++ zs)) ≡ false → elem ≢ first_or zs head
    elem_ne [] o = ground arith
    elem_ne (z ∷ zs) o = ground (arith, has-append elem xs (z ∷ zs))

    first_outside :
        (zs : List Ptr)
        → has head (xs ++ zs) ≡ false
        → Distinct (xs ++ zs)
        → has (first_or zs head) xs ≡ false
    first_outside [] o d = ground (arith, has-append head xs [])
    first_outside (z ∷ zs) o d = ground (arith, Distinct-apart z xs (z ∷ zs) d)

    last_outside : has (last_of head xs) (head ∷ xs) ≡ true → has (last_of head xs) ys ≡ false
    last_outside m = ground (
      arith,
      r.head_outside,
      has-append head xs ys,
      Distinct-apart (last_of head xs) xs ys r.distinct,
    )
