-- ===== src/Dll/Remove.antt =====
-- Removal from a ring, and the test for an empty one.
use mathlib.Core.List.{append-nil}
use davros.Base.{◌≡◌, ◌≢◌, refl, false, List, [], ◌∷◌, ◌++◌, arith, ◌==◌, has, if◌then◌else◌}
use davros.Run.{ok}
use davros.Dll.{Ptr, null, Heap, dllremove}
use davros.Dll.Links.{
  with_successor, with_predecessor, load-ok, set_successor-ok, set_predecessor-ok,
  successor-with_successor, predecessor-with_successor, successor-with_predecessor,
  predecessor-with_predecessor, same-with_successor, same-with_predecessor, SameData-trans,
}
use davros.Dll.Ring.{
  Chain, Distinct, IsRing, SameData, last_of, first_or, has-append, Chain-predecessor,
  Chain-successor, Chain-append, Chain-split, Chain-frame, last_of-has, Distinct-front,
  Distinct-back, Distinct-apart,
}

-- `g` is `h` with `elem` taken out from between `before` and `succ`.
pub record Unlinked (h g : Heap) (before elem succ : Ptr) : Type 0 where
  pub successor_at :
      (a : Ptr)
      → (g a).successor
        ≡ (if elem == a then null else if before == a then succ else (h a).successor)
  pub predecessor_at :
      (a : Ptr)
      → (g a).predecessor
        ≡ (if elem == a then null else if succ == a then before else (h a).predecessor)
  pub same : SameData h g

pub dllremove-Unlinked :
    (h : Heap) (before elem succ : Ptr)
    → succ ≢ null
    → elem ≢ null
    → before ≢ null
    → elem ≢ succ
    → elem ≢ before
    → (h elem).predecessor ≡ before
    → (h elem).successor ≡ succ
    → (g : Heap) × (dllremove elem h ≡ ok tt g) × Unlinked h g before elem succ
unfolding dllremove
dllremove-Unlinked h before elem succ s e p es ep q r =
    let h₁ = with_predecessor h succ before in
    let h₂ = with_successor h₁ before succ in
    let h₃ = with_predecessor h₂ elem null in
    let h₄ = with_successor h₃ elem null in
    let pred₁ : (h₁ elem).predecessor ≡ before =
      ground (arith, predecessor-with_predecessor h succ before elem) in
    let succ₁ : (h₁ elem).successor ≡ succ =
      ground (arith, successor-with_predecessor h succ before elem) in
    (
      h₄,
      rw (
        load-ok h elem elem e,
        q,
        r,
        set_predecessor-ok h succ before s,
        load-ok h₁ elem elem e,
        pred₁,
        succ₁,
        set_successor-ok h₁ before succ p,
        set_predecessor-ok h₂ elem null e,
        set_successor-ok h₃ elem null e,
      ),
      record {
        successor_at = λ a. ground (
          arith,
          successor-with_successor h₃ elem null a,
          successor-with_predecessor h₂ elem null a,
          successor-with_successor h₁ before succ a,
          successor-with_predecessor h succ before a,
        );
        predecessor_at = λ a. ground (
          arith,
          predecessor-with_successor h₃ elem null a,
          predecessor-with_predecessor h₂ elem null a,
          predecessor-with_successor h₁ before succ a,
          predecessor-with_predecessor h succ before a,
        );
        same = SameData-trans h h₁ h₄ (same-with_predecessor h succ before) (
            SameData-trans h₁ h₂ h₄ (same-with_successor h₁ before succ) (
              SameData-trans h₂ h₃ h₄ (same-with_predecessor h₂ elem null)
                (same-with_successor h₃ elem null)));
      },
    )

module _ (h g : Heap) (elem y : Ptr) where
  Unlinked-Chain_front :
      (a : Ptr) (xs : List Ptr)
      → Chain h a xs elem
      → Unlinked h g (last_of a xs) elem y
      → has elem (a ∷ xs) ≡ false
      → Distinct (a ∷ xs)
      → elem ≢ y
      → has y xs ≡ false
      → Chain g a xs y
  Unlinked-Chain_front a [] c l out d n f = ground (arith, l.successor_at a, l.predecessor_at y)
  Unlinked-Chain_front a (x ∷ xs) c l out d n f = (
    ground (arith, l.successor_at a, last_of-has x xs),
    ground (arith, l.predecessor_at x),
    Unlinked-Chain_front x xs c.2 l (ground arith) d.1 n (ground arith),
  )

-- The two parts of the chain meet.
Unlinked-Chain :
    (h g : Heap) (elem head : Ptr) (xs ys : List Ptr)
    → Chain g head xs (first_or ys head)
    → Chain h elem ys head
    → Unlinked h g (last_of head xs) elem (first_or ys head)
    → has elem (head ∷ ys) ≡ false
    → Distinct (head ∷ ys)
    → has (last_of head xs) ys ≡ false
    → Chain g head (xs ++ ys) head
Unlinked-Chain h g elem head xs [] c d l out s b = rw append-nil c
Unlinked-Chain h g elem head xs (y ∷ ys) c d l out s b = Chain-append g head xs y ys head c (
    Chain-frame h g y ys head d.2 (λ p m. ground (arith, l.successor_at p))
      (λ p m. ground (arith, l.predecessor_at p)))

Distinct-delete : (a : Ptr) (xs ys : List Ptr) → Distinct (xs ++ a ∷ ys) → Distinct (xs ++ ys)
Distinct-delete a [] ys d = d.1
Distinct-delete a (x ∷ xs) ys d =
    ground (arith, has-append x xs ys, has-append x xs (a ∷ ys), Distinct-delete a xs ys d.1)

not-mem_middle :
    (a : Ptr) (xs ys : List Ptr) → Distinct (xs ++ a ∷ ys) → (has a xs ≡ false) × (has a ys ≡ false)
not-mem_middle a [] ys d = (refl, d.0)
not-mem_middle a (x ∷ xs) ys d =
    ground (arith, has-append x xs (a ∷ ys), not-mem_middle a xs ys d.1)

module _ (h : Heap) (head elem : Ptr) (xs ys : List Ptr) (r : IsRing h head (xs ++ elem ∷ ys)) where
  pub elem_facts :
      (elem ≢ null)
      × (elem ≢ head)
      × (has elem xs ≡ false)
      × (has elem ys ≡ false)
      × (has head xs ≡ false)
      × (has head ys ≡ false)
      × (has null xs ≡ false)
      × (has null ys ≡ false)
  elem_facts = ground (
    arith,
    r.no_null,
    r.head_outside,
    has-append null xs (elem ∷ ys),
    has-append head xs (elem ∷ ys),
    not-mem_middle elem xs ys r.distinct,
  )

  place_facts :
      (elem ≢ first_or ys head) × (first_or ys head ≢ null) × (has (first_or ys head) xs ≡ false)
  place_facts = go ys elem_facts r.distinct
    where
      go :
          (zs : List Ptr)
          → (elem ≢ null)
            × (elem ≢ head)
            × (has elem xs ≡ false)
            × (has elem zs ≡ false)
            × (has head xs ≡ false)
            × (has head zs ≡ false)
            × (has null xs ≡ false)
            × (has null zs ≡ false)
          → Distinct (xs ++ elem ∷ zs)
          → (elem ≢ first_or zs head)
            × (first_or zs head ≢ null)
            × (has (first_or zs head) xs ≡ false)
      go [] f d = ground (arith, r.head_ne_null)
      go (z ∷ zs) f d = ground (arith, Distinct-apart z xs (elem ∷ (z ∷ zs)) d)

  before_facts :
      (elem ≢ last_of head xs) × (last_of head xs ≢ null) × (has (last_of head xs) ys ≡ false)
  before_facts = ground (
    arith,
    elem_facts,
    r.head_ne_null,
    last_of-has head xs,
    Distinct-apart (last_of head xs) xs (elem ∷ ys) r.distinct,
  )

  -- If an element is in a ring its removal returns and leaves a ring of the others in their order,
  -- with the same data, and the links of the element are cleared.
  pub dllremove-IsRing :
      (g : Heap) × (dllremove elem h ≡ ok tt g)
      × IsRing g head (xs ++ ys)
      × SameData h g
      × ((g elem).successor ≡ null)
      × ((g elem).predecessor ≡ null)
  dllremove-IsRing =
      let (c, d) = Chain-split h head xs elem ys head r.chain in
      let (n, nh, ex, ey, hx, hy, zx, zy) = elem_facts in
      let (ep, pn, px) = place_facts in
      let (eb, bn, by) = before_facts in
      let (g, run, u) =
        dllremove-Unlinked h (last_of head xs) elem (first_or ys head) pn n bn ep eb
          (Chain-predecessor h head xs elem c) (Chain-successor h elem ys head d) in
      (
        g,
        run,
        record {
          chain =
              Unlinked-Chain h g elem head xs ys
                (Unlinked-Chain_front h g elem (first_or ys head) head xs c u (ground arith)
                  (hx, Distinct-front xs (elem ∷ ys) r.distinct) ep px)
                d u (ground arith) (hy, (Distinct-back xs (elem ∷ ys) r.distinct).1) by;
          head_ne_null = r.head_ne_null;
          no_null = rw (has-append, zx) zy;
          head_outside = rw (has-append, hx) hy;
          distinct = Distinct-delete elem xs ys r.distinct;
        },
        u.same,
        ground (arith, u.successor_at elem),
        ground (arith, u.predecessor_at elem),
      )
