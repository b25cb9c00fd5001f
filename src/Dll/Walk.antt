-- ===== src/Dll/Walk.antt =====
-- The walk to the place of an insertion, and the ring after it, for any test that the walk makes.
use davros.Base.{
  ℕ, zero, suc, ◌<◌, ◌≡◌, ◌≢◌, refl, inl, inr, Bool, true, false, List, [], ◌∷◌, ◌++◌, arith, has,
  length, Bool-cases, if◌then◌else◌,
}
use mathlib.Core.Path.{sym, subst}
use davros.Run.{ok, ◌>>=◌}
use davros.Dll.{Ptr, null, Element, Heap, walk, dllinsertbefore}
use davros.Dll.Ring.{
  Chain, IsRing, SameData, last_of, first_or, has-append, Chain-predecessor, Chain-successor,
  last_of-has, ring_front,
}
use davros.Dll.Links.{load-ok}
use davros.Dll.Insert.{dllinsertbefore-Linked, Linked-IsRing}

abbrev pub All {ℓ} : {A : Type ℓ} → (A → Type 0) → List A → Type 0
All P [] = Unit
All P (x ∷ xs) = P x × All P xs

-- Each element of the list is related to all those behind it.
abbrev pub Sorted : (Ptr → Ptr → Type 0) → List Ptr → Type 0
Sorted R [] = Unit
Sorted R (x ∷ xs) = All (R x) xs × Sorted R xs

-- The elements that pass the test, up to the first that fails, and the others.
abbrev pub front : (Ptr → Bool) → List Ptr → List Ptr
front p [] = []
front p (y ∷ ys) = if p y then y ∷ front p ys else []

abbrev pub rest : (Ptr → Bool) → List Ptr → List Ptr
rest p [] = []
rest p (y ∷ ys) = if p y then rest p ys else y ∷ ys

pub front-append-rest : (p : Ptr → Bool) (xs : List Ptr) → front p xs ++ rest p xs ≡ xs
front-append-rest p [] = refl
front-append-rest p (y ∷ ys) = elim (Bool-cases (p y)) [
  | inl e ↦ rw (e, front-append-rest p ys)
  | inr e ↦ rw e
]

pub All-front : (p : Ptr → Bool) (xs : List Ptr) → All (λ y. p y ≡ true) (front p xs)
All-front p [] = tt
All-front p (y ∷ ys) = elim (Bool-cases (p y)) [
  | inl e ↦ rw e (e, All-front p ys)
  | inr e ↦ rw e tt
]

pub All-imp : {P Q : Ptr → Type 0} (xs : List Ptr) → ((x : Ptr) → P x → Q x) → All P xs → All Q xs
All-imp [] f a = tt
All-imp (x ∷ xs) f a = (f x a.0, All-imp xs f a.1)

-- In a sorted list the test fails for all the others, if it goes on failing along the order.
pub All-rest :
    (R : Ptr → Ptr → Type 0) (p : Ptr → Bool)
    → ((x y : Ptr) → R x y → p x ≡ false → p y ≡ false)
    → (xs : List Ptr) → Sorted R xs
    → All (λ y. p y ≡ false) (rest p xs)
All-rest R p f [] s = tt
All-rest R p f (y ∷ ys) s = elim (Bool-cases (p y)) [
  | inl e ↦ rw e (All-rest R p f ys s.1)
  | inr e ↦ rw e (e, All-imp ys (λ z r. f y z r e) s.0)
]

pub All-insert :
    (P : Ptr → Type 0) (xs : List Ptr) (e : Ptr) (ys : List Ptr)
    → P e
    → All P (xs ++ ys)
    → All P (xs ++ e ∷ ys)
All-insert P [] e ys h a = (h, a)
All-insert P (x ∷ xs) e ys h a = (a.0, All-insert P xs e ys h a.1)

pub Sorted-insert :
    (R : Ptr → Ptr → Type 0) (xs : List Ptr) (e : Ptr) (ys : List Ptr)
    → Sorted R (xs ++ ys)
    → All (λ x. R x e) xs
    → All (R e) ys
    → Sorted R (xs ++ e ∷ ys)
Sorted-insert R [] e ys s a b = (b, s)
Sorted-insert R (x ∷ xs) e ys s a b =
    (All-insert (R x) xs e ys a.0 s.0, Sorted-insert R xs e ys s.1 a.1 b)

module _ (stay : Element → Element → Bool) (h : Heap) (head elem : Ptr) where
  abbrev pub stays : Ptr → Bool
  stays y = stay (h elem) (h y)

  -- With more rounds than elements the walk ends at the first one that fails the test, or at the head.
  walk-rest :
      (fuel : ℕ) (a : Ptr) (xs : List Ptr)
      → Chain h a xs head
      → length xs < fuel
      → head ≢ null
      → elem ≢ null
      → has null xs ≡ false
      → stays head ≡ false
      → walk stay fuel (first_or xs head) elem h ≡ ok (first_or (rest stays xs) head) h
  unfolding walk
  walk-rest zero a xs c f n m o s = elim f [ ]
  walk-rest (suc fuel) a [] c f n m o s = rw (load-ok h elem elem m, load-ok h head head n, s)
  walk-rest (suc fuel) a (x ∷ xs) c f n m o s =
      let x_ne : x ≢ null = ground arith in
      rw (load-ok h elem elem m, load-ok h x x x_ne)
        (elim (Bool-cases (stays x)) [
          | inl e ↦
              rw (e, Chain-successor h x xs head c.2)
                (walk-rest fuel x xs c.2 (omega arith) n m (ground arith) s)
          | inr e ↦ rw e
        ])

  -- The whole insertion: the walk from the first element, and the links.
  pub walk_insert-IsRing :
      (fuel : ℕ) (xs : List Ptr)
      → IsRing h head xs
      → elem ≢ null
      → has elem (head ∷ xs) ≡ false
      → stays head ≡ false
      → length xs < fuel
      → (g : Heap) × (((walk stay fuel (h head).successor elem) >>= λ e. dllinsertbefore e elem) h
          ≡ ok tt g)
        × IsRing g head (front stays xs ++ elem ∷ rest stays xs)
        × SameData h g
        × ((g elem).predecessor ≡ last_of head (front stays xs))
  walk_insert-IsRing fuel xs r n out s f =
      let split = front-append-rest stays xs in
      let ring : IsRing h head (front stays xs ++ rest stays xs) =
        subst (IsRing h head) (sym split) r in
      let place = first_or (rest stays xs) head in
      let before = last_of head (front stays xs) in
      let out' : has elem (head ∷ (front stays xs ++ rest stays xs)) ≡ false =
        subst (λ l. has elem (head ∷ l) ≡ false) (sym split) out in
      let c = ring_front h head (front stays xs) (rest stays xs) ring.chain in
      let (g, run, l) =
        dllinsertbefore-Linked h before elem place
          (place_ne_null (rest stays xs) (front stays xs) ring) n
          (before_ne_null (front stays xs) (rest stays xs) ring)
          (elem_ne_place (rest stays xs) (front stays xs) out')
          (elem_ne_before (front stays xs) (rest stays xs) out')
          (Chain-predecessor h head (front stays xs) place c) in
      (
        g,
        rw
            (
              Chain-successor h head xs head r.chain,
              walk-rest fuel head xs r.chain f r.head_ne_null n r.no_null s,
            )
            run,
        Linked-IsRing h g head elem (front stays xs) (rest stays xs) ring n out' l,
        l.same,
        ground (arith, l.predecessor_at elem, elem_ne_place (rest stays xs) (front stays xs) out'),
      )
    where
      place_ne_null : (ys zs : List Ptr) → IsRing h head (zs ++ ys) → first_or ys head ≢ null
      place_ne_null [] zs q = q.head_ne_null
      place_ne_null (y ∷ ys) zs q = ground (arith, q.no_null, has-append null zs (y ∷ ys))

      before_ne_null : (zs ys : List Ptr) → IsRing h head (zs ++ ys) → last_of head zs ≢ null
      before_ne_null zs ys q =
          ground (arith, q.no_null, q.head_ne_null, has-append null zs ys, last_of-has head zs)

      elem_ne_place :
          (ys zs : List Ptr) → has elem (head ∷ (zs ++ ys)) ≡ false → elem ≢ first_or ys head
      elem_ne_place [] zs o = ground arith
      elem_ne_place (y ∷ ys) zs o = ground (arith, has-append elem zs (y ∷ ys))

      elem_ne_before :
          (zs ys : List Ptr) → has elem (head ∷ (zs ++ ys)) ≡ false → elem ≢ last_of head zs
      elem_ne_before zs ys o = ground (arith, has-append elem zs ys, last_of-has head zs)
