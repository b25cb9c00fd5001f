-- ===== src/Dll/Ring.antt =====
-- What a ring of elements stands for: the list of the addresses behind its head.
use davros.Base.{
  ◌≡◌, ◌≢◌, refl, inl, inr, true, false, ◌||◌, List, [], ◌∷◌, ◌++◌, arith, has, Bool-cases,
}
use mathlib.Core.Path.{subst}
use mathlib.Core.List.{append-nil}
use davros.Dll.{Ptr, null, Heap}

-- From `a` the successors lead through `xs` to `b`, and the predecessors lead back.
abbrev pub Chain : Heap → Ptr → List Ptr → Ptr → Type 0
Chain h a [] b = ((h a).successor ≡ b) × ((h b).predecessor ≡ a)
Chain h a (x ∷ xs) b = ((h a).successor ≡ x) × ((h x).predecessor ≡ a) × Chain h x xs b

abbrev pub Distinct : List Ptr → Type 0
Distinct [] = Unit
Distinct (x ∷ xs) = (has x xs ≡ false) × Distinct xs

-- The ring behind `head` holds the elements `xs`, in this order.
pub record IsRing (h : Heap) (head : Ptr) (xs : List Ptr) : Type 0 where
  pub chain : Chain h head xs head
  pub head_ne_null : head ≢ null
  pub no_null : has null xs ≡ false
  pub head_outside : has head xs ≡ false
  pub distinct : Distinct xs

-- The two heaps differ in links only: key, kind and payload are the same everywhere.
abbrev pub SameData : Heap → Heap → Type 0
SameData h g =
    (a : Ptr)
    → ((g a).i32_key ≡ (h a).i32_key)
      × ((g a).u64_key ≡ (h a).u64_key)
      × ((g a).payload ≡ (h a).payload)
      × ((g a).payload_type ≡ (h a).payload_type)

-- The element in front of the end of a chain, and the one behind its start.
abbrev pub last_of : Ptr → List Ptr → Ptr
last_of a [] = a
last_of a (x ∷ xs) = last_of x xs

abbrev pub first_or : List Ptr → Ptr → Ptr
first_or [] b = b
first_or (x ∷ xs) b = x

pub has-append : (a : Ptr) (xs ys : List Ptr) → has a (xs ++ ys) ≡ (has a xs || has a ys)
has-append a [] ys = refl
has-append a (x ∷ xs) ys = ground (arith, has-append a xs ys)

module _ (h : Heap) where
  pub Chain-predecessor :
      (a : Ptr) (xs : List Ptr) (b : Ptr) → Chain h a xs b → (h b).predecessor ≡ last_of a xs
  Chain-predecessor a [] b c = c.1
  Chain-predecessor a (x ∷ xs) b c = Chain-predecessor x xs b c.2

  pub Chain-successor :
      (a : Ptr) (xs : List Ptr) (b : Ptr) → Chain h a xs b → (h a).successor ≡ first_or xs b
  Chain-successor a [] b c = c.0
  Chain-successor a (x ∷ xs) b c = c.0

  pub Chain-append :
      (a : Ptr) (xs : List Ptr) (x : Ptr) (ys : List Ptr) (b : Ptr)
      → Chain h a xs x
      → Chain h x ys b
      → Chain h a (xs ++ x ∷ ys) b
  Chain-append a [] x ys b c d = (c.0, c.1, d)
  Chain-append a (y ∷ xs) x ys b c d = (c.0, c.1, Chain-append y xs x ys b c.2 d)

  pub Chain-split :
      (a : Ptr) (xs : List Ptr) (x : Ptr) (ys : List Ptr) (b : Ptr)
      → Chain h a (xs ++ x ∷ ys) b
      → Chain h a xs x × Chain h x ys b
  Chain-split a [] x ys b c = ((c.0, c.1), c.2)
  Chain-split a (y ∷ xs) x ys b c = let (l, r) = Chain-split y xs x ys b c.2 in ((c.0, c.1, l), r)

-- A chain survives a change that spares the successors on it and the predecessors on it.
pub Chain-frame :
    (h g : Heap) (a : Ptr) (xs : List Ptr) (b : Ptr)
    → Chain h a xs b
    → ((p : Ptr) → has p (a ∷ xs) ≡ true → (g p).successor ≡ (h p).successor)
    → ((p : Ptr) → has p (b ∷ xs) ≡ true → (g p).predecessor ≡ (h p).predecessor)
    → Chain g a xs b
Chain-frame h g a [] b c s p = ground (arith, s a, p b)
Chain-frame h g a (x ∷ xs) b c s p = (
  ground (arith, s a),
  ground (arith, p x),
  Chain-frame h g x xs b c.2 (λ q m. s q (ground arith)) (λ q m. p q (ground arith)),
)

pub last_of-has : (a : Ptr) (xs : List Ptr) → has (last_of a xs) (a ∷ xs) ≡ true
last_of-has a [] = ground arith
last_of-has a (x ∷ xs) = ground (arith, last_of-has x xs)

pub Distinct-front : (xs ys : List Ptr) → Distinct (xs ++ ys) → Distinct xs
Distinct-front [] ys d = tt
Distinct-front (x ∷ xs) ys d = ground (arith, has-append x xs ys, Distinct-front xs ys d.1)

pub Distinct-back : (xs ys : List Ptr) → Distinct (xs ++ ys) → Distinct ys
Distinct-back [] ys d = d
Distinct-back (x ∷ xs) ys d = Distinct-back xs ys d.1

pub Distinct-apart :
    (a : Ptr) (xs ys : List Ptr) → Distinct (xs ++ ys) → has a xs ≡ true → has a ys ≡ false
Distinct-apart a [] ys d m = cc
Distinct-apart a (x ∷ xs) ys d m = elim (Bool-cases (has a xs)) [
  | inl e ↦ Distinct-apart a xs ys d.1 e
  | inr e ↦ ground (arith, has-append x xs ys)
]

pub Distinct-insert :
    (a : Ptr) (xs ys : List Ptr)
    → Distinct (xs ++ ys)
    → has a (xs ++ ys) ≡ false
    → Distinct (xs ++ a ∷ ys)
Distinct-insert a [] ys d m = (m, d)
Distinct-insert a (x ∷ xs) ys d m =
    ground (arith, has-append x xs ys, has-append x xs (a ∷ ys), Distinct-insert a xs ys d.1)

-- The part of a ring in front of a place, and the part behind it.
module _ (h : Heap) (head : Ptr) (xs : List Ptr) where
  pub ring_front :
      (ys : List Ptr) → Chain h head (xs ++ ys) head → Chain h head xs (first_or ys head)
  ring_front [] c = rw append-nil at c
  ring_front (y ∷ ys) c = (Chain-split h head xs y ys head c).0

  pub ring_back :
      (ys : List Ptr)
      → Chain h head (xs ++ ys) head
      → (y : Ptr) (zs : List Ptr) → ys ≡ y ∷ zs
      → Chain h y zs head
  ring_back ys c y zs e =
      (Chain-split h head xs y zs head (subst (λ l. Chain h head (xs ++ l) head) e c)).1
