-- ===== src/Dll/Keys.antt =====
-- A write of a priority key leaves the ring alone, and the order of the elements that it spares.
use davros.Base.{◌≡◌, false, List, [], ◌∷◌, arith, ◌==◌, has, if◌then◌else◌, update, ℕ}
use davros.Dll.{Ptr, Heap}
use davros.Dll.Ring.{IsRing, Chain-frame}
use davros.Dll.Walk.{All, Sorted}
use davros.Dll.Queue.{ByPriority}

unfoldable pub with_key : Heap → Ptr → ℕ → Heap
with_key h p v = update h p (record (h p) { i32_key = v })

pub i32_key-with_key :
    (h : Heap) (p : Ptr) (v : ℕ) (a : Ptr)
    → (with_key h p v a).i32_key ≡ (if p == a then v else (h a).i32_key)
unfolding with_key
i32_key-with_key h p v a = ground arith

pub links-with_key :
    (h : Heap) (p : Ptr) (v : ℕ) (a : Ptr)
    → ((with_key h p v a).successor ≡ (h a).successor)
      × ((with_key h p v a).predecessor ≡ (h a).predecessor)
      × ((with_key h p v a).payload ≡ (h a).payload)
unfolding with_key
links-with_key h p v a = ground arith

pub IsRing-with_key :
    (h : Heap) (p : Ptr) (v : ℕ) (head : Ptr) (xs : List Ptr)
    → IsRing h head xs
    → IsRing (with_key h p v) head xs
IsRing-with_key h p v head xs r = record {
  chain =
      Chain-frame h (with_key h p v) head xs head r.chain (λ a _. (links-with_key h p v a).0)
        (λ a _. (links-with_key h p v a).1);
  head_ne_null = r.head_ne_null;
  no_null = r.no_null;
  head_outside = r.head_outside;
  distinct = r.distinct;
}

All-with_key :
    (h : Heap) (p : Ptr) (v : ℕ) (x : Ptr) (xs : List Ptr)
    → (p == x) ≡ false
    → has p xs ≡ false
    → All (ByPriority h x) xs
    → All (ByPriority (with_key h p v) x) xs
All-with_key h p v x [] d o a = tt
All-with_key h p v x (y ∷ ys) d o a = (
  ground (arith, i32_key-with_key h p v x, i32_key-with_key h p v y),
  All-with_key h p v x ys d (ground arith) a.1,
)

pub Sorted-with_key :
    (h : Heap) (p : Ptr) (v : ℕ) (xs : List Ptr)
    → has p xs ≡ false
    → Sorted (ByPriority h) xs
    → Sorted (ByPriority (with_key h p v)) xs
Sorted-with_key h p v [] o s = tt
Sorted-with_key h p v (x ∷ xs) o s = (
  All-with_key h p v x xs (ground arith) (ground arith) s.0,
  Sorted-with_key h p v xs (ground arith) s.1,
)
