-- ===== src/Allocator/Count.antt =====
-- The allocator's count of free objects is right, and stays so.
use davros.Base.{
  ℕ, zero, suc, ◌+◌, ◌-◌, ◌≤◌, ◌<◌, ◌≡◌, ◌⊎◌, refl, sym, inl, inr, Bool, true, false, Option, none,
  some, arith, leb, update, Bool-cases, if◌then◌else◌,
}
use davros.Allocator.{ObjAllocator, init_allocator, find_free, allocate_obj, deallocate_obj}
use davros.Allocator.Search.{find_free_sound, find_free_complete}

-- How many of the first `n` objects are free.
abbrev pub count_free : (ℕ → Bool) → ℕ → ℕ
count_free is_free zero = 0
count_free is_free (suc n) = (if is_free n then 1 else 0) + count_free is_free n

-- The allocator of a table of `n` objects, of which those are free that `is_free` says.
pub record IsAllocator (a : ObjAllocator) (n : ℕ) (is_free : ℕ → Bool) : Type 0 where
  pub counted : a.n_free ≡ count_free is_free n
  pub next_in_range : a.next ≤ n - 1

count_free-update_ge :
    (is_free : ℕ → Bool) (b : Bool) (i n : ℕ)
    → n ≤ i
    → count_free (update is_free i b) n ≡ count_free is_free n
count_free-update_ge is_free b i zero h = refl
count_free-update_ge is_free b i (suc n) h = ground (arith, count_free-update_ge is_free b i n)

count_free-take :
    (is_free : ℕ → Bool) (i n : ℕ)
    → i < n
    → is_free i ≡ true
    → count_free (update is_free i false) n + 1 ≡ count_free is_free n
count_free-take is_free i zero h f = elim h [ ]
count_free-take is_free i (suc n) h f =
    ground (arith, count_free-take is_free i n, count_free-update_ge is_free false i n)

count_free-give :
    (is_free : ℕ → Bool) (i n : ℕ)
    → i < n
    → is_free i ≡ false
    → count_free (update is_free i true) n ≡ count_free is_free n + 1
count_free-give is_free i zero h f = elim h [ ]
count_free-give is_free i (suc n) h f =
    ground (arith, count_free-give is_free i n, count_free-update_ge is_free true i n)

count_free-some :
    (is_free : ℕ → Bool) (n : ℕ) → 0 < count_free is_free n → (j : ℕ) × (j < n) × (is_free j ≡ true)
count_free-some is_free zero h = absurd (omega arith)
count_free-some is_free (suc n) h = elim (Bool-cases (is_free n)) [
  | inl f ↦ (n, omega arith, f)
  | inr f ↦ let (j, l, g) = count_free-some is_free n (ground arith) in (j, omega arith, g)
]

count_free-all : (n : ℕ) → count_free (λ _. true) n ≡ n
count_free-all zero = refl
count_free-all (suc n) = omega (arith, count_free-all n)

-- A new allocator has the right count and a next index in range for a table in which every object
-- is free.
pub init_allocator-IsAllocator : (n : ℕ) → IsAllocator (init_allocator n) n (λ _. true)
unfolding init_allocator
init_allocator-IsAllocator n = record {
  counted = sym (count_free-all n);
  next_in_range = omega arith;
}

module _ (a : ObjAllocator) (n : ℕ) (is_free : ℕ → Bool) (w : IsAllocator a n is_free) where
  search_finds :
      0 < a.n_free → (i : ℕ) × (next : ℕ) × (find_free n is_free n a.next ≡ some (i, next))
  search_finds h =
      let (j, l, f) = count_free-some is_free n (ground (arith, w.counted)) in
      found (find_free n is_free n a.next) refl j l f
    where
      found :
          (o : Option (ℕ × ℕ))
          → find_free n is_free n a.next ≡ o
          → (j : ℕ) → j < n
          → is_free j ≡ true
          → (i : ℕ) × (next : ℕ) × (find_free n is_free n a.next ≡ some (i, next))
      found none e j l f = absurd (
          ground (
            arith,
            w.next_in_range,
            find_free_complete n is_free n a.next j (omega (arith, w.next_in_range)) l e,
          ))
      found (some (i, next)) e j l f = (i, next, e)

  -- If the allocator's count is the number of free objects and its next index is in the table, an
  -- allocation fails, and changes nothing, exactly if no object is free. Else it answers a free
  -- object of the table, and count and index are right again once that object is taken.
  pub allocate_obj_lem :
      ((allocate_obj a n is_free ≡ (a, none)) × (count_free is_free n ≡ 0))
      ⊎ ((b : ObjAllocator) × (i : ℕ) × (allocate_obj a n is_free ≡ (b, some i))
          × (i < n)
          × (is_free i ≡ true)
          × IsAllocator b n (update is_free i false))
  unfolding allocate_obj
  allocate_obj_lem = elim (Bool-cases (leb a.n_free 0)) [
    | inl e ↦ inl (rw e, ground (arith, w.counted))
    | inr e ↦
        let (i, next, found) = search_finds (ground arith) in
        let (l, f, _, m) =
          find_free_sound n is_free n a.next i next
            (ground (arith, w.next_in_range, w.counted, count_free-some is_free n)) found in
        inr (
          record { n_free = a.n_free - 1; next = next },
          i,
          rw (e, found),
          l,
          f,
          record {
            counted = omega (arith, w.counted, count_free-take is_free i n l f);
            next_in_range = omega arith;
          },
        )
  ]

  -- If an allocator's count and next index are right and an object of its table is taken, then
  -- giving the object back makes them right for the table in which it is free.
  pub deallocate_obj-IsAllocator :
      (i : ℕ) → i < n → is_free i ≡ false → IsAllocator (deallocate_obj a) n (update is_free i true)
  unfolding deallocate_obj
  deallocate_obj-IsAllocator i l f = record {
    counted = omega (arith, w.counted, count_free-give is_free i n l f);
    next_in_range = w.next_in_range;
  }
