-- ===== src/Allocator/Search.antt =====
-- The search of `dv_allocate_obj`: round the table once, from the object after the last one found.
use davros.Base.{
  ℕ, zero, suc, ◌+◌, ◌≤◌, ◌<◌, ◌≡◌, ◌⊎◌, inl, inr, Bool, true, false, none, some, arith, leb,
  Bool-cases, if◌then◌else◌,
}
use davros.Allocator.{find_free}

abbrev pub next_of : (n obj : ℕ) → ℕ
next_of n obj = if leb n (obj + 1) then 0 else obj + 1

module _ (n : ℕ) (is_free : ℕ → Bool) where
  -- What is found is a free object of the table, with the one behind it to go on from.
  pub find_free_sound :
      (rounds obj i next : ℕ)
      → obj < n
      → find_free n is_free rounds obj ≡ some (i, next)
      → (i < n) × (is_free i ≡ true) × (next ≡ next_of n i) × (next < n)
  unfolding find_free
  find_free_sound zero obj i next a e = cc
  find_free_sound (suc rounds) obj i next a e = elim (Bool-cases (is_free obj)) [
    | inl f ↦ ground arith
    | inr f ↦ find_free_sound rounds (next_of n obj) i next (ground arith) (ground arith)
  ]

  -- If nothing is found in some rounds, none of the objects passed is free.
  pub find_free_complete :
      (rounds obj j : ℕ)
      → obj < n
      → j < n
      → find_free n is_free rounds obj ≡ none
      → ((obj ≤ j) × (j < obj + rounds)) ⊎ (j + n < obj + rounds)
      → is_free j ≡ false
  unfolding find_free
  find_free_complete zero obj j a b e w = absurd (omega arith)
  find_free_complete (suc rounds) obj j a b e w = elim (Bool-cases (is_free obj)) [
    | inl f ↦ ground arith
    | inr f ↦ ground (arith, find_free_complete rounds (next_of n obj) j)
  ]
