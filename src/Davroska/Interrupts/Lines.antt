-- ===== src/Davroska/Interrupts/Lines.antt =====
-- Which interrupts the hardware lets through, with the levels that the driver adds.
use davros.Base.{
  ℕ, zero, suc, ◌+◌, ◌≤◌, ◌<◌, ◌≡◌, refl, ◌∙◌, ap, sym, inl, inr, Bool, true, false, not, ◌&&◌,
  ◌||◌, Option, none, some, List, [], ◌∷◌, arith, ltb, ◌==◌, if◌then◌else◌, Bool-cases, length,
  get_elem?, bit_and, bit_or, digit, digit-bit_and, digit-bit_or, digit-one_at, digit-lt,
  digit-zero, bit_and-one_at,
}
use davros.Davroska.Interrupts.{Irq, irq_list, mask_of, on}

on-digit : (m : ℕ) (e : Irq) → on m e ≡ not (digit e.bit m == 0)
unfolding mask_of
on-digit m e = ap not (bit_and-one_at e.bit m)

pub on-bit_and : (a b : ℕ) (e : Irq) → on (bit_and a b) e ≡ (on a e && on b e)
on-bit_and a b e =
    on-digit (bit_and a b) e
    ∙ ground (
      arith,
      digit-bit_and e.bit a b,
      digit-lt e.bit a,
      digit-lt e.bit b,
      on-digit a e,
      on-digit b e,
    )

pub on-bit_or : (a b : ℕ) (e : Irq) → on (bit_or a b) e ≡ (on a e || on b e)
on-bit_or a b e =
    on-digit (bit_or a b) e
    ∙ ground (
      arith,
      digit-bit_or e.bit a b,
      digit-lt e.bit a,
      digit-lt e.bit b,
      on-digit a e,
      on-digit b e,
    )

pub on-mask_of : (f e : Irq) → on (mask_of f) e ≡ (e.bit == f.bit)
unfolding mask_of
on-mask_of f e = on-digit (mask_of f) e ∙ ground (arith, digit-one_at e.bit f.bit)

pub on-nothing : (e : Irq) → on 0 e ≡ false
on-nothing e = on-digit 0 e ∙ ground (arith, digit-zero e.bit)

-- Where a source stands in the table.
position : Irq → List Irq → ℕ
position e [] = 0
position e (f ∷ fs) = if (e.idx == f.idx) && (e.bit == f.bit) then 0 else position e fs + 1

unfoldable pub all_below : ℕ → (ℕ → Bool) → Bool
all_below zero p = true
all_below (suc n) p = p n && all_below n p

all_below-true : (n : ℕ) (p : ℕ → Bool) (x : ℕ) → all_below n p ≡ true → x < n → p x ≡ true
unfolding all_below
all_below-true zero p x h lt = elim lt [ ]
all_below-true (suc n) p x h lt = ground (arith, all_below-true n p x)

beyond : {A : Type 0} (xs : List A) (i : ℕ) → length xs ≤ i → get_elem? xs i ≡ none
beyond [] i h = refl
beyond (x ∷ xs) zero h = elim h [ ]
beyond (x ∷ xs) (suc i) h = beyond xs i (omega arith)

-- The source with number `i`; the entry that ends the table is none.
abbrev pub IsSource : (i : ℕ) → Irq → Type 0
IsSource i e = (get_elem? irq_list i ≡ some e) × (ltb e.idx 3 ≡ true)

-- A test of an entry, where there is one.
abbrev where_some : (Irq → Bool) → Option Irq → Bool
where_some p none = true
where_some p (some e) = p e

pub same_number : (j i : ℕ) → (j == i) ≡ true → j ≡ i
same_number j i h = ground arith

below : (i : ℕ) → ltb i 24 ≡ true → i < 24
below i h = ground arith

not_below : (i : ℕ) → ltb i 24 ≡ false → 24 ≤ i
not_below i h = ground arith

missing : {e : Irq} (b : Bool) → none ≡ some e → b ≡ true
missing b h = ground arith

-- A test of all the entries of the table.
unfoldable pub of_all_entries : (ℕ → Irq → Bool) → Bool
of_all_entries p = all_below 24 (λ i. where_some (p i) (get_elem? irq_list i))

pub of_all_entries-true :
    (p : ℕ → Irq → Bool) (i : ℕ) (e : Irq) → of_all_entries p ≡ true → IsSource i e → p i e ≡ true
unfolding of_all_entries
of_all_entries-true p i e all is = elim (Bool-cases (ltb i 24)) [
  | inl low ↦
      ap (where_some (p i)) (sym is.0)
      ∙ all_below-true 24 (λ j. where_some (p j) (get_elem? irq_list j)) i all (below i low)
  | inr high ↦ missing (p i e) (sym (beyond irq_list i (not_below i high)) ∙ is.0)
]

at_its_position : of_all_entries (λ i e. position e irq_list == i) ≡ true
unfolding of_all_entries all_below position
at_its_position = refl

position_lem : (i : ℕ) (e : Irq) → IsSource i e → position e irq_list ≡ i
position_lem i e is =
    same_number (position e irq_list) i
      (of_all_entries-true (λ i e. position e irq_list == i) i e at_its_position is)

-- Two sources of one register have different bits.
pub sources_apart :
    (i j : ℕ) (e f : Irq) → IsSource i e → IsSource j f → e.idx ≡ f.idx → e.bit ≡ f.bit → i ≡ j
sources_apart i j e f is js a b =
    sym (position_lem i e is)
    ∙ ap (λ (p : ℕ × ℕ). position (record { idx = p.0; bit = p.1 }) irq_list) (λ t. (a t, b t))
    ∙ position_lem j f js
