-- ===== src/Strings/Copying.antt =====
-- `dv_memset32` and `dv_memcpy32`, also where the two arrays of a copy overlap.
use davros.Base.{ℕ, zero, suc, ◌+◌, ◌≤◌, ◌<◌, ◌≡◌, ◌≢◌, ◌⊎◌, inl, inr, refl, arith, update, ◌∙◌}
use davros.Strings.{Memory, memset32_inline, memset32, memcpy32}

update_self : (m : Memory) (i v j : ℕ) → i ≡ j → update m i v j ≡ v
update_self m i v j e = ground arith

update_ne : (m : Memory) (i v j : ℕ) → i ≢ j → update m i v j ≡ m j
update_ne m i v j ne = ground arith

-- Outside of the array at `d`, of `n` words.
abbrev pub Outside : (d n j : ℕ) → Type 0
Outside d n j = (j < d) ⊎ (d + n ≤ j)

pub memset32_lem :
    (d v n : ℕ) (m : Memory) (j : ℕ)
    → ((d ≤ j) × (j < d + n) × (((memset32 d v n m).1) j ≡ v))
      ⊎ (Outside d n j × (((memset32 d v n m).1) j ≡ m j))
unfolding memset32 memset32_inline
memset32_lem d v zero m j = inr (ground arith, refl)
memset32_lem d v (suc n) m j = elim (memset32_lem d v n (update m (d + n) v) j) [
  | inl (a, b, e) ↦ inl (a, omega arith, e)
  | inr (o, e) ↦
      let cases : (d + n ≡ j) ⊎ (d + n ≢ j) = omega arith in
      elim cases [
        | inl at ↦ inl (omega arith, omega arith, e ∙ update_self m (d + n) v j at)
        | inr ne ↦ inr (ground arith, e ∙ update_ne m (d + n) v j ne)
      ]
]

-- What lies outside of the target stays.
copied_elsewhere : (d s n : ℕ) (m : Memory) (j : ℕ) → Outside d n j → ((memcpy32 d s n m).1) j ≡ m j
unfolding memcpy32
copied_elsewhere d s zero m j o = refl
copied_elsewhere d s (suc n) m j o =
    copied_elsewhere d s n (update m (d + n) (m (s + n))) j (ground arith)
    ∙ update_ne m (d + n) (m (s + n)) j (ground arith)

copied_inside :
    (d s n : ℕ) (m : Memory) (i : ℕ)
    → ((s ≤ d) ⊎ (d + n ≤ s))
    → i < n
    → ((memcpy32 d s n m).1) (d + i) ≡ m (s + i)
unfolding memcpy32
copied_inside d s zero m i apart h = elim h [ ]
copied_inside d s (suc n) m i apart h =
    let m' : Memory = update m (d + n) (m (s + n)) in
    let cases : (i ≡ n) ⊎ (i < n) = ground arith in
    elim cases [
      | inl e ↦
          copied_elsewhere d s n m' (d + i) (ground arith)
          ∙ update_self m (d + n) (m (s + n)) (d + i) (omega arith)
          ∙ rw e refl
      | inr lt ↦
          copied_inside d s n m' i (ground arith) lt
          ∙ update_ne m (d + n) (m (s + n)) (s + i) (ground arith)
    ]

copied_address : (d s n : ℕ) (m : Memory) → (memcpy32 d s n m).0 ≡ d
unfolding memcpy32
copied_address d s zero m = refl
copied_address d s (suc n) m = copied_address d s n (update m (d + n) (m (s + n)))

-- If the array to copy does not begin behind the beginning of the target or the two do not overlap,
-- then after the copy the target has the words that the array had before, all other words of the
-- memory are unchanged, and the result is the target's address.
pub memcpy32_lem :
    (d s n : ℕ) (m : Memory)
    → ((s ≤ d) ⊎ (d + n ≤ s))
    → ((memcpy32 d s n m).0 ≡ d)
      × ((i : ℕ) → i < n → ((memcpy32 d s n m).1) (d + i) ≡ m (s + i))
      × ((j : ℕ) → Outside d n j → ((memcpy32 d s n m).1) j ≡ m j)
memcpy32_lem d s n m apart = (
  copied_address d s n m,
  (λ i h. copied_inside d s n m i apart h),
  (λ j o. copied_elsewhere d s n m j o),
)
