-- ===== src/Davroska/Config/Slots.antt =====
-- The ring buffers that `dv_createqueues` makes.
use davros.Base.{
  ℕ, zero, suc, ◌+◌, ◌%◌, ◌^◌, ◌≤◌, ◌<◌, ◌≡◌, refl, ◌⊎◌, inl, inr, arith, ◌==◌, Bool-cases,
}
use davros.Run.{ok, panic, davroska, config_nslots_insufficient}
use davros.Davroska.State.{Os, Sizes, with_queue}
use davros.Davroska.Config.{create_queues, createqueues, extend, too_many}

-- The slots of `n` queues from `q` on.
abbrev pub total_slots : Os → (n q : ℕ) → ℕ
total_slots s zero q = 0
total_slots s (suc n) q = (s.queue q).nslots + total_slots s n (q + 1)

-- Of the queues, no more than their slots has changed: `n` queues from `q` on have slots of their own,
-- in the order of the queues, between slot `b` and slot `limit`.
pub record HasSlots (s t : Os) (n q b limit : ℕ) : Type 0 where
  pub same : (i : ℕ) → t.queue i ≡ record (s.queue i) { slots = (t.queue i).slots }
  pub before : (i : ℕ) → i < q → t.queue i ≡ s.queue i
  pub above : (i : ℕ) → q ≤ i → i < q + n → b ≤ (t.queue i).slots
  pub below : (i : ℕ) → q ≤ i → i < q + n → (t.queue i).slots + (t.queue i).nslots ≤ limit
  pub apart :
      (i j : ℕ)
      → q ≤ i
      → i < j
      → j < q + n
      → (t.queue i).slots + (t.queue i).nslots ≤ (t.queue j).slots

total-frame :
    (s t : Os) (n q : ℕ)
    → ((i : ℕ) → (t.queue i).nslots ≡ (s.queue i).nslots)
    → total_slots t n q ≡ total_slots s n q
total-frame s t zero q e = refl
total-frame s t (suc n) q e = ground (arith, e q, total-frame s t n (q + 1) e)

abbrev with_slots : Os → (q b : ℕ) → Os
with_slots s q b = with_queue q (λ r. record r { slots = b }) s

with_slots-nslots : (s : Os) (q b i : ℕ) → ((with_slots s q b).queue i).nslots ≡ (s.queue i).nslots
with_slots-nslots s q b i = ground arith

HasSlots-suc :
    (s t : Os) (n q b limit : ℕ)
    → b + (s.queue q).nslots ≤ limit
    → HasSlots (with_slots s q b) t n (q + 1) (b + (s.queue q).nslots) limit
    → HasSlots s t (suc n) q b limit
HasSlots-suc s t n q b limit fits h =
    let at_q : t.queue q ≡ record (s.queue q) { slots = b } =
      ground (arith, h.before q (omega arith)) in
    record {
      same = λ i. elim (Bool-cases (i == q)) [
        | inl e ↦ ground (arith, at_q)
        | inr e ↦ ground (arith, h.same i)
      ];
      before = λ i l. ground (arith, h.before i (omega arith));
      above = λ i l m. ground (arith, at_q, h.above i);
      below = λ i l m. ground (arith, at_q, h.below i);
      apart = λ i j l m k. ground (arith, at_q, h.above j, h.apart i j);
    }

pub create_queues_lem :
    (sz : Sizes) (n q b : ℕ) (s : Os)
    → sz.nslot + 1 < 2 ^ 15
    → ((i : ℕ) → (s.queue i).nslots < 2 ^ 15)
    → b ≤ sz.nslot + 1
    → ((t : Os) × (create_queues sz n q b s ≡ ok tt t)
        × (b + total_slots s n q ≤ sz.nslot + 1)
        × HasSlots s t n q b (sz.nslot + 1))
      ⊎ ((sz.nslot + 1 < b + total_slots s n q)
          × (create_queues sz n q b s ≡ panic (davroska config_nslots_insufficient)))
unfolding create_queues
create_queues_lem sz zero q b s small words h = inl (
  s,
  refl,
  omega arith,
  record {
    same = λ i. refl;
    before = λ i l. refl;
    above = λ i l m. ground arith;
    below = λ i l m. ground arith;
    apart = λ i j l m k. ground arith;
  },
)
create_queues_lem sz (suc n) q b s small words h =
    let m = (s.queue q).nslots in
    let last : (b + extend m) % 2 ^ 32 ≡ b + m = ground (arith, words q) in
    let total : total_slots (with_slots s q b) n (q + 1) ≡ total_slots s n (q + 1) =
      total-frame s (with_slots s q b) n (q + 1) (with_slots-nslots s q b) in
    elim (Bool-cases (too_many (b + m) sz.nslot)) [
      | inl e ↦ inr (ground (arith, words q), rw (last, e) refl)
      | inr e ↦
          let fits : b + m ≤ sz.nslot + 1 = ground (arith, words q) in
          elim (create_queues_lem sz n (q + 1) (b + m) (with_slots s q b) small
            (λ i. ground (arith, words i)) fits) [
              | inl (t, run, room, has) ↦
                  inl
                    (t, rw (last, e) run, ground (arith, total), HasSlots-suc s t n q b _ fits has)
              | inr (over, run) ↦ inr (ground (arith, total), rw (last, e) run)
            ]
    ]

-- If every queue has fewer than 2^15 slots and the array has fewer than 2^15 - 1, then either the
-- slots of all queues are no more than one above the number in the array, and the queues get slots
-- that do not overlap, in the order of the priorities, and end no more than one behind the array;
-- or they are more and davroska panics.
pub createqueues_lem :
    (sz : Sizes) (s : Os)
    → sz.nslot + 1 < 2 ^ 15
    → ((i : ℕ) → (s.queue i).nslots < 2 ^ 15)
    → ((t : Os) × (createqueues sz s ≡ ok tt t)
        × (total_slots s (sz.maxprio + 2) 0 ≤ sz.nslot + 1)
        × HasSlots s t (sz.maxprio + 2) 0 0 (sz.nslot + 1))
      ⊎ ((sz.nslot + 1 < total_slots s (sz.maxprio + 2) 0)
          × (createqueues sz s ≡ panic (davroska config_nslots_insufficient)))
unfolding createqueues
createqueues_lem sz s small words =
    elim (create_queues_lem sz (sz.maxprio + 2) 0 0 s small words (omega arith)) [
      | inl (t, run, room, has) ↦ inl (t, run, omega arith, has)
      | inr (over, run) ↦ inr (omega arith, run)
    ]
