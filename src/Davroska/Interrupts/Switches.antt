-- ===== src/Davroska/Interrupts/Switches.antt =====
-- Configuring and enabling a source of interrupts.
use davros.Base.{
  ℕ, zero, suc, ◌+◌, ◌≡◌, refl, ◌∙◌, ap, sym, inl, inr, Bool, true, false, ◌&&◌, ◌||◌, Option, none,
  some, arith, ltb, ◌==◌, Bool-cases, update, get_elem?, bit_or,
}
use davros.Run.{ok}
use davros.Davroska.Interrupts.{
  Irq, irq, irq_list, mask_of, Controller, on, at_least, constrain, max_intlevel, add_to_levels,
  config_irq, enable_irq,
}
use davros.Davroska.Interrupts.Lines.{on-bit_or, on-mask_of, same_number, IsSource, sources_apart}
use davros.Davroska.Interrupts.Levels.{IsMasked, IsLocked}

abbrev pub same_source : Irq → Irq → Bool
same_source e f = (f.idx == e.idx) && (f.bit == e.bit)

abbrev entry : Option Irq → Irq
entry none = irq 0 0
entry (some e) = e

same_entry : (i j : ℕ) (e f : Irq) → IsSource i e → IsSource j f → i ≡ j → e ≡ f
same_entry i j e f is js same = ap entry (sym is.0 ∙ ap (get_elem? irq_list) same ∙ js.0)

same_source_lem :
    (i j : ℕ) (e f : Irq)
    → (e.idx ≡ f.idx → e.bit ≡ f.bit → i ≡ j)
    → (i ≡ j → (e.idx ≡ f.idx) × (e.bit ≡ f.bit))
    → same_source e f ≡ (j == i)
same_source_lem i j e f to from = ground (arith, to, from)

-- Two entries of the table are of one source only when they are one entry.
pub same_source-number :
    (i j : ℕ) (e f : Irq) → IsSource i e → IsSource j f → same_source e f ≡ (j == i)
same_source-number i j e f is js =
    same_source_lem i j e f (sources_apart i j e f is js)
      (λ same. let one = same_entry i j e f is js same in (ap Irq.idx one, ap Irq.bit one))

-- A bit of register `e.idx` is set.
abbrev set_bit : (m : ℕ → ℕ) → Irq → ℕ → ℕ
set_bit m e = update m e.idx (bit_or (m e.idx) (mask_of e))

set_bit-on :
    (m : ℕ → ℕ) (e f : Irq) → on (set_bit m e f.idx) f ≡ (on (m f.idx) f || same_source e f)
set_bit-on m e f = elim (Bool-cases (e.idx == f.idx)) [
  | inl same ↦
      let at : e.idx ≡ f.idx = ground arith in
      rw same (
        ap (λ r. on (bit_or (m r) (mask_of e)) f) at
        ∙ ground (arith, on-bit_or (m f.idx) (mask_of e) f, on-mask_of e f))
  | inr other ↦ rw other (ground arith)
]

-- The loop over the levels.
add_to_levels_lem :
    (n : ℕ) (e : Irq) (c : Controller)
    → (masks : ℕ → ℕ → ℕ) × (add_to_levels n e c ≡ ok tt (record c { levelmasks = masks }))
      × ((l : ℕ) (f : Irq)
          → on (masks l f.idx) f ≡ (on (c.levelmasks l f.idx) f || (ltb l n && same_source e f)))
unfolding add_to_levels
add_to_levels_lem zero e c = (c.levelmasks, refl, λ l f. ground arith)
add_to_levels_lem (suc n) e c =
    let (masks, runs, sets) = add_to_levels_lem n e c in
    (
      update masks n (set_bit (masks n) e),
      rw runs refl,
      λ l f. ground (arith, sets l f, set_bit-on (masks n) e f),
    )

abbrev unlocked : Controller → ℕ → Bool
unlocked c j = at_least (c.irq_level j) c.currentlocklevel

-- The level of the source that stands at `j`, when it is the one at `i`.
level_of_same :
    (c : Controller) (i j : ℕ) (e f : Irq)
    → IsSource i e
    → IsSource j f
    → same_source e f ≡ true
    → unlocked c j ≡ unlocked c i
level_of_same c i j e f is js same =
    let number : (j == i) ≡ true = sym (same_source-number i j e f is js) ∙ same in
    ap (unlocked c) (same_number j i number)

let_in_lem :
    (enabled lines same at : Bool)
    → (same ≡ true → at ≡ true)
    → lines ≡ (enabled && at)
    → (lines || same) ≡ ((enabled || same) && at)
let_in_lem enabled lines same at h is = ground arith

kept_out_lem :
    (enabled lines same at : Bool)
    → (same ≡ true → at ≡ false)
    → lines ≡ (enabled && at)
    → lines ≡ ((enabled || same) && at)
kept_out_lem enabled lines same at h is = ground arith

module _ (c : Controller) (i j : ℕ) (e f : Irq) (is : IsSource i e) (js : IsSource j f) where
  let_in :
      unlocked c i ≡ true
      → on (c.lines f.idx) f ≡ (on (c.irq_enabled f.idx) f && unlocked c j)
      → (on (c.lines f.idx) f || same_source e f)
        ≡ ((on (c.irq_enabled f.idx) f || same_source e f) && unlocked c j)
  let_in free =
      let_in_lem (on (c.irq_enabled f.idx) f) (on (c.lines f.idx) f) (same_source e f)
        (unlocked c j) (λ same. level_of_same c i j e f is js same ∙ free)

  kept_out :
      unlocked c i ≡ false
      → on (c.lines f.idx) f ≡ (on (c.irq_enabled f.idx) f && unlocked c j)
      → on (c.lines f.idx) f ≡ ((on (c.irq_enabled f.idx) f || same_source e f) && unlocked c j)
  kept_out held =
      kept_out_lem (on (c.irq_enabled f.idx) f) (on (c.lines f.idx) f) (same_source e f)
        (unlocked c j) (λ same. level_of_same c i j e f is js same ∙ held)

-- If a source of the table has no level yet and the masks of the levels let through the sources of
-- the level and above, then configuring the source returns, gives it, and no other, the given
-- level, brought between 0 and 7, changes nothing in the hardware and of what is enabled, and the
-- masks again let through the sources of the level and above.
pub config_irq_lem :
    (i level : ℕ) (e : Irq) (c : Controller)
    → IsSource i e
    → c.irq_level i ≡ none
    → IsMasked c
    → (d : Controller) × (config_irq i level c ≡ ok tt d)
      × (d.irq_level ≡ update c.irq_level i (some (constrain max_intlevel level)))
      × (d.irq_enabled ≡ c.irq_enabled)
      × (d.lines ≡ c.lines)
      × IsMasked d
unfolding config_irq
config_irq_lem i level e c is unset m =
    let l = constrain max_intlevel level in
    let c1 : Controller = record c { irq_level = update c.irq_level i (some l) } in
    let (masks, runs, sets) = add_to_levels_lem (l + 1) e c1 in
    (
      record c1 { levelmasks = masks },
      rw (is.0, is.1, runs) refl,
      refl,
      refl,
      refl,
      record {
        masked = λ j k f js low le.
            sets k f
            ∙ ground (arith, m.masked j k f js low le, same_source-number i j e f is js, unset);
      },
    )

-- If the hardware lets through exactly the sources that are enabled and not locked, then enabling a
-- source of the table, locked or not, returns: the enabled sources are those of before and this
-- one, all levels are the same, and the hardware again lets through exactly the sources that are
-- enabled and not locked.
pub enable_irq_lem :
    (i : ℕ) (e : Irq) (c : Controller)
    → IsSource i e
    → IsLocked c
    → (d : Controller) × (enable_irq i c ≡ ok tt d)
      × ((j : ℕ) (f : Irq)
          → IsSource j f
          → on (d.irq_enabled f.idx) f ≡ (on (c.irq_enabled f.idx) f || (j == i)))
      × (d.irq_level ≡ c.irq_level)
      × (d.currentlocklevel ≡ c.currentlocklevel)
      × IsLocked d
unfolding enable_irq
enable_irq_lem i e c is h =
    let enabled = set_bit c.irq_enabled e in
    let c1 : Controller = record c { irq_enabled = enabled } in
    let marked = λ (j : ℕ) (f : Irq) (js : IsSource j f).
      set_bit-on c.irq_enabled e f
      ∙ ap (λ b. on (c.irq_enabled f.idx) f || b) (same_source-number i j e f is js) in
    elim (Bool-cases (at_least (c.irq_level i) c.currentlocklevel)) [
      | inl free ↦ (
        record c1 { lines = set_bit c.lines e },
        rw (is.0, is.1, free) refl,
        marked,
        refl,
        refl,
        record {
          locked = λ j f js low.
              set_bit-on c.lines e f
              ∙ let_in c i j e f is js free (h.locked j f js low)
              ∙ ap (λ b. b && unlocked c j) (sym (set_bit-on c.irq_enabled e f));
        },
      )
      | inr held ↦ (
        c1,
        rw (is.0, is.1, held) refl,
        marked,
        refl,
        refl,
        record {
          locked = λ j f js low.
              kept_out c i j e f is js held (h.locked j f js low)
              ∙ ap (λ b. b && unlocked c j) (sym (set_bit-on c.irq_enabled e f));
        },
      )
    ]
