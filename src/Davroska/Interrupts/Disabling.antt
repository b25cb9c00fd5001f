-- ===== src/Davroska/Interrupts/Disabling.antt =====
-- Disabling a source of interrupts.
use davros.Base.{
  not, ℕ, ◌-◌, ◌^◌, ◌≡◌, refl, ◌∙◌, ap, inl, inr, Bool, true, ◌&&◌, ◌||◌, arith, leb, ◌==◌,
  Bool-cases, update, bit_and, one_at,
}
use davros.Run.{ok}
use davros.Davroska.Interrupts.{Irq, mask_of, Controller, on, not32, disable_irq}
use davros.Davroska.Interrupts.Lines.{
  on-bit_and, on-mask_of, all_below, of_all_entries, of_all_entries-true, IsSource,
}
use davros.Davroska.Interrupts.Switches.{same_source, same_source-number}

-- The masks of the table have 32 bits.
narrow : of_all_entries (λ i e. leb (mask_of e) (2 ^ 32 - 1)) ≡ true
unfolding of_all_entries all_below mask_of one_at
narrow = refl

not32-not32 : (m : ℕ) → leb m (2 ^ 32 - 1) ≡ true → not32 (not32 m) ≡ m
not32-not32 m h = ground arith

mask_twice : (i : ℕ) (e : Irq) → IsSource i e → not32 (not32 (mask_of e)) ≡ mask_of e
mask_twice i e is =
    not32-not32 (mask_of e)
      (of_all_entries-true (λ i e. leb (mask_of e) (2 ^ 32 - 1)) i e narrow is)

-- A register keeps of its bits the one of `e` alone.
only_bit : (m : ℕ → ℕ) → Irq → ℕ → ℕ
only_bit m e = update m e.idx (bit_and (m e.idx) (mask_of e))

only_bit-on :
    (m : ℕ → ℕ) (e f : Irq)
    → on (only_bit m e f.idx) f ≡ (on (m f.idx) f && (not (f.idx == e.idx) || same_source e f))
unfolding only_bit
only_bit-on m e f = elim (Bool-cases (e.idx == f.idx)) [
  | inl same ↦
      let at : e.idx ≡ f.idx = ground arith in
      rw same (
        ap (λ r. on (bit_and (m r) (mask_of e)) f) at
        ∙ ground (arith, on-bit_and (m f.idx) (mask_of e) f, on-mask_of e f))
  | inr other ↦ rw other (ground arith)
]

-- Disabling a source of the table does not disable it: the source itself stays as it was, and so do
-- those in other registers, but all others of its own register are disabled, in the hardware and in
-- the driver's record of the enabled sources.
pub disable_irq_lem :
    (i : ℕ) (e : Irq) (c : Controller)
    → IsSource i e
    → (d : Controller) × (disable_irq i c ≡ ok tt d)
      × ((j : ℕ) (f : Irq)
          → IsSource j f
          → let stays = not (f.idx == e.idx) || (j == i) in
            (on (d.lines f.idx) f ≡ (on (c.lines f.idx) f && stays))
            × (on (d.irq_enabled f.idx) f ≡ (on (c.irq_enabled f.idx) f && stays)))
unfolding disable_irq only_bit
disable_irq_lem i e c is = (
  record c { lines = only_bit c.lines e; irq_enabled = only_bit c.irq_enabled e },
  rw (is.0, is.1, mask_twice i e is) refl,
  λ j f js.
      let with_old = λ (old b : Bool). old && (not (f.idx == e.idx) || b) in
      let number = same_source-number i j e f is js in
      (
        only_bit-on c.lines e f ∙ ap (with_old (on (c.lines f.idx) f)) number,
        only_bit-on c.irq_enabled e f ∙ ap (with_old (on (c.irq_enabled f.idx) f)) number,
      ),
)
