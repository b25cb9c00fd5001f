-- ===== src/Davroska/Interrupts/Levels.antt =====
-- The levels of interrupts: what the driver keeps true of the hardware's registers.
use davros.Base.{
  ℕ, zero, suc, ◌-◌, ◌^◌, ◌≤◌, ◌<◌, ◌≡◌, refl, ◌∙◌, ap, sym, inl, inr, true, false, not, ◌&&◌, ◌||◌,
  none, some, arith, ltb, same_ref, if◌then◌else◌, Bool-cases, bit_and, bit_or,
}
use davros.Run.{ok}
use davros.Davroska.Interrupts.{
  Irq, irq, Controller, on, not32, at_least, constrain, set_register, setirqlevel,
  init_interrupt_controller, write_disable,
}
use davros.Davroska.Interrupts.Lines.{
  on-bit_and, on-bit_or, on-nothing, of_all_entries, of_all_entries-true, all_below, IsSource,
}

-- The masks of the levels let through the sources of the level and above.
pub record IsMasked (c : Controller) : Type 0 where
  pub masked :
      (i l : ℕ) (e : Irq)
      → IsSource i e
      → e.idx < 3
      → l ≤ 8
      → on (c.levelmasks l e.idx) e ≡ at_least (c.irq_level i) (some l)

-- The hardware lets through the sources that are enabled and whose level is not locked.
pub record IsLocked (c : Controller) : Type 0 where
  pub locked :
      (i : ℕ) (e : Irq)
      → IsSource i e
      → e.idx < 3
      → on (c.lines e.idx) e
        ≡ (on (c.irq_enabled e.idx) e && at_least (c.irq_level i) c.currentlocklevel)

constrain-le : (lvl : ℕ) → constrain 8 lvl ≤ 8
unfolding constrain
constrain-le lvl = ground arith

-- A register after `set_register`.
abbrev let_through : (lines enabled mask : ℕ) → ℕ
let_through lines enabled mask = bit_or (bit_and lines (not32 (2 ^ 32 - 1))) (bit_and enabled mask)

let_through-on : (a b m : ℕ) (e : Irq) → on (let_through a b m) e ≡ (on b e && on m e)
let_through-on a b m e = ground (
  arith,
  on-bit_or (bit_and a 0) (bit_and b m) e,
  on-bit_and a 0 e,
  on-bit_and b m e,
  on-nothing e,
)

-- The loop of `setirqlevel`.
abbrev registers : (l : ℕ) → Controller → Controller
registers l c = set_register l 2 (set_register l 1 (set_register l 0 c))

registers-on :
    (l reg bit : ℕ) (c : Controller)
    → reg < 3
    → on ((registers l c).lines reg) (irq reg bit)
      ≡ (on (c.irq_enabled reg) (irq reg bit) && on (c.levelmasks l reg) (irq reg bit))
registers-on l zero b c h =
    let_through-on (c.lines 0) (c.irq_enabled 0) (c.levelmasks l 0) (irq 0 b)
registers-on l (suc zero) b c h =
    let_through-on (c.lines 1) (c.irq_enabled 1) (c.levelmasks l 1) (irq 1 b)
registers-on l (suc (suc zero)) b c h =
    let_through-on (c.lines 2) (c.irq_enabled 2) (c.levelmasks l 2) (irq 2 b)
registers-on l (suc (suc (suc r))) b c h = let no : ⊥ = omega arith in elim no [ ]

abbrev at_level : (l : ℕ) → Controller → Controller
at_level l c = registers l (record c { currentlocklevel = some l })

at_level-IsLocked : (l : ℕ) (c : Controller) → l ≤ 8 → IsMasked c → IsLocked (at_level l c)
at_level-IsLocked l c h m = record {
  locked = λ i e is low.
      registers-on l e.idx e.bit (record c { currentlocklevel = some l }) low
      ∙ ap (λ b. on (c.irq_enabled e.idx) e && b) (m.masked i l e is low h);
}

-- If the masks of the levels let through the sources of the level and above, and the hardware lets
-- through exactly the sources that are enabled and not locked, then setting the lock level,
-- whatever level is given, returns the level of before. The new level is the given one, brought
-- between 0 and 8, no source's enabling or level changes, and the hardware lets through exactly the
-- sources that are enabled and not locked at the new level.
pub setirqlevel_lem :
    (lvl : ℕ) (c : Controller)
    → IsMasked c
    → IsLocked c
    → (d : Controller) × (setirqlevel lvl c ≡ ok c.currentlocklevel d)
      × (d.currentlocklevel ≡ some (constrain 8 lvl))
      × (d.irq_enabled ≡ c.irq_enabled)
      × (d.irq_level ≡ c.irq_level)
      × IsMasked d
      × IsLocked d
unfolding setirqlevel
setirqlevel_lem lvl c m locked =
    let l = constrain 8 lvl in
    elim (Bool-cases (same_ref c.currentlocklevel (some l))) [
      | inl same ↦
          let is : c.currentlocklevel ≡ some l = ground arith in
          (c, rw same (ap (λ o. ok o c) (sym is)), is, refl, refl, m, locked)
      | inr other ↦ (
        at_level l c,
        rw other refl,
        refl,
        refl,
        refl,
        record { masked = m.masked },
        at_level-IsLocked l c (constrain-le lvl) m,
      )
    ]

-- The driver's variables and the hardware when davroska starts: no source is enabled, the masks are
-- empty and the lock level is -1, its value of initialisation.
abbrev pub powered : (lines : ℕ → ℕ) (fiq : ℕ) → Controller
powered lines fiq = record {
  irq_level = λ i. some 0;
  currentlocklevel = none;
  irq_enabled = λ reg. 0;
  levelmasks = λ l reg. 0;
  lines = lines;
  fiq_control = fiq;
}

abbrev write_off : ℕ → Controller → Controller
write_off reg = write_disable reg (2 ^ 32 - 1)

off :
    (reg bit : ℕ) (c : Controller)
    → reg < 3
    → on ((write_off 2 (write_off 1 (write_off 0 c))).lines reg) (irq reg bit) ≡ false
off zero b c h = on-bit_and (c.lines 0) 0 (irq 0 b) ∙ ground (arith, on-nothing (irq 0 b))
off (suc zero) b c h = on-bit_and (c.lines 1) 0 (irq 1 b) ∙ ground (arith, on-nothing (irq 1 b))
off (suc (suc zero)) b c h =
    on-bit_and (c.lines 2) 0 (irq 2 b) ∙ ground (arith, on-nothing (irq 2 b))
off (suc (suc (suc r))) b c h = let no : ⊥ = omega arith in elim no [ ]

-- Every entry but the last has a level.
has_level : of_all_entries (λ i e. not (ltb e.idx 3) || ltb i 23) ≡ true
unfolding of_all_entries all_below
has_level = refl

no_level :
    (i l : ℕ) → ltb i 23 ≡ true → at_least (if ltb i 23 then none else some 0) (some l) ≡ false
no_level i l h = ground arith

within : (x i : ℕ) → x < 3 → (not (ltb x 3) || ltb i 23) ≡ true → ltb i 23 ≡ true
within x i low h = ground arith

low_register : (i : ℕ) (e : Irq) → IsSource i e → e.idx < 3 → ltb i 23 ≡ true
low_register i e is low =
    within e.idx i low (of_all_entries-true (λ i e. not (ltb e.idx 3) || ltb i 23) i e has_level is)

-- The driver starts with masks that are right and with no source let through.
pub init_interrupt_controller_lem :
    (lines : ℕ → ℕ) (fiq : ℕ)
    → (d : Controller) × (init_interrupt_controller (powered lines fiq) ≡ ok tt d)
      × IsMasked d
      × IsLocked d
unfolding init_interrupt_controller
init_interrupt_controller_lem lines fiq =
    let c : Controller = powered lines fiq in
    (
      record (write_off 2 (write_off 1 (write_off 0 c))) {
        fiq_control = 0;
        irq_level = λ i. if ltb i 23 then none else some 0;
      },
      refl,
      record {
        masked = λ i l e is low h. on-nothing e ∙ sym (no_level i l (low_register i e is low));
      },
      record {
        locked = λ i e is low. off e.idx e.bit c low ∙ ap (λ b. b && true) (sym (on-nothing e));
      },
    )
