-- ===== src/Davroska/Interrupts/Handler.antt =====
-- Which vectors an interrupt calls.
use davros.Base.{
  ℕ, suc, ◌+◌, ◌≡◌, refl, ◌∙◌, ap, sym, inl, inr, true, false, List, [], ◌∷◌, ◌++◌, arith, ◌==◌,
  if◌then◌else◌, Bool-cases, length, bit_and,
}
use davros.Davroska.Interrupts.{Irq, irq, irq_list, on, handle_register, handled}

-- The numbers from `i` on of the sources that are pending and enabled, in order.
abbrev pub due : (pending enabled : ℕ → ℕ) → (i : ℕ) → List Irq → List ℕ
due pending enabled i [] = []
due pending enabled i (e ∷ es) =
    if on (bit_and (pending e.idx) (enabled e.idx)) e
    then i ∷ due pending enabled (i + 1) es
    else due pending enabled (i + 1) es

abbrev without_last : List Irq → List Irq
without_last [] = []
without_last (e ∷ []) = []
without_last (e ∷ (f ∷ es)) = e ∷ without_last (f ∷ es)

-- The table without the entry that ends it.
abbrev pub sources : List Irq
sources = without_last irq_list

-- The sources in one register.
abbrev part : (reg : ℕ) → List Irq → List Irq
part reg [] = []
part reg (e ∷ es) = if e.idx == reg then e ∷ part reg es else part reg es

-- All sources are in register `reg`.
abbrev InRegister : (reg : ℕ) → List Irq → Type 0
InRegister reg [] = Unit
InRegister reg (e ∷ es) = (e.idx ≡ reg) × InRegister reg es

-- The next source is in another register.
abbrev Elsewhere : (reg : ℕ) → List Irq → Type 0
Elsewhere reg [] = Unit
Elsewhere reg (e ∷ es) = (e.idx == reg) ≡ false

sources_of_0 : InRegister 0 (part 0 irq_list)
sources_of_0 = omega arith

sources_of_1 : InRegister 1 (part 1 irq_list)
sources_of_1 = omega arith

sources_of_2 : InRegister 2 (part 2 irq_list)
sources_of_2 = omega arith

module _ (pending enabled : ℕ → ℕ) where
  abbrev both : ℕ → ℕ
  both reg = bit_and (pending reg) (enabled reg)

  handle_register_lem :
      (reg i : ℕ) (es rest : List Irq)
      → InRegister reg es
      → Elsewhere reg rest
      → handle_register reg (both reg) i (es ++ rest)
        ≡ (due pending enabled i es, i + length es, rest)
  unfolding handle_register
  handle_register_lem reg i [] [] a b = ap (λ n. ([], n, [])) (omega arith)
  handle_register_lem reg i [] (r ∷ rest) a b = rw b (ap (λ n. ([], n, r ∷ rest)) (omega arith))
  handle_register_lem reg i (e ∷ es) rest a b =
      let ih = handle_register_lem reg (i + 1) es rest a.1 b in
      let here : (e.idx == reg) ≡ true = ground (arith, a.0) in
      let later = due pending enabled (i + 1) es in
      let first = λ (r : ℕ). if on (both r) e then i ∷ later else later in
      let same : first e.idx ≡ first reg = ap first a.0 in
      rw (here, ih)
        (ap (λ n. (first reg, n, rest)) (omega arith)
          ∙ ap (λ l. (l, i + suc (length es), rest)) (sym same))

  due-append :
      (i : ℕ) (es fs : List Irq)
      → due pending enabled i (es ++ fs)
        ≡ due pending enabled i es ++ due pending enabled (i + length es) fs
  due-append i [] fs = ap (λ n. due pending enabled n fs) (omega arith)
  due-append i (e ∷ es) fs =
      let later = due-append (i + 1) es fs in
      let shift : i + 1 + length es ≡ i + suc (length es) = omega arith in
      elim (Bool-cases (on (both e.idx) e)) [
        | inl yes_on ↦ rw (yes_on, later, shift) refl
        | inr off ↦ rw (off, later, shift) refl
      ]

  -- For all pending and all enabled masks, the handler of an interrupt calls the vectors of exactly
  -- those sources of the table that are both pending and enabled, each of them once, in the order
  -- of the table: its loop over registers is one pass over all sources.
  pub handled_lem : handled pending enabled ≡ due pending enabled 0 sources
  unfolding handled
  handled_lem =
      let a = part 0 irq_list in
      let b = part 1 irq_list in
      let c = part 2 irq_list in
      let ending = irq 99 0 ∷ [] in
      let first = handle_register_lem 0 0 a (b ++ (c ++ ending)) sources_of_0 refl in
      let second = handle_register_lem 1 3 b (c ++ ending) sources_of_1 refl in
      let third = handle_register_lem 2 15 c ending sources_of_2 refl in
      rw (first, second, third)
        (sym (due-append 0 a (b ++ c) ∙ ap (λ l. due pending enabled 0 a ++ l) (due-append 3 b c)))
