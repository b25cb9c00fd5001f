-- ===== src/Davroska/Interrupts.antt =====
-- The driver of the BCM2835 interrupt controller for davroska, with levels of interrupts that the
-- hardware does not have: davroska/hardware/common/c/dv-arm-bcm2835-interruptcontroller.c and
-- devices/h/dv-arm-bcm2835-interruptcontroller.h with DV_SUPPORT_INTLEVEL. Of the hardware the model has
-- what the header says of its registers: a 1 that is written enables or disables a line.
pub mod Lines
pub mod Handler
pub mod Levels
pub mod Switches
pub mod Disabling
use davros.Base.{
  ℕ, zero, suc, ◌+◌, ◌-◌, ◌^◌, Bool, true, false, not, Option, none, some, List, [], ◌∷◌, ◌++◌, leb,
  ltb, ◌==◌, same_ref, if◌then◌else◌, update, get_elem?, bit_and, bit_or, one_at,
}
use davros.Run.{fault, unconfigured_interrupt, Cmd, pure, get, modify, skip, ◌>>=◌, ◌>>◌}
use davros.Davroska.State.{Os, Vector, unconfigured, activates, os_panic}
use davros.Davroska.Schedule.{activateexe}

-- A source of interrupts: the number of its register, and the number of its bit there.
pub record Irq : Type 0 where
  pub idx : ℕ
  pub bit : ℕ

abbrev pub irq : (idx bit : ℕ) → Irq
irq i b = record { idx = i; bit = b }

unfoldable pub mask_of : Irq → ℕ
mask_of e = one_at e.bit

-- `dv_bcm2835_irq_list`. The last entry, of no register, ends the loop; its mask is never read.
abbrev pub irq_list : List Irq
irq_list =
    irq 0 1
    ∷ (irq 0 3
        ∷ (irq 0 29
            ∷ (irq 1 11
                ∷ (irq 1 13
                    ∷ (irq 1 14
                        ∷ (irq 1 16
                            ∷ (irq 1 17
                                ∷ (irq 1 18
                                    ∷ (irq 1 19
                                        ∷ (irq 1 20
                                            ∷ (irq 1 21
                                                ∷ (irq 1 22
                                                    ∷ (irq 1 23
                                                        ∷ (irq 1 25
                                                            ∷ (irq 2 0
                                                            ∷ (irq 2 1
                                                            ∷ (irq 2 2
                                                            ∷ (irq 2 3
                                                            ∷ (irq 2 4
                                                            ∷ (irq 2 5
                                                            ∷ (irq 2 6
                                                            ∷ (irq 2 7
                                                            ∷ (irq 99 0 ∷ [])))))))))))))))))))))))

-- A level is -1, `none`, or from 0 on. `lines` are the sources that the hardware has enabled.
pub record Controller : Type 0 where
  pub irq_level : ℕ → Option ℕ
  pub currentlocklevel : Option ℕ
  pub irq_enabled : ℕ → ℕ
  pub levelmasks : ℕ → ℕ → ℕ
  pub lines : ℕ → ℕ
  pub fiq_control : ℕ

-- `(m & e.mask) != 0`
abbrev pub on : (m : ℕ) → Irq → Bool
on m e = not (bit_and m (mask_of e) == 0)

-- `~m` of 32 bits.
abbrev pub not32 : ℕ → ℕ
not32 m = 2 ^ 32 - 1 - m

abbrev pub write_enable : (reg w : ℕ) → Controller → Controller
write_enable reg w c = record c { lines = update c.lines reg (bit_or (c.lines reg) w) }

abbrev pub write_disable : (reg w : ℕ) → Controller → Controller
write_disable reg w c = record c { lines = update c.lines reg (bit_and (c.lines reg) (not32 w)) }

-- The source `i` of the table. With the number of the entry that ends the table, the code goes on beyond
-- the registers and the levels.
abbrev pub source : (i : ℕ) → Cmd Controller Irq
source i = elim (get_elem? irq_list i) [
  | none ↦ (λ _. fault)
  | some e ↦ if ltb e.idx 3 then pure e else (λ _. fault)
]

abbrev pub add_to_level : (l : ℕ) → Irq → Controller → Controller
add_to_level l e c = record c {
  levelmasks =
      update c.levelmasks l
        (update (c.levelmasks l) e.idx (bit_or (c.levelmasks l e.idx) (mask_of e)));
}

-- `for ( i = 0; i < n; i++ )`
unfoldable pub add_to_levels : (n : ℕ) → Irq → Cmd Controller (Unit {0})
add_to_levels zero e = skip
add_to_levels (suc l) e = do add_to_levels l e; modify (add_to_level l e)

-- A signed 8-bit level, from 0 to `max`.
unfoldable pub constrain : (max level : ℕ) → ℕ
constrain max level = if leb 128 level then 0 else if ltb max level then max else level

-- `DV_MAX_INTLEVEL` of the Raspberry Pi targets.
abbrev pub max_intlevel : ℕ
max_intlevel = 7

unfoldable pub config_irq : (i level : ℕ) → Cmd Controller (Unit {0})
config_irq i level = do
  let l = constrain max_intlevel level
  e ← source i
  modify (λ c. record c { irq_level = update c.irq_level i (some l) })
  add_to_levels (l + 1) e

-- `level >= lock` of signed levels.
abbrev pub at_least : (level lock : Option ℕ) → Bool
at_least level none = true
at_least none (some l) = false
at_least (some k) (some l) = leb l k

unfoldable pub enable_irq : (i : ℕ) → Cmd Controller (Unit {0})
enable_irq i = do
  e ← source i
  modify (λ c. record c {
    irq_enabled = update c.irq_enabled e.idx (bit_or (c.irq_enabled e.idx) (mask_of e));
  })
  c ← get
  if at_least (c.irq_level i) c.currentlocklevel
      then modify (write_enable e.idx (mask_of e))
      else skip

unfoldable pub disable_irq : (i : ℕ) → Cmd Controller (Unit {0})
disable_irq i = do
  e ← source i
  let mask = not32 (mask_of e)
  modify (λ c. record c {
    irq_enabled = update c.irq_enabled e.idx (bit_and (c.irq_enabled e.idx) (not32 mask));
  })
  modify (write_disable e.idx mask)

-- One register is set to the sources that level `l` lets through.
abbrev pub set_register : (l reg : ℕ) → Controller → Controller
set_register l reg c =
    let off = write_disable reg (2 ^ 32 - 1) c in
    write_enable reg (bit_and (c.irq_enabled reg) (c.levelmasks l reg)) off

-- The result is the level of before.
unfoldable pub setirqlevel : (lvl : ℕ) → Cmd Controller (Option ℕ)
setirqlevel lvl = do
  let l = constrain 8 lvl
  c ← get
  if same_ref c.currentlocklevel (some l) then pure (some l) else do
    modify (λ d. record d { currentlocklevel = some l })
    modify (set_register l 0)
    modify (set_register l 1)
    modify (set_register l 2)
    pure c.currentlocklevel

unfoldable pub init_interrupt_controller : Cmd Controller (Unit {0})
init_interrupt_controller = do
  modify (write_disable 0 (2 ^ 32 - 1))
  modify (write_disable 1 (2 ^ 32 - 1))
  modify (write_disable 2 (2 ^ 32 - 1))
  modify
      (λ c. record c { fiq_control = 0; irq_level = λ i. if ltb i 23 then none else c.irq_level i })

-- The inner loop of the handler: the sources of register `reg`, of which `p` are pending, from number
-- `i` on. The result is which of them are handled, and where the next register begins.
unfoldable pub handle_register : (reg p i : ℕ) → List Irq → List ℕ × ℕ × List Irq
handle_register reg p i [] = ([], i, [])
handle_register reg p i (e ∷ es) =
    let (called, next, rest) = handle_register reg p (i + 1) es in
    if e.idx == reg then (if on p e then i ∷ called else called, next, rest) else ([], i, e ∷ es)

-- The vectors that an interrupt calls, where `pending` are the registers of the hardware.
unfoldable pub handled : (pending enabled : ℕ → ℕ) → List ℕ
handled pending enabled =
    let p = λ (reg : ℕ). bit_and (pending reg) (enabled reg) in
    let (first, i, after) = handle_register 0 (p 0) 0 irq_list in
    let (second, j, last) = handle_register 1 (p 1) i after in
    let (third, k, rest) = handle_register 2 (p 2) j last in first ++ (second ++ third)

module _ (runqueued : (high low : ℕ) → Cmd Os (Unit {0})) where
  unfoldable pub softvector : (vector : ℕ) → Cmd Os (Unit {0})
  softvector vector = do
    s ← get
    elim (s.vectors vector) [
      | unconfigured p ↦ os_panic unconfigured_interrupt
      | activates e ↦ do _ ← activateexe runqueued e; skip
    ]

  unfoldable pub call_vectors : List ℕ → Cmd Os (Unit {0})
  call_vectors [] = skip
  call_vectors (i ∷ more) = do softvector i; call_vectors more

  unfoldable pub interrupt_handler : (pending enabled : ℕ → ℕ) → Cmd Os (Unit {0})
  interrupt_handler pending enabled = call_vectors (handled pending enabled)
