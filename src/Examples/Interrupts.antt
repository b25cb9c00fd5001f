-- ===== src/Examples/Interrupts.antt =====
-- The interrupt controller of davroska, at small inputs.
use davros.Davroska.Interrupts.{
  interrupt_handler, call_vectors, softvector, Irq, irq, add_to_levels, handle_register, mask_of,
  Controller, on, max_intlevel, constrain, config_irq, enable_irq, disable_irq, setirqlevel,
  init_interrupt_controller, handled,
}
use davros.Davroska.Interrupts.Handler.{due, sources, handled_lem}
use davros.Davroska.Interrupts.Lines.{IsSource, on-nothing}
use davros.Davroska.Interrupts.Levels.{IsMasked, IsLocked, powered, setirqlevel_lem}
use davros.Davroska.Interrupts.Switches.{config_irq_lem, enable_irq_lem}
use davros.Davroska.Interrupts.Disabling.{disable_irq_lem}
use davros.Examples.Davroska.{sample_os}
use davros.Run.{
  skip, davroska, unconfigured_interrupt, Run, ok, panic, fault, out_of_fuel, Cmd, pure, ◌>>=◌,
  ◌>>◌,
}
use davros.Base.{
  update, ◌||◌, not, ℕ, ◌≡◌, refl, sym, ap, true, ◌&&◌, ◌==◌, none, some, List, [], ◌∷◌, map,
  one_at, ◌∙◌, if◌then◌else◌,
}

-- The constants DV_INT_SYST_CM1 to DV_INT_ILLEGAL1 of the header.
masks_of_header :
    map mask_of sources
    ≡ 0x2
      ∷ (0x8
          ∷ (0x20000000
              ∷ (0x800
                  ∷ (0x2000
                      ∷ (0x4000
                          ∷ (0x10000
                              ∷ (0x20000
                                  ∷ (0x40000
                                      ∷ (0x80000
                                          ∷ (0x100000
                                              ∷ (0x200000
                                                  ∷ (0x400000
                                                      ∷ (0x800000
                                                          ∷ (0x2000000
                                                            ∷ (0x1
                                                            ∷ (0x2
                                                            ∷ (0x4
                                                            ∷ (0x8
                                                            ∷ (0x10
                                                            ∷ (0x20
                                                            ∷ (0x40
                                                            ∷ (0x80 ∷ []))))))))))))))))))))))
unfolding mask_of one_at
masks_of_header = refl

abbrev of_register : (first second third : ℕ) → ℕ → ℕ
of_register a b c reg = if reg == 0 then a else if reg == 1 then b else if reg == 2 then c else 0

-- The lines of the hardware after a run.
abbrev lines_after : Run Controller (Unit {0}) → List ℕ
lines_after (ok a c) = c.lines 0 ∷ (c.lines 1 ∷ (c.lines 2 ∷ []))
lines_after (panic p) = []
lines_after fault = []
lines_after out_of_fuel = []

-- The core timer, with number 15, has level 3. It is let through at level 3, and not at level 4.
abbrev timer_at : (lvl : ℕ) → Cmd Controller (Unit {0})
timer_at lvl = do
  init_interrupt_controller
  config_irq 15 3
  enable_irq 15
  _ ← setirqlevel lvl
  pure tt

timer_is_let_through : lines_after (timer_at 3 (powered (λ reg. 255) 1)) ≡ 0 ∷ (0 ∷ (1 ∷ []))
unfolding init_interrupt_controller config_irq add_to_levels enable_irq setirqlevel constrain
    mask_of one_at
timer_is_let_through = refl

timer_is_locked : lines_after (timer_at 4 (powered (λ reg. 255) 1)) ≡ 0 ∷ (0 ∷ (0 ∷ []))
unfolding init_interrupt_controller config_irq add_to_levels enable_irq setirqlevel constrain
    mask_of one_at
timer_is_locked = refl

-- The timer and the first three sources of register 1 are pending, of which one is enabled.
handled_lem_example :
    handled (of_register 0 0x6800 1) (of_register 0 0x2000 1)
    ≡ due (of_register 0 0x6800 1) (of_register 0 0x2000 1) 0 sources
handled_lem_example = handled_lem (of_register 0 0x6800 1) (of_register 0 0x2000 1)

handled_at_sample : handled (of_register 0 0x6800 1) (of_register 0 0x2000 1) ≡ 4 ∷ (15 ∷ [])
unfolding handled handle_register mask_of one_at
handled_at_sample = refl

-- No source has a level, and none is enabled.
abbrev fresh : Controller
fresh = record (powered (λ reg. 0) 0) { irq_level = λ i. none }

fresh-IsMasked : IsMasked fresh
fresh-IsMasked = record { masked = λ i l e is low h. on-nothing e }

fresh-IsLocked : IsLocked fresh
fresh-IsLocked = record {
  locked = λ i e is low. on-nothing e ∙ ap (λ b. b && true) (sym (on-nothing e));
}

setirqlevel_lem_example :
    (d : Controller) × (setirqlevel 130 fresh ≡ ok none d)
    × (d.currentlocklevel ≡ some (constrain 8 130))
    × (d.irq_enabled ≡ fresh.irq_enabled)
    × (d.irq_level ≡ fresh.irq_level)
    × IsMasked d
    × IsLocked d
setirqlevel_lem_example = setirqlevel_lem 130 fresh fresh-IsMasked fresh-IsLocked

config_irq_lem_example :
    (d : Controller) × (config_irq 15 9 fresh ≡ ok tt d)
    × (d.irq_level ≡ update fresh.irq_level 15 (some (constrain max_intlevel 9)))
    × (d.irq_enabled ≡ fresh.irq_enabled)
    × (d.lines ≡ fresh.lines)
    × IsMasked d
config_irq_lem_example = config_irq_lem 15 9 (irq 2 0) fresh (refl, refl) refl fresh-IsMasked

enable_irq_lem_example :
    (d : Controller) × (enable_irq 15 fresh ≡ ok tt d)
    × ((j : ℕ) (f : Irq)
        → IsSource j f
        → on (d.irq_enabled f.idx) f ≡ (on (fresh.irq_enabled f.idx) f || (j == 15)))
    × (d.irq_level ≡ fresh.irq_level)
    × (d.currentlocklevel ≡ fresh.currentlocklevel)
    × IsLocked d
enable_irq_lem_example = enable_irq_lem 15 (irq 2 0) fresh (refl, refl) fresh-IsLocked

-- Sources 15 and 16, of one register, are enabled.
abbrev two_enabled : Controller
two_enabled = record fresh { irq_enabled = of_register 0 0 3; lines = of_register 0 0 3 }

disable_irq_lem_example :
    (d : Controller) × (disable_irq 15 two_enabled ≡ ok tt d)
    × ((j : ℕ) (f : Irq)
        → IsSource j f
        → let stays = not (f.idx == 2) || (j == 15) in
          (on (d.lines f.idx) f ≡ (on (two_enabled.lines f.idx) f && stays))
          × (on (d.irq_enabled f.idx) f ≡ (on (two_enabled.irq_enabled f.idx) f && stays)))
disable_irq_lem_example = disable_irq_lem 15 (irq 2 0) two_enabled (refl, refl)

disabling_15_disables_16 : lines_after (disable_irq 15 two_enabled) ≡ 0 ∷ (0 ∷ (1 ∷ []))
unfolding disable_irq mask_of one_at
disabling_15_disables_16 = refl

-- The sample state has no function for the timer.
unexpected_timer_panics :
    interrupt_handler (λ high low. skip) (of_register 0 0 1) (of_register 0 0 1) sample_os
    ≡ panic (davroska unconfigured_interrupt)
unfolding interrupt_handler call_vectors softvector handled handle_register mask_of one_at
unexpected_timer_panics = refl
