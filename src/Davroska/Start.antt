-- ===== src/Davroska/Start.antt =====
-- The start of davroska: `dv_startos` and the phases of configuration, davroska/c/davroska.c.
use davros.Base.{ℕ, zero, suc, ◌+◌, ◌-◌, Option, none, some, [], ◌==◌, if◌then◌else◌}
use davros.Run.{Cmd, idle_creation, pure, get, modify, skip, ◌>>=◌, ◌>>◌}
use davros.Davroska.State.{
  Os, Sizes, running, e_state, sid_startos, Phase, ph_addtasks, ph_addisrs, ph_addgroups,
  ph_addmutexes, ph_addcounters, ph_addalarms, with_exe, with_queue, os_panic, reporterror,
  setirqlevel,
}
use davros.Davroska.Queue.{enqueue}
use davros.Davroska.Priority.{raiseprio, lowerprio}
use davros.Davroska.Extended.{extended_init}
use davros.Davroska.Config.{repeat, initvectors, addexe, createqueues}

-- The project's callouts, which take the mode, and its idle executable's name and
-- function, and the address behind its data.
pub record Callouts : Type 0 where
  pub addtasks : ℕ → Cmd Os (Unit {0})
  pub addisrs : ℕ → Cmd Os (Unit {0})
  pub addgroups : ℕ → Cmd Os (Unit {0})
  pub addmutexes : ℕ → Cmd Os (Unit {0})
  pub addcounters : ℕ → Cmd Os (Unit {0})
  pub addalarms : ℕ → Cmd Os (Unit {0})
  pub autostart : ℕ → Cmd Os (Unit {0})
  pub startup : Cmd Os (Unit {0})
  pub idle_name : ℕ
  pub idle_func : ℕ
  pub end_bss : ℕ

unfoldable pub configure : Phase → Cmd Os (Unit {0}) → Cmd Os (Unit {0})
configure phase callout = do
  modify (λ s. record s { configstate = some phase })
  callout
  modify (λ s. record s { configstate = none })

-- A group that the callout leaves unfinished is an error.
unfoldable pub configure_groups : Cmd Os (Unit {0}) → Cmd Os (Unit {0})
configure_groups callout = do
  modify (λ s. record s { groupdef = record s.groupdef { name = 0 } })
  configure ph_addgroups callout
  t ← get
  if t.groupdef.name == 0 then skip else do _ ← reporterror sid_startos e_state 0 []; skip

-- How many of `n` executables from `e` on have base priority `p`, each of them given to the interrupt
-- controller by `config_irq`.
unfoldable pub count_isrs :
    (config_irq : Option ℕ → ℕ → Cmd Os (Unit {0})) → (n e p level : ℕ) → Cmd Os ℕ
count_isrs config_irq zero e p level = pure 0
count_isrs config_irq (suc n) e p level = do
  s ← get
  if (s.exe e).baseprio == p then config_irq (s.exe e).irqid level else skip
  c ← count_isrs config_irq n (e + 1) p level
  pure (if (s.exe e).baseprio == p then c + 1 else c)

-- The loop of `dv_calculatelevels`, with `n` rounds from priority `p` on.
unfoldable pub calculate_levels :
    (config_irq : Option ℕ → ℕ → Cmd Os (Unit {0})) → (n p level : ℕ) → Cmd Os (Unit {0})
calculate_levels config_irq zero p level = skip
calculate_levels config_irq (suc n) p level = do
  s ← get
  c ← count_isrs config_irq (s.nexe - s.ntask) s.ntask p level
  modify (with_queue p (λ r. record r { level = level }))
  calculate_levels config_irq n (p + 1) (if c == 0 then level else level + 1)

unfoldable pub calculatelevels :
    Sizes → (config_irq : Option ℕ → ℕ → Cmd Os (Unit {0})) → Cmd Os (Unit {0})
calculatelevels sz config_irq = do
  s ← get
  calculate_levels config_irq (sz.maxprio - s.maxtaskprio) (s.maxtaskprio + 1) 1

-- The idle loop, `e`, becomes the running executable without being called.
unfoldable pub start_idle : (e : ℕ) → Cmd Os (Unit {0})
start_idle e = do
  s ← get
  modify (with_exe e (λ r. record r { nact = r.nact + 1 }))
  enqueue (s.exe e).currprio e
  modify (λ t. record t { currentexe = e })
  modify (with_exe e (λ r. record r { state = running }))

unfoldable pub create_idle : Sizes → (name fn : ℕ) → Cmd Os ℕ
create_idle sz name fn = do
  idle ← addexe sz name fn 0 1
  elim idle [ none ↦ os_panic idle_creation | some e ↦ pure e ]

-- Up to the idle loop, which does not return. `runqueued` is the scheduler, `dv_runqueued_onkernelstack`, and
-- `config_irq` and
-- `init_controller` are the interrupt controller's.
unfoldable pub startos :
    Sizes
    → Callouts
    → (config_irq : Option ℕ → ℕ → Cmd Os (Unit {0})) → (init_controller : Cmd Os (Unit {0}))
    → (runqueued : (high low : ℕ) → Cmd Os (Unit {0})) → (mode : ℕ) → Cmd Os (Unit {0})
startos sz user config_irq init_controller runqueued mode = do
  repeat (sz.maxprio + 1) 0 (λ i. modify (with_queue i (λ r. record r { prio = i; nslots = 2 })))
  initvectors sz
  init_controller
  extended_init sz user.end_bss
  setirqlevel sz.lockall_level
  idle ← create_idle sz user.idle_name user.idle_func
  modify (λ t. record t { ntask = 1 })
  configure ph_addtasks (user.addtasks mode)
  configure ph_addisrs (user.addisrs mode)
  createqueues sz
  calculatelevels sz config_irq
  configure_groups (user.addgroups mode)
  configure ph_addmutexes (user.addmutexes mode)
  configure ph_addcounters (user.addcounters mode)
  configure ph_addalarms (user.addalarms mode)
  start_idle idle
  _ ← raiseprio sz
  user.autostart mode
  user.startup
  s ← get
  lowerprio sz (s.exe idle).baseprio
  runqueued (sz.maxprio - 1) (s.exe idle).baseprio
  setirqlevel 0
