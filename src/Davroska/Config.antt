-- ===== src/Davroska/Config.antt =====
-- The configuration of executables, groups and mutexes: davroska/c/davroska.c.
pub mod Slots
pub mod Ceilings
use davros.Base.{
  ℕ, zero, suc, ◌+◌, ◌-◌, ◌%◌, ◌^◌, Bool, true, false, Option, none, some, List, [], ◌∷◌, leb, ltb,
  ◌==◌, ◌&&◌, ◌||◌, not, update, if◌then◌else◌,
}
use davros.Run.{Cmd, config_nslots_insufficient, pure, get, modify, skip, ◌>>=◌, ◌>>◌}
use davros.Davroska.State.{
  Os, Sizes, DvExe, Mutex, PrioQueue, GroupDef, Vector, unconfigured, activates, TaskState,
  suspended, Status, e_access, e_calllevel, e_id, e_limit, e_nofunc, e_state, e_value, w_value, Sid,
  sid_addtask, sid_addisr, sid_startgroup, sid_addtogroup, sid_finishgroup, sid_addmutex,
  sid_addmutexuser, sid_addexe, Phase, ph_addtasks, ph_addisrs, ph_addgroups, ph_addmutexes,
  with_exe, with_queue, with_mutex, os_panic, is_negative, below_one, out_of_table, param_of,
  in_phase, reporterror,
}

-- `for ( i = first; ...; i++ )`, with `n` rounds.
abbrev pub repeat : (n i : ℕ) → (ℕ → Cmd Os (Unit {0})) → Cmd Os (Unit {0})
repeat zero i f = skip
repeat (suc n) i f = do f i; repeat n (i + 1) f

-- A report to the error callout, and -1 for the id.
abbrev pub refuse : Sid → Status → (p : ℕ) → Cmd Os (Option ℕ)
refuse sid e p = do _ ← reporterror sid e 1 (p ∷ []); pure none

-- `prio` is not negative here.
unfoldable pub addexe : Sizes → (name fn prio maxact : ℕ) → Cmd Os (Option ℕ)
addexe sz name fn prio maxact = do
  s ← get
  if leb sz.maxexe s.nexe
      then refuse sid_addexe e_limit name
      else if leb sz.maxprio prio
      then refuse sid_addexe e_value name
      else do
        modify (λ t. record t { nexe = s.nexe + 1 })
        modify (
            with_exe s.nexe (λ r. record {
              name = name;
              func = fn;
              jb = r.jb;
              maxact = maxact;
              nact = 0;
              baseprio = prio;
              runprio = prio;
              currprio = prio;
              state = suspended;
              mutexlist = none;
              irqid = none;
              extended = none;
            }))
        modify (with_queue prio (λ q. record q { nslots = (q.nslots + maxact) % 2 ^ 16 }))
        if ltb s.highestprio prio then modify (λ t. record t { highestprio = prio }) else skip
        pure (some s.nexe)

-- The task is counted, if there is one.
unfoldable pub count_task : (prio : ℕ) → Option ℕ → Cmd Os (Option ℕ)
count_task prio none = pure none
count_task prio (some e) = do
  s ← get
  modify (λ t. record t {
    ntask = s.ntask + 1;
    maxtaskprio = if ltb s.maxtaskprio prio then prio else s.maxtaskprio;
  })
  pure (some e)

unfoldable pub addtask : Sizes → (name fn prio maxact : ℕ) → Cmd Os (Option ℕ)
addtask sz name fn prio maxact = do
  s ← get
  if in_phase s.configstate ph_addtasks
      then (do
        if below_one maxact
            then (do _ ← reporterror sid_addtask w_value 1 (name ∷ []); skip)
            else skip
        if below_one prio then refuse sid_addtask e_value name else do
          id ← addexe sz name fn prio (if below_one maxact then 1 else maxact)
          count_task prio id)
      else refuse sid_addtask e_calllevel name

unfoldable pub isvectorfree : Sizes → (vec : ℕ) → Os → Bool
isvectorfree sz vec s = not (out_of_table vec sz.nvector) && is_free (s.vectors vec)
  where
    is_free : Vector → Bool
    is_free (unconfigured i) = true
    is_free (activates e) = false

unfoldable pub setvector : (vec : ℕ) → Vector → Cmd Os (Unit {0})
setvector vec v = modify (λ s. record s { vectors = update s.vectors vec v })

unfoldable pub initvectors : Sizes → Cmd Os (Unit {0})
initvectors sz = repeat sz.nvector 0 (λ i. setvector i (unconfigured i))

-- The ISR is counted and gets its vector, if there is one.
unfoldable pub connect_isr : (irqid : ℕ) → Option ℕ → Cmd Os (Option ℕ)
connect_isr irqid none = pure none
connect_isr irqid (some e) = do
  modify (λ t. record t { nisr = t.nisr + 1 })
  modify (with_exe e (λ r. record r { irqid = some irqid }))
  setvector irqid (activates e)
  pure (some e)

unfoldable pub addisr : Sizes → (name fn irqid prio : ℕ) → Cmd Os (Option ℕ)
addisr sz name fn irqid prio = do
  s ← get
  if in_phase s.configstate ph_addisrs
      then (if is_negative prio || leb prio s.maxtaskprio
          then refuse sid_addisr e_value name
          else if isvectorfree sz irqid s
          then (do id ← addexe sz name fn prio 1; connect_isr irqid id)
          else refuse sid_addisr e_state name)
      else refuse sid_addisr e_calllevel name

-- A report to the error callout.
abbrev complain : Sid → Status → (n : ℕ) → List ℕ → Cmd Os (Unit {0})
complain sid e n p = do _ ← reporterror sid e n p; skip

unfoldable pub startgroup : (name : ℕ) → Bool → Cmd Os (Unit {0})
startgroup name non_preemptable = do
  s ← get
  if in_phase s.configstate ph_addgroups
      then (if s.groupdef.name == 0
          then modify (λ t. record t {
            groupdef = record { name = name; no_preempt = non_preemptable; members = λ i. false };
          })
          else complain sid_startgroup e_state 1 (name ∷ []))
      else complain sid_startgroup e_calllevel 1 (name ∷ [])

unfoldable pub addtogroup : (e : ℕ) → Cmd Os (Unit {0})
addtogroup e = do
  s ← get
  let g = s.groupdef
  if in_phase s.configstate ph_addgroups
      then (if g.name == 0
          then complain sid_addtogroup e_state 1 (param_of e ∷ [])
          else if below_one e || leb s.nexe e
          then complain sid_addtogroup e_id 2 (param_of e ∷ (g.name ∷ []))
          else if g.no_preempt && leb s.ntask e
          then complain sid_addtogroup e_nofunc 2 (param_of e ∷ (g.name ∷ []))
          else modify (λ t. record t { groupdef = record g { members = update g.members e true } }))
      else complain sid_addtogroup e_calllevel 1 (param_of e ∷ [])

-- The highest base priority, and `low`, of `n` executables from `i` on that pass the test.
unfoldable pub highest : (Os → ℕ → Bool) → Os → (n i low : ℕ) → ℕ
highest p s zero i low = low
highest p s (suc n) i low =
    highest p s n (i + 1) (if p s i && ltb low (s.exe i).baseprio then (s.exe i).baseprio else low)

abbrev pub is_member : Os → ℕ → Bool
is_member s i = s.groupdef.members i

abbrev pub any_task : Os → ℕ → Bool
any_task s i = true

-- The priority of the group: of all tasks, if its members do not preempt each other.
unfoldable pub group_priority : Os → ℕ
group_priority s =
    if s.groupdef.no_preempt
    then highest any_task s (s.ntask - 1) 1 0
    else highest is_member s (s.nexe - 1) 1 0

unfoldable pub raise_runprio : (gprio i : ℕ) → Cmd Os (Unit {0})
raise_runprio gprio i = do
  s ← get
  if s.groupdef.members i && ltb (s.exe i).runprio gprio
      then modify (with_exe i (λ r. record r { runprio = gprio }))
      else skip

unfoldable pub finishgroup : Cmd Os (Unit {0})
finishgroup = do
  s ← get
  if in_phase s.configstate ph_addgroups
      then (if s.groupdef.name == 0 then complain sid_finishgroup e_state 0 [] else do
        repeat (s.nexe - 1) 1 (raise_runprio (group_priority s))
        modify (λ t. record t { groupdef = record t.groupdef { name = 0 } }))
      else complain sid_finishgroup e_calllevel 0 []

unfoldable pub addmutex : Sizes → (name maxtake : ℕ) → Cmd Os (Option ℕ)
addmutex sz name maxtake = do
  s ← get
  if in_phase s.configstate ph_addmutexes
      then (if leb sz.maxmutex s.nmutex then refuse sid_addmutex e_limit name else do
        if below_one maxtake then complain sid_addmutex w_value 1 (name ∷ []) else skip
        modify (λ t. record t { nmutex = s.nmutex + 1 })
        modify (
            with_mutex s.nmutex (λ _. record {
              name = name;
              ceiling = 0;
              maxtake = if below_one maxtake then 1 else maxtake;
              ntake = 0;
              owner = none;
              saveprio = none;
              next = none;
            }))
        pure (some s.nmutex))
      else refuse sid_addmutex e_calllevel name

unfoldable pub addmutexuser : (mx e : ℕ) → Cmd Os (Unit {0})
addmutexuser mx e = do
  s ← get
  if in_phase s.configstate ph_addmutexes
      then (if out_of_table mx s.nmutex
          then complain sid_addmutexuser e_id 1 (param_of mx ∷ [])
          else if out_of_table e s.nexe
          then complain sid_addmutexuser e_access 1 (param_of mx ∷ [])
          else if ltb (s.mutex mx).ceiling (s.exe e).baseprio
          then modify (with_mutex mx (λ r. record r { ceiling = (s.exe e).baseprio }))
          else skip)
      else complain sid_addmutexuser e_calllevel 1 (param_of mx ∷ [])

-- A 16-bit quantity as a 32-bit one, both in two's complement.
abbrev pub extend : ℕ → ℕ
extend x = if is_negative x then x + (2 ^ 32 - 2 ^ 16) else x

-- `s > dv_maxslot`, where `s` is a 32-bit int and `dv_maxslot`, one more than the number of slots, a
-- 16-bit one.
abbrev pub too_many : (s nslot : ℕ) → Bool
too_many s n = ltb ((extend ((n + 1) % 2 ^ 16) + 2 ^ 31) % 2 ^ 32) ((s + 2 ^ 31) % 2 ^ 32)

-- The loop of `dv_createqueues`, with `n` rounds from queue `q` and slot `s` on.
unfoldable pub create_queues : Sizes → (n q s : ℕ) → Cmd Os (Unit {0})
create_queues sz zero q s = skip
create_queues sz (suc n) q s = do
  t ← get
  let last = (s + extend (t.queue q).nslots) % 2 ^ 32
  modify (with_queue q (λ r. record r { slots = s }))
  if too_many last sz.nslot
      then os_panic config_nslots_insufficient
      else create_queues sz n (q + 1) last

unfoldable pub createqueues : Sizes → Cmd Os (Unit {0})
createqueues sz = create_queues sz (sz.maxprio + 2) 0 0
