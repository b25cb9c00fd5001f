-- ===== src/Davroska/Extended/Alert.antt =====
-- No event is lost: a task does not wait while an event that it awaits is pending.
use davros.Base.{
  ℕ, ◌≡◌, refl, ◌∙◌, ◌⊎◌, inl, inr, Bool, true, false, Option, none, some, List, [], ◌∷◌, arith,
  ◌==◌, ◌&&◌, not, if◌then◌else◌, Bool-cases, bit_and, bit_or, bit_and_comm,
}
use davros.Run.{Run, ok, panic, fault, out_of_fuel, Cmd, and_then, pure, skip}
use davros.Davroska.State.{
  Os, Program, Status, e_ok, e_access, e_resource, e_id, e_state, Sid, sid_waitevent,
  sid_clearevent, sid_setevent, param_of, waiting, ready, with_exe, with_extended, reporterror,
  not_a_task,
}
use davros.Davroska.Queue.{enqueue, advance}
use davros.Davroska.Extended.{
  is_waiting, is_suspended, waitevent, wait_for, clearevent, setevent, set_extended, release,
  mask_not,
}

-- Different tasks have different entries, and no task waits for an event that is pending.
pub record IsAlert (s : Os) : Type 0 where
  pub apart : (t u x : ℕ) → (s.exe t).extended ≡ some x → (s.exe u).extended ≡ some x → t ≡ u
  pub alert :
      (t x : ℕ)
      → (s.exe t).extended ≡ some x
      → is_waiting (s.exe t).state ≡ true
      → bit_and (s.ext.extended x).events_pending (s.ext.extended x).events_awaited ≡ 0

-- What a run that returns leaves behind.
abbrev pub Leaves : {A : Type 0} → (Os → Type 0) → Run Os A → Type 0
Leaves P (ok a s) = P s
Leaves P (panic p) = Unit
Leaves P fault = Unit
Leaves P out_of_fuel = Unit

IsAlert-same : {s u : Os} → u.exe ≡ s.exe → u.ext ≡ s.ext → IsAlert s → IsAlert u
IsAlert-same exe_is ext_is a = record {
  apart = rw exe_is a.apart;
  alert = rw (exe_is, ext_is) a.alert;
}

-- An error report changes nothing else.
pub reporterror_lem :
    (sid : Sid) (e : Status) (n : ℕ) (p : List ℕ) (s : Os)
    → (u : Os) × (reporterror sid e n p s ≡ ok e u) × (u.exe ≡ s.exe) × (u.ext ≡ s.ext)
unfolding reporterror
reporterror_lem sid e n p s = elim (Bool-cases s.lasterror.inerrorhook) [
  | inl on ↦ (s, rw on refl, refl, refl)
  | inr off ↦ (
    record s { lasterror = record { p = p; n_param = n; sid = sid; e = e; inerrorhook = false } },
    rw off refl,
    refl,
    refl,
  )
]

-- The state of a task that waits, and its entry.
abbrev pub waiting_state : (x evts : ℕ) → Program → Os → Os
waiting_state x evts rest s =
    with_extended x (λ r. record r { jb = some rest })
      (with_exe s.currentexe (λ r. record r { state = waiting })
        (with_extended x (λ r. record r { events_awaited = evts }) s))

waiting_state-IsAlert :
    (s : Os) (x evts : ℕ) (rest : Program)
    → IsAlert s
    → (s.exe s.currentexe).extended ≡ some x
    → bit_and evts (s.ext.extended x).events_pending ≡ 0
    → IsAlert (waiting_state x evts rest s)
waiting_state-IsAlert s x evts rest a is none_pending = record {
  apart = λ t u y h k. ground (arith, a.apart t u y);
  alert = λ t y h k. ground (
    arith,
    a.alert t y,
    a.apart t s.currentexe x,
    bit_and_comm evts (s.ext.extended x).events_pending,
  );
}

clears : (x evts : ℕ) → Os → Os
clears x evts =
    with_extended x (λ r. record r { events_pending = bit_and r.events_pending (mask_not evts) })

clears-IsAlert :
    (s : Os) (x evts : ℕ)
    → IsAlert s
    → (s.exe s.currentexe).extended ≡ some x
    → is_waiting (s.exe s.currentexe).state ≡ false
    → IsAlert (clears x evts s)
unfolding clears
clears-IsAlert s x evts a is runs = record {
  apart = a.apart;
  alert = λ t y h k. ground (arith, a.alert t y, a.apart t s.currentexe x);
}

abbrev marked : (x pending : ℕ) → Os → Os
marked x pending = with_extended x (λ r. record r { events_pending = pending })

-- If task `t` waits, the new events do not concern it.
marked-IsAlert :
    (s : Os) (t x pending : ℕ)
    → IsAlert s
    → (s.exe t).extended ≡ some x
    → (is_waiting (s.exe t).state && not (bit_and pending (s.ext.extended x).events_awaited == 0))
      ≡ false
    → IsAlert (marked x pending s)
marked-IsAlert s t x pending a is quiet = record {
  apart = a.apart;
  alert = λ u y h k. ground (arith, a.alert u y, a.apart u t x);
}

-- Task `t` does not wait any more.
readied-IsAlert :
    (s : Os) (t x pending : ℕ)
    → IsAlert s
    → (s.exe t).extended ≡ some x
    → IsAlert (with_exe t (λ r. record r { state = ready }) (marked x pending s))
readied-IsAlert s t x pending a is = record {
  apart = λ u v y h k. ground (arith, a.apart u v y);
  alert = λ u y h k. ground (arith, a.alert u y, a.apart u t x);
}

enqueue-IsAlert : (p e : ℕ) (s : Os) → IsAlert s → Leaves IsAlert (enqueue p e s)
unfolding enqueue
enqueue-IsAlert p e s a =
    elim (Bool-cases (advance (s.queue p).tail (s.queue p).nslots == (s.queue p).head)) [
      | inl full ↦ rw full tt
      | inr room ↦ rw room (record { apart = a.apart; alert = a.alert })
    ]

Leaves-then :
    {A B : Type 0} (r : Run Os A) (f : A → Cmd Os B)
    → Leaves IsAlert r
    → ((a : A) (s : Os) → IsAlert s → Leaves IsAlert (f a s))
    → Leaves IsAlert (and_then r f)
Leaves-then (ok a s) f h k = k a s h
Leaves-then (panic p) f h k = tt
Leaves-then fault f h k = tt
Leaves-then out_of_fuel f h k = tt

reporterror-IsAlert :
    (sid : Sid) (e : Status) (n : ℕ) (p : List ℕ) (s : Os)
    → IsAlert s
    → Leaves IsAlert (reporterror sid e n p s)
reporterror-IsAlert sid e n p s a =
    let (u, run, exe_is, ext_is) = reporterror_lem sid e n p s in
    rw run (IsAlert-same {s = s} {u = u} exe_is ext_is a)

pub extended_cases : (o : Option ℕ) → (o ≡ none) ⊎ ((x : ℕ) × (o ≡ some x))
extended_cases none = inl refl
extended_cases (some x) = inr (x, refl)

abbrev jump : Bool → Cmd Os (Option Status)
jump b = if b then pure none else (λ _. fault)

jump_lem : (b : Bool) (u : Os) → b ≡ true → jump b u ≡ ok none u
jump_lem b u h = rw h refl

wait_for_lem :
    (s : Os) (x evts : ℕ) (rest : Program)
    → (s.exe s.currentexe).jb ≡ true
    → wait_for x evts rest s ≡ ok none (waiting_state x evts rest s)
unfolding wait_for
wait_for_lem s x evts rest jb = jump_lem ((s.exe s.currentexe).jb) (waiting_state x evts rest s) jb

waits_for :
    (s : Os) (evts x : ℕ) (rest : Program)
    → (s.exe s.currentexe).extended ≡ some x
    → (s.exe s.currentexe).mutexlist ≡ none
    → (bit_and evts (s.ext.extended x).events_pending == 0) ≡ true
    → waitevent evts rest s ≡ wait_for x evts rest s
unfolding waitevent
waits_for s evts x rest is free waits = rw (is, free, waits) refl

-- If no task waits for an event that is pending, and different tasks have different entries, then
-- this holds after a call of dv_waitevent by a task with a jump buffer too. The call either
-- returns, with the executables and the events as they were, or the caller is an extended task
-- without a mutex, none of its awaited events is pending, and it waits.
pub waitevent-IsAlert :
    (s : Os) (evts : ℕ) (rest : Program)
    → IsAlert s
    → (s.exe s.currentexe).jb ≡ true
    → ((e : Status) × (u : Os) × (waitevent evts rest s ≡ ok (some e) u)
        × (u.exe ≡ s.exe)
        × (u.ext ≡ s.ext)
        × IsAlert u)
      ⊎ ((x : ℕ) × ((s.exe s.currentexe).extended ≡ some x)
          × ((s.exe s.currentexe).mutexlist ≡ none)
          × (bit_and evts (s.ext.extended x).events_pending ≡ 0)
          × (waitevent evts rest s ≡ ok none (waiting_state x evts rest s))
          × IsAlert (waiting_state x evts rest s))
unfolding waitevent
waitevent-IsAlert s evts rest a jb = elim (extended_cases ((s.exe s.currentexe).extended)) [
  | inl basic ↦
      let (u, run, exe_is, ext_is) = reporterror_lem sid_waitevent e_access 1 (evts ∷ []) s in
      inl (
        e_access,
        u,
        rw (basic, run) refl,
        exe_is,
        ext_is,
        IsAlert-same {s = s} {u = u} exe_is ext_is a,
      )
  | inr (x, is) ↦ elim (extended_cases ((s.exe s.currentexe).mutexlist)) [
    | inr (m, holds) ↦
        let (u, run, exe_is, ext_is) = reporterror_lem sid_waitevent e_resource 1 (evts ∷ []) s in
        inl (
          e_resource,
          u,
          rw (is, holds, run) refl,
          exe_is,
          ext_is,
          IsAlert-same {s = s} {u = u} exe_is ext_is a,
        )
    | inl free ↦ elim (Bool-cases (bit_and evts (s.ext.extended x).events_pending == 0)) [
      | inl waits ↦ inr (
        x,
        is,
        free,
        ground arith,
        waits_for s evts x rest is free waits ∙ wait_for_lem s x evts rest jb,
        waiting_state-IsAlert s x evts rest a is (ground arith),
      )
      | inr goes_on ↦ inl (e_ok, s, rw (is, free, goes_on) refl, refl, refl, a)
    ]
  ]
]

pub clearevent-IsAlert :
    (s : Os) (evts : ℕ)
    → IsAlert s
    → is_waiting (s.exe s.currentexe).state ≡ false
    → Leaves IsAlert (clearevent evts s)
unfolding clearevent clears
clearevent-IsAlert s evts a runs = elim (extended_cases ((s.exe s.currentexe).extended)) [
  | inl basic ↦ rw basic (reporterror-IsAlert sid_clearevent e_access 1 (evts ∷ []) s a)
  | inr (x, is) ↦ rw is (clears-IsAlert s x evts a is runs)
]

module _ (runqueued : (high low : ℕ) → Cmd Os (Unit {0}))
    (keeps : (high low : ℕ) (s : Os) → IsAlert s → Leaves IsAlert (runqueued high low s)) where
  release-IsAlert :
      (t : ℕ) (s : Os)
      → IsAlert (with_exe t (λ r. record r { state = ready }) s)
      → Leaves IsAlert (release runqueued t s)
  unfolding release
  release-IsAlert t s a =
      let s' = with_exe t (λ r. record r { state = ready }) s in
      Leaves-then (enqueue (s.exe t).baseprio t s')
        (λ _. runqueued (s.exe t).baseprio (s.exe s.currentexe).currprio)
        (enqueue-IsAlert (s.exe t).baseprio t s' a)
        (λ _ u b. keeps (s.exe t).baseprio (s.exe s.currentexe).currprio u b)

  set_extended-IsAlert :
      (t x evts : ℕ) (s : Os)
      → IsAlert s
      → (s.exe t).extended ≡ some x
      → Leaves IsAlert (set_extended runqueued t x evts s)
  unfolding set_extended
  set_extended-IsAlert t x evts s a is =
      let pending = bit_or (s.ext.extended x).events_pending evts in
      let hit =
        is_waiting (s.exe t).state
        && not (bit_and pending (s.ext.extended x).events_awaited == 0) in
      elim (Bool-cases hit) [
        | inl on ↦
            Leaves-then ((if hit then release runqueued t else skip) (marked x pending s))
              (λ _. pure e_ok)
              (rw on (release-IsAlert t (marked x pending s) (readied-IsAlert s t x pending a is)))
              (λ _ u b. b)
        | inr off ↦
            Leaves-then ((if hit then release runqueued t else skip) (marked x pending s))
              (λ _. pure e_ok) (rw off (marked-IsAlert s t x pending a is off)) (λ _ u b. b)
      ]

  -- If no task waits for an event that is pending, and different tasks have different entries, then
  -- this holds after setting events too, if the call returns, with any scheduler that keeps it.
  pub setevent-IsAlert :
      (t evts : ℕ) (s : Os) → IsAlert s → Leaves IsAlert (setevent runqueued t evts s)
  unfolding setevent
  setevent-IsAlert t evts s a = elim (Bool-cases (not_a_task t s.ntask)) [
    | inl bad ↦ rw bad (reporterror-IsAlert sid_setevent e_id 2 (param_of t ∷ (evts ∷ [])) s a)
    | inr task ↦ elim (extended_cases ((s.exe t).extended)) [
      | inl basic ↦
          rw (task, basic)
            (reporterror-IsAlert sid_setevent e_access 2 (param_of t ∷ (evts ∷ [])) s a)
      | inr (x, is) ↦ elim (Bool-cases (is_suspended (s.exe t).state)) [
        | inl off ↦
            rw (task, is, off)
              (reporterror-IsAlert sid_setevent e_state 2 (param_of t ∷ (evts ∷ [])) s a)
        | inr on ↦ rw (task, is, on) (set_extended-IsAlert t x evts s a is)
      ]
    ]
  ]
