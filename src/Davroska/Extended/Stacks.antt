-- ===== src/Davroska/Extended/Stacks.antt =====
-- The stacks of the extended tasks.
use davros.Base.{
  ℕ, ◌+◌, ◌-◌, ◌*◌, ◌/◌, ◌%◌, ◌^◌, sym, ◌≤◌, ◌<◌, ◌≡◌, refl, ◌⊎◌, inl, inr, Option, none, some, [],
  ◌∷◌, arith, leb, ltb, ◌==◌, Bool-cases,
}
use mathlib.Core.Path.{subst}
use native.Mathlib.Nat.{mod-lt, mod-eq_of_lt, div-add-mod}
use davros.Run.{Run, ok, panic, fault, out_of_fuel}
use davros.Davroska.State.{
  Os, ExtendedTasks, Sizes, Sid, Status, with_ext, with_exe, with_extended, in_phase, ph_addtasks,
  below_one, e_limit, e_value, e_calllevel, sid_addexe, sid_addtask, sid_addextendedtask,
}
use davros.Davroska.Config.{refuse, addexe, count_task, addtask}
use davros.Davroska.Extended.{stackround, add_stack, give_stack, addextendedtask}
use davros.Davroska.Extended.Alert.{reporterror_lem}

-- A run that returns with the extended tasks `x`.
abbrev Keeps : {A : Type 0} → ExtendedTasks → Run Os A → Type 0
Keeps x (ok a u) = u.ext ≡ x
Keeps x (panic p) = ⊥
Keeps x fault = ⊥
Keeps x out_of_fuel = ⊥

Keeps-result :
    {A : Type 0} (x : ExtendedTasks) (r : Run Os A)
    → Keeps x r
    → (a : A) × (u : Os) × (r ≡ ok a u) × (u.ext ≡ x)
Keeps-result x (ok a u) h = (a, u, refl, h)
Keeps-result x (panic p) h = elim h [ ]
Keeps-result x fault h = elim h [ ]
Keeps-result x out_of_fuel h = elim h [ ]

refuse-Keeps : (sid : Sid) (e : Status) (p : ℕ) (s : Os) → Keeps s.ext (refuse sid e p s)
refuse-Keeps sid e p s =
    let (u, run, exe_is, ext_is) = reporterror_lem sid e 1 (p ∷ []) s in rw run ext_is

addexe-Keeps :
    (sz : Sizes) (name fn prio maxact : ℕ) (s : Os) → Keeps s.ext (addexe sz name fn prio maxact s)
unfolding addexe
addexe-Keeps sz name fn prio maxact s = elim (Bool-cases (leb sz.maxexe s.nexe)) [
  | inl full ↦ rw full (refuse-Keeps sid_addexe e_limit name s)
  | inr room ↦ elim (Bool-cases (leb sz.maxprio prio)) [
    | inl high ↦ rw (room, high) (refuse-Keeps sid_addexe e_value name s)
    | inr low ↦ elim (Bool-cases (ltb s.highestprio prio)) [
      | inl more ↦ rw (room, low, more) refl
      | inr less ↦ rw (room, low, less) refl
    ]
  ]
]

count_task-Keeps : (prio : ℕ) (id : Option ℕ) (s : Os) → Keeps s.ext (count_task prio id s)
unfolding count_task
count_task-Keeps prio none s = refl
count_task-Keeps prio (some e) s = refl

-- With one activation, which `dv_addextendedtask` asks for.
addtask-Keeps : (sz : Sizes) (name fn prio : ℕ) (s : Os) → Keeps s.ext (addtask sz name fn prio 1 s)
unfolding addtask
addtask-Keeps sz name fn prio s = elim (Bool-cases (in_phase s.configstate ph_addtasks)) [
  | inr off ↦ rw off (refuse-Keeps sid_addtask e_calllevel name s)
  | inl on ↦ elim (Bool-cases (below_one prio)) [
    | inl low ↦ rw (on, low) (refuse-Keeps sid_addtask e_value name s)
    | inr high ↦
        let (id, u, run, same) =
          Keeps-result s.ext (addexe sz name fn prio 1 s) (addexe-Keeps sz name fn prio 1 s) in
        rw (on, high, run)
          (subst (λ x. Keeps x (count_task prio id u)) same (count_task-Keeps prio id u))
  ]
]

-- Stacks in the order in which their tasks were added: none reaches into the next or beyond `extstacks`.
pub record IsStacked (x : ExtendedTasks) : Type 0 where
  pub in_order :
      (i j : ℕ) → i < j → j < x.nextended → (x.extended i).initialsp ≤ (x.extended j).stackbase
  pub within : (i : ℕ) → i < x.nextended → (x.extended i).initialsp ≤ x.extstacks

-- Task `e` has got the next entry and the next stack, of `bytes` bytes at least.
pub record HasStack (sz : Sizes) (x : ExtendedTasks) (u : Os) (e bytes : ℕ) : Type 0 where
  pub below_max : x.nextended < sz.maxextended
  pub counted : u.ext.nextended ≡ x.nextended + 1
  pub entry : (u.exe e).extended ≡ some x.nextended
  pub base : (u.ext.extended x.nextended).stackbase ≡ x.extstacks
  pub size : (u.ext.extended x.nextended).stackbase + bytes ≤ (u.ext.extended x.nextended).initialsp
  pub others : (i : ℕ) → i < x.nextended → u.ext.extended i ≡ x.extended i
  pub stacked : IsStacked u.ext

-- No task has been added, or one has, and has its stack.
abbrev pub Added : Sizes → Os → (bytes : ℕ) → Run Os (Option ℕ) → Type 0
Added sz s bytes r =
    ((u : Os) × (r ≡ ok none u) × (u.ext ≡ s.ext))
    ⊎ ((e : ℕ) × (u : Os) × (r ≡ ok (some e) u) × HasStack sz s.ext u e bytes)

module _ (sz : Sizes) (canary : 0 < sz.canary) (word : 0 < sz.stackword)
    (fits : sz.stackword ≤ sz.canary) where
  stackround-up :
      (n : ℕ)
      → n + sz.canary ≤ sz.addresses
      → (n ≤ stackround sz n) × (stackround sz n < n + sz.canary)
  unfolding stackround
  stackround-up n room =
      let up : (n + sz.canary - 1) % sz.addresses ≡ n + sz.canary - 1 =
        mod-eq_of_lt (omega arith) in
      rw up (omega arith, omega (arith, mod-lt (n + sz.canary - 1) canary))

  -- What a stack takes in the area of stacks.
  abbrev taken : (bytes : ℕ) → ℕ
  taken bytes = (stackround sz bytes + sz.canary) / sz.stackword * sz.stackword

  taken-le : (bytes : ℕ) → bytes + sz.canary ≤ sz.addresses → bytes ≤ taken bytes
  taken-le bytes room =
      let all : ℕ = stackround sz bytes + sz.canary in
      let split : sz.stackword * (all / sz.stackword) + all % sz.stackword ≡ all =
        div-add-mod all sz.stackword in
      let swap : sz.stackword * (all / sz.stackword) ≡ all / sz.stackword * sz.stackword =
        grind arith in
      omega (arith, split, swap, mod-lt all word, (stackround-up bytes room).0)

  taken-fits : (bytes : ℕ) → bytes + sz.canary ≤ sz.addresses → taken bytes < bytes + 2 * sz.canary
  taken-fits bytes room =
      let all : ℕ = stackround sz bytes + sz.canary in
      let split : sz.stackword * (all / sz.stackword) + all % sz.stackword ≡ all =
        div-add-mod all sz.stackword in
      let swap : sz.stackword * (all / sz.stackword) ≡ all / sz.stackword * sz.stackword =
        grind arith in
      omega (arith, split, swap, (stackround-up bytes room).1)

  -- A stack of that many bytes fits below the end of the addresses.
  abbrev pub HasSpace : (s : Os) (bytes : ℕ) → Type 0
  HasSpace s bytes = s.ext.extstacks + bytes + 2 * sz.canary ≤ sz.addresses

  add_stack-HasStack :
      (s : Os) (e bytes : ℕ)
      → IsStacked s.ext
      → s.ext.nextended < sz.maxextended
      → HasSpace s bytes
      → (u : Os) × (add_stack sz e bytes s ≡ ok tt u) × HasStack sz s.ext u e bytes
  unfolding add_stack
  add_stack-HasStack s e bytes stacked below space =
      let room : bytes + sz.canary ≤ sz.addresses = omega arith in
      let small : (stackround sz bytes + sz.canary) % sz.addresses
          ≡ stackround sz bytes + sz.canary =
        mod-eq_of_lt (omega (arith, (stackround-up bytes room).1)) in
      let fit : (s.ext.extstacks + taken bytes) % sz.addresses ≡ s.ext.extstacks + taken bytes =
        mod-eq_of_lt (omega (arith, taken-fits bytes room)) in
      let n = s.ext.nextended in
      let top = s.ext.extstacks + taken bytes in
      (
        with_ext (λ r. record r { extstacks = top })
            (with_extended n
              (λ r. record r {
                stackbase = s.ext.extstacks;
                stacklen = stackround sz bytes % 2 ^ 32;
                initialsp = top;
              })
              (with_exe e (λ r. record r { extended = some n })
                (with_ext (λ r. record r { nextended = n + 1 }) s))),
        rw (small, fit) refl,
        record {
          below_max = below;
          counted = refl;
          entry = ground arith;
          base = ground arith;
          size = ground (arith, taken-le bytes room);
          others = λ i h. ground arith;
          stacked = record {
            in_order = λ i j h k. ground (arith, stacked.in_order i j, stacked.within i);
            within = λ i h. ground (arith, stacked.within i);
          };
        },
      )

  refused-Added :
      (s : Os) (name bytes : ℕ) (e : Status)
      → Added sz s bytes (refuse sid_addextendedtask e name s)
  refused-Added s name bytes e =
      let (u, run, exe_is, ext_is) = reporterror_lem sid_addextendedtask e 1 (name ∷ []) s in
      inl (u, rw run refl, ext_is)

  give_stack-Added :
      (s u : Os) (bytes : ℕ) (id : Option ℕ)
      → u.ext ≡ s.ext
      → IsStacked s.ext
      → s.ext.nextended < sz.maxextended
      → HasSpace s bytes
      → Added sz s bytes (give_stack sz bytes id u)
  unfolding give_stack
  give_stack-Added s u bytes none same stacked below space = inl (u, refl, same)
  give_stack-Added s u bytes (some e) same stacked below space =
      let (v, run, has) =
        add_stack-HasStack u e bytes (subst IsStacked (sym same) stacked) (rw same below)
          (rw same space) in
      inr (e, v, rw run refl, subst (λ x. HasStack sz x v e bytes) same has)

  -- If the stacks that there are lie in order, the canary is not smaller than a word of a stack,
  -- which is not empty, and a stack of the given bytes, with two canaries, fits between the last
  -- stack and the end of the addresses, then adding an extended task either adds none, and leaves
  -- the entries and stacks as they were, or the task gets the next of the entries, of which there
  -- are no more than the maximum, and the next stack, which has at least the bytes that were asked
  -- for; the other entries stay, and the stacks lie in order, none reaching into another.
  pub addextendedtask_lem :
      (s : Os) (name fn prio bytes : ℕ)
      → IsStacked s.ext
      → HasSpace s bytes
      → Added sz s bytes (addextendedtask sz name fn prio bytes s)
  unfolding addextendedtask
  addextendedtask_lem s name fn prio bytes stacked space =
      elim (Bool-cases (in_phase s.configstate ph_addtasks)) [
        | inr off ↦ rw off (refused-Added s name bytes e_calllevel)
        | inl on ↦ elim (Bool-cases (leb sz.maxextended s.ext.nextended)) [
          | inl full ↦ rw (on, full) (refused-Added s name bytes e_limit)
          | inr room ↦ elim (Bool-cases (bytes == 0)) [
            | inl empty ↦ rw (on, room, empty) (refused-Added s name bytes e_value)
            | inr some_bytes ↦
                let (id, u, run, same) =
                  Keeps-result s.ext (addtask sz name fn prio 1 s)
                    (addtask-Keeps sz name fn prio s) in
                rw (on, room, some_bytes, run)
                  (give_stack-Added s u bytes id same stacked (ground arith) space)
          ]
        ]
      ]
