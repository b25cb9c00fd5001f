-- ===== src/Davroska/Config/Ceilings.antt =====
-- The priorities of groups: `dv_finishgroup`.
use davros.Base.{
  ℕ, zero, suc, ◌+◌, ◌-◌, ◌≤◌, ◌<◌, ◌≡◌, ◌⊎◌, refl, sym, Bool, true, false, ◌&&◌, arith, ltb, ◌==◌,
  inl, inr, Bool-cases, if◌then◌else◌,
}
use davros.Run.{ok}
use davros.Davroska.State.{Os, ph_addgroups, in_phase, with_exe}
use davros.Davroska.Config.{
  repeat, highest, is_member, any_task, group_priority, raise_runprio, finishgroup,
}

-- `g` is `low` or the highest of both `low` and the base priorities of the `n` executables from `i` on
-- that pass the test.
record IsHighest (p : Os → ℕ → Bool) (s : Os) (n i low g : ℕ) : Type 0 where
  above : low ≤ g
  bound : (j : ℕ) → i ≤ j → j < i + n → p s j ≡ true → (s.exe j).baseprio ≤ g
  attained :
      (g ≡ low) ⊎ ((j : ℕ) × (i ≤ j) × (j < i + n) × (p s j ≡ true) × ((s.exe j).baseprio ≡ g))

module _ (p : Os → ℕ → Bool) (s : Os) where
  highest-IsHighest : (n i low : ℕ) → IsHighest p s n i low (highest p s n i low)
  unfolding highest
  highest-IsHighest zero i low = record {
    above = ground arith;
    bound = λ j a b e. ground arith;
    attained = inl refl;
  }
  highest-IsHighest (suc n) i low = elim (Bool-cases (p s i && ltb low (s.exe i).baseprio)) [
    | inl e ↦
        let rest = highest-IsHighest n (i + 1) (s.exe i).baseprio in
        rw e (record {
          above = ground (arith, rest.above);
          bound = λ j a b q. ground (arith, rest.above, rest.bound j);
          attained = elim rest.attained [
            | inl same ↦ inr (i, ground arith, ground arith, ground arith, sym same)
            | inr (j, a, b, q, same) ↦ inr (j, ground arith, ground arith, q, same)
          ];
        })
    | inr e ↦
        let rest = highest-IsHighest n (i + 1) low in
        rw e (record {
          above = rest.above;
          bound = λ j a b q. ground (arith, rest.above, rest.bound j);
          attained = elim rest.attained [
            | inl same ↦ inl same
            | inr (j, a, b, q, same) ↦ inr (j, ground arith, ground arith, q, same)
          ];
        })
  ]

-- Of the `n` executables from `i` on, the members have a running priority of `g` at least.
record HasRaised (s t : Os) (g n i : ℕ) : Type 0 where
  group_is : t.groupdef ≡ s.groupdef
  member_is :
      (j : ℕ)
      → i ≤ j
      → j < i + n
      → s.groupdef.members j ≡ true
      → t.exe j
        ≡ record (s.exe j) { runprio = if ltb (s.exe j).runprio g then g else (s.exe j).runprio }
  others_are :
      (j : ℕ) → (j < i) ⊎ ((i + n ≤ j) ⊎ (s.groupdef.members j ≡ false)) → t.exe j ≡ s.exe j

repeat-raise :
    (g n i : ℕ) (s : Os)
    → (t : Os) × (repeat n i (raise_runprio g) s ≡ ok tt t) × HasRaised s t g n i
unfolding raise_runprio
repeat-raise g zero i s = (
  s,
  refl,
  record { group_is = refl; member_is = λ j a b m. ground arith; others_are = λ j o. refl },
)
repeat-raise g (suc n) i s = elim (Bool-cases (s.groupdef.members i && ltb (s.exe i).runprio g)) [
  | inl e ↦
      let s₁ = with_exe i (λ r. record r { runprio = g }) s in
      let (t, run, has) = repeat-raise g n (i + 1) s₁ in
      (
        t,
        rw e run,
        record {
          group_is = has.group_is;
          member_is = λ j a b m. ground (arith, has.member_is j, has.others_are j);
          others_are = λ j o. ground (arith, has.others_are j);
        },
      )
  | inr e ↦
      let (t, run, has) = repeat-raise g n (i + 1) s in
      (
        t,
        rw e run,
        record {
          group_is = has.group_is;
          member_is = λ j a b m. ground (arith, has.member_is j, has.others_are j);
          others_are = λ j o. ground (arith, has.others_are j);
        },
      )
]

-- Whether the priority of executable `j` counts for the priority of the group.
abbrev pub counts : Os → ℕ → Bool
counts s j =
    if s.groupdef.no_preempt
    then ltb 0 j && ltb j s.ntask
    else ltb 0 j && (ltb j s.nexe && s.groupdef.members j)

-- The group, whose priority is `g`, is finished.
pub record HasFinished (s t : Os) (g : ℕ) : Type 0 where
  pub bound : (j : ℕ) → counts s j ≡ true → (s.exe j).baseprio ≤ g
  pub attained : (g ≡ 0) ⊎ ((j : ℕ) × (counts s j ≡ true) × ((s.exe j).baseprio ≡ g))
  pub member_is :
      (j : ℕ)
      → 0 < j
      → j < s.nexe
      → s.groupdef.members j ≡ true
      → t.exe j
        ≡ record (s.exe j) { runprio = if ltb (s.exe j).runprio g then g else (s.exe j).runprio }
  pub others_are :
      (j : ℕ) → (j ≡ 0) ⊎ ((s.nexe ≤ j) ⊎ (s.groupdef.members j ≡ false)) → t.exe j ≡ s.exe j
  pub name_is : t.groupdef.name ≡ 0

record IsPriority (s : Os) (g : ℕ) : Type 0 where
  bound : (j : ℕ) → counts s j ≡ true → (s.exe j).baseprio ≤ g
  attained : (g ≡ 0) ⊎ ((j : ℕ) × (counts s j ≡ true) × ((s.exe j).baseprio ≡ g))

group_priority-IsPriority : (s : Os) → IsPriority s (group_priority s)
unfolding group_priority highest
group_priority-IsPriority s = elim (Bool-cases s.groupdef.no_preempt) [
  | inl e ↦
      let is = highest-IsHighest any_task s (s.ntask - 1) 1 0 in
      rw e (record {
        bound = λ j c. ground (arith, is.bound j);
        attained = elim is.attained [
          | inl zero_is ↦ inl zero_is
          | inr (j, a, b, q, same) ↦ inr (j, ground arith, same)
        ];
      })
  | inr e ↦
      let is = highest-IsHighest is_member s (s.nexe - 1) 1 0 in
      rw e (record {
        bound = λ j c. ground (arith, is.bound j);
        attained = elim is.attained [
          | inl zero_is ↦ inl zero_is
          | inr (j, a, b, q, same) ↦ inr (j, ground arith, same)
        ];
      })
]

-- If a group is under configuration, finishing it raises the running priority of each member, if it
-- is lower, to the priority of the group, which is the highest base priority of all tasks if the
-- group is not to preempt, and else of the group's members (0 if there are none). All other
-- executables and all else of the members stay as they are, and no group is under configuration.
pub finishgroup_lem :
    (s : Os)
    → in_phase s.configstate ph_addgroups ≡ true
    → (s.groupdef.name == 0) ≡ false
    → (t : Os) × (g : ℕ) × (finishgroup s ≡ ok tt t) × HasFinished s t g
unfolding finishgroup
finishgroup_lem s phase named =
    let g = group_priority s in
    let is = group_priority-IsPriority s in
    let (t, run, has) = repeat-raise g (s.nexe - 1) 1 s in
    (
      record t { groupdef = record t.groupdef { name = 0 } },
      g,
      rw (phase, named, run) refl,
      record {
        bound = is.bound;
        attained = is.attained;
        member_is = λ j a b m. has.member_is j (omega arith) (omega arith) m;
        others_are = λ j o. has.others_are j (ground arith);
        name_is = refl;
      },
    )
