-- ===== src/Davroska/Time/Expire.antt =====
-- The loop of `dv_advancecounter` ends, with no alarm left that is due.
use davros.Base.{
  ℕ, zero, suc, ◌+◌, ◌-◌, ◌%◌, ◌^◌, ◌≤◌, ◌<◌, ◌≡◌, refl, inl, inr, true, false, List, [], ◌∷◌, ◌++◌,
  arith, ◌==◌, leb, has, length, length-append, sym, ap, ◌∙◌, Bool-cases,
}
use mathlib.Core.Path.{subst}
use davros.Run.{ok, Cmd}
use davros.Dll.Walk.{All, All-imp}
use davros.Davroska.State.{Os, with_alarm, with_counter}
use davros.Davroska.Time.{repeat_alarm, expire_alarms, stopped}
use davros.Davroska.Time.Links.{Linked-frame}
use davros.Davroska.Time.Insert.{next_of, time_of, IsAlarmList, Sorted-frame, setalarm_lem}

-- Counters and alarms are the same.
pub record SameTime (s t : Os) : Type 0 where
  pub alarm_is : t.alarm ≡ s.alarm
  pub counter_is : t.counter ≡ s.counter
  pub nalarm_is : t.nalarm ≡ s.nalarm

-- The expiry functions return, and leave counters and alarms alone.
abbrev pub IsQuiet : ((f a d : ℕ) → Cmd Os ℕ) → Type 0
IsQuiet expiry =
    (f a d : ℕ) (s : Os) → (inc : ℕ) × (t : Os) × (expiry f a d s ≡ ok inc t) × SameTime s t

-- How many ticks the alarms `xs` are behind a counter of value `v`, each one tick more than it is due.
abbrev pub ticks_due : (v : ℕ) (time : ℕ → ℕ) → List ℕ → ℕ
ticks_due v time [] = 0
ticks_due v time (x ∷ xs) = (v + 1 - time x) + ticks_due v time xs

ticks_due-insert :
    (v : ℕ) (time : ℕ → ℕ) (xs : List ℕ) (a : ℕ) (ys : List ℕ)
    → ticks_due v time (xs ++ a ∷ ys) ≡ (v + 1 - time a) + ticks_due v time (xs ++ ys)
ticks_due-insert v time [] a ys = refl
ticks_due-insert v time (x ∷ xs) a ys = omega (arith, ticks_due-insert v time xs a ys)

ticks_due-frame :
    (v : ℕ) (f g : ℕ → ℕ) (xs : List ℕ)
    → ((j : ℕ) → has j xs ≡ true → g j ≡ f j)
    → ticks_due v g xs ≡ ticks_due v f xs
ticks_due-frame v f g [] e = refl
ticks_due-frame v f g (x ∷ xs) e =
    ground (arith, e x (ground arith), ticks_due-frame v f g xs (λ j h. e j (ground arith)))

IsAlarmList-same :
    {s t : Os} (c : ℕ) (xs : List ℕ) → SameTime s t → IsAlarmList s c xs → IsAlarmList t c xs
IsAlarmList-same c xs e is = record {
  linked = rw (e.alarm_is, e.counter_is) is.linked;
  distinct = is.distinct;
  sorted = rw e.alarm_is is.sorted;
}

-- The first alarm taken off the list.
abbrev taken_off : Os → (c x : ℕ) → Os
taken_off s c x = with_counter c (λ r. record r { head = next_of s x }) s

module _ (s : Os) (c x : ℕ) (xs : List ℕ) (is : IsAlarmList s c (x ∷ xs)) where
  taken_off-IsAlarmList : IsAlarmList (taken_off s c x) c xs
  taken_off-IsAlarmList =
      let head_is : ((taken_off s c x).counter c).head ≡ next_of s x = ground arith in
      record { linked = rw head_is is.linked.1; distinct = is.distinct.1; sorted = is.sorted.1 }

not_first : (a : ℕ) (xs : List ℕ) → has a xs ≡ false → (j : ℕ) → has j xs ≡ true → (a == j) ≡ false
not_first a [] o j h = cc
not_first a (x ∷ xs) o j h = elim (Bool-cases (has j xs)) [
  | inl e ↦ not_first a xs (ground arith) j e
  | inr e ↦ ground arith
]

-- After the repetition of alarm `x`, which had been taken off, fewer ticks are due.
pub record HasRepeated (s t : Os) (c x : ℕ) (xs ys : List ℕ) : Type 0 where
  pub list : IsAlarmList t c ys
  pub value_is : (t.counter c).value ≡ (s.counter c).value
  pub nalarm_is : t.nalarm ≡ s.nalarm
  pub shorter : length ys ≤ length xs + 1
  pub fewer :
      ticks_due (s.counter c).value (time_of t) ys
      ≤ ticks_due (s.counter c).value (time_of s) xs + ((s.counter c).value - time_of s x)

module _ (expiry : (f a d : ℕ) → Cmd Os ℕ) where
  stops :
      (s : Os) (c x inc : ℕ) (xs : List ℕ)
      → IsAlarmList s c xs
      → has x xs ≡ false
      → leb ((time_of s x + inc) % 2 ^ 64) (time_of s x) ≡ true
      → (t : Os) × (repeat_alarm expiry c x inc s ≡ ok tt t) × HasRepeated s t c x xs xs
  unfolding repeat_alarm
  stops s c x inc xs is out stop =
      let t = with_alarm x stopped s in
      let times : (j : ℕ) → has j xs ≡ true → time_of t j ≡ time_of s j =
        λ j h. ground (arith, not_first x xs out j h) in
      (
        t,
        rw stop refl,
        record {
          list = record {
            linked =
                Linked-frame (next_of s) (next_of t) (s.counter c).head xs
                  (λ j h. ground (arith, not_first x xs out j h)) is.linked;
            distinct = is.distinct;
            sorted = Sorted-frame (time_of s) (time_of t) xs times is.sorted;
          };
          value_is = refl;
          nalarm_is = refl;
          shorter = omega arith;
          fewer =
              ground (arith, ticks_due-frame (s.counter c).value (time_of s) (time_of t) xs times);
        },
      )

  goes_on :
      (s : Os) (c x inc : ℕ) (xs : List ℕ)
      → IsAlarmList s c xs
      → has x xs ≡ false
      → length xs ≤ s.nalarm
      → leb ((time_of s x + inc) % 2 ^ 64) (time_of s x) ≡ false
      → (t : Os) × (ys : List ℕ) × (repeat_alarm expiry c x inc s ≡ ok tt t)
        × HasRepeated s t c x xs ys
  unfolding repeat_alarm
  goes_on s c x inc xs is out enough on =
      let v = (time_of s x + inc) % 2 ^ 64 in
      let more : time_of s x < v = ground arith in
      let (t, before, after, run, split, set) = setalarm_lem s c x v xs is out enough in
      let times : (j : ℕ) → has j xs ≡ true → time_of t j ≡ time_of s j =
        λ j h. ground (arith, set.time_at j, not_first x xs out j h) in
      let at_x : time_of t x ≡ v = ground (arith, set.time_at x) in
      let total : ticks_due (s.counter c).value (time_of t) (before ++ after)
          ≡ ticks_due (s.counter c).value (time_of s) xs =
        subst
          (λ l.
            ticks_due (s.counter c).value (time_of t) l
            ≡ ticks_due (s.counter c).value (time_of s) xs)
          (sym split) (ticks_due-frame (s.counter c).value (time_of s) (time_of t) xs times) in
      (
        t,
        before ++ x ∷ after,
        rw on run,
        record {
          list = set.list;
          value_is = set.value_at c;
          nalarm_is = set.nalarm_is;
          shorter = ground (arith, lengths before after, ap length split);
          fewer = ground (
            arith,
            total,
            at_x,
            more,
            ticks_due-insert (s.counter c).value (time_of t) before x after,
          );
        },
      )
    where
      lengths : (b r : List ℕ) → length (b ++ x ∷ r) ≡ length (b ++ r) + 1
      lengths b r = ground (arith, length-append b (x ∷ r), length-append b r)

-- One round of the loop, with an alarm that is due.
record IsRound (expiry : (f a d : ℕ) → Cmd Os ℕ) (s t : Os) (c x : ℕ) (xs ys : List ℕ)
    : Type 0 where
  run : (fuel : ℕ) → expire_alarms expiry (suc fuel) c s ≡ expire_alarms expiry fuel c t
  list : IsAlarmList t c ys
  enough : length ys ≤ t.nalarm
  value_is : (t.counter c).value ≡ (s.counter c).value
  fewer :
      ticks_due (s.counter c).value (time_of t) ys
      < ticks_due (s.counter c).value (time_of s) (x ∷ xs)

module _ (expiry : (f a d : ℕ) → Cmd Os ℕ) (quiet : IsQuiet expiry) (c : ℕ) where
  repeats :
      (s : Os) (x inc : ℕ) (xs : List ℕ)
      → IsAlarmList s c xs
      → has x xs ≡ false
      → length xs ≤ s.nalarm
      → (t : Os) × (ys : List ℕ) × (repeat_alarm expiry c x inc s ≡ ok tt t)
        × HasRepeated s t c x xs ys
  repeats s x inc xs is out enough =
      elim (Bool-cases (leb ((time_of s x + inc) % 2 ^ 64) (time_of s x))) [
        | inl stop ↦
            let (t, run, done) = stops expiry s c x inc xs is out stop in (t, xs, run, done)
        | inr on ↦ goes_on expiry s c x inc xs is out enough on
      ]

  round :
      (s : Os) (x : ℕ) (xs : List ℕ)
      → IsAlarmList s c (x ∷ xs)
      → length (x ∷ xs) ≤ s.nalarm
      → leb (time_of s x) (s.counter c).value ≡ true
      → (t : Os) × (ys : List ℕ) × IsRound expiry s t c x xs ys
  unfolding expire_alarms
  round s x xs is enough due =
      let s₁ = taken_off s c x in
      let (inc, s₂, called, same) =
        quiet (s.alarm x).expiryfunction x (s.alarm x).expiryfunctiondata s₁ in
      let is₂ = IsAlarmList-same c xs same (taken_off-IsAlarmList s c x xs is) in
      let (t, ys, run, done) =
        repeats s₂ x inc xs is₂ is.distinct.0 (ground (arith, same.nalarm_is)) in
      let value₂ : (s₂.counter c).value ≡ (s.counter c).value = rw same.counter_is (ground arith) in
      let fewer₂ : ticks_due (s.counter c).value (time_of t) ys
          ≤ ticks_due (s.counter c).value (time_of s) xs + ((s.counter c).value - time_of s x) =
        subst (λ v. ticks_due v (time_of t) ys ≤ ticks_due v (time_of s) xs + (v - time_of s x))
          value₂
          (subst
            (λ al.
              ticks_due (s₂.counter c).value (time_of t) ys
              ≤ ticks_due (s₂.counter c).value (λ j. (al j).expirytime) xs
                + ((s₂.counter c).value - (al x).expirytime))
            same.alarm_is done.fewer) in
      (
        t,
        ys,
        record {
          run = λ fuel. rw (is.linked.0, due, called, run) refl;
          list = done.list;
          enough = ground (arith, done.shorter, done.nalarm_is, same.nalarm_is);
          value_is = done.value_is ∙ value₂;
          fewer = ground (arith, fewer₂);
        },
      )

  -- If the expiry functions return and leave counters and alarms alone, and the alarms on a counter
  -- are a list in the order of their times, no longer than the number of alarms, then the loop of a
  -- counter's advance ends, given more fuel than the sum, over the alarms, of the ticks by which
  -- each is due, plus one. After it the alarms on the counter are a list in order again, all of
  -- them later than the counter's value, which is the same.
  pub expire_alarms_lem :
      (s : Os) (xs : List ℕ) (fuel : ℕ)
      → IsAlarmList s c xs
      → length xs ≤ s.nalarm
      → ticks_due (s.counter c).value (time_of s) xs < fuel
      → (t : Os) × (ys : List ℕ) × (expire_alarms expiry fuel c s ≡ ok tt t)
        × IsAlarmList t c ys
        × All (λ y. (s.counter c).value < time_of t y) ys
        × ((t.counter c).value ≡ (s.counter c).value)
  unfolding expire_alarms
  expire_alarms_lem s xs zero is enough h = elim h [ ]
  expire_alarms_lem s [] (suc fuel) is enough h = (s, [], rw is.linked refl, is, tt, refl)
  expire_alarms_lem s (x ∷ xs) (suc fuel) is enough h =
      elim (Bool-cases (leb (time_of s x) (s.counter c).value)) [
        | inr later ↦ (
          s,
          x ∷ xs,
          rw (is.linked.0, later) refl,
          is,
          (ground arith, All-imp xs (λ y l. ground arith) is.sorted.0),
          refl,
        )
        | inl due ↦
            let (t, ys, did) = round s x xs is enough due in
            let few : ticks_due (t.counter c).value (time_of t) ys < fuel =
              rw did.value_is (ground (arith, did.fewer)) in
            let (u, zs, run, list, all, value) =
              expire_alarms_lem t ys fuel did.list did.enough few in
            (
              u,
              zs,
              did.run fuel ∙ run,
              list,
              subst (λ v. All (λ y. v < time_of u y) zs) did.value_is all,
              value ∙ did.value_is,
            )
      ]
