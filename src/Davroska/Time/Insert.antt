-- ===== src/Davroska/Time/Insert.antt =====
-- Setting an alarm is an insertion into a sorted list: `dv_setalarm`.
use davros.Base.{
  ℕ, zero, suc, ◌≤◌, ◌<◌, ◌≡◌, refl, inl, inr, Bool, true, false, Option, none, some, List, [], ◌∷◌,
  ◌++◌, arith, ◌==◌, ltb, leb, has, length, sym, ap, ◌∙◌, Bool-cases, if◌then◌else◌,
}
use mathlib.Core.Path.{subst}
use davros.Run.{ok}
use davros.Dll.Ring.{Distinct, Distinct-insert, last_of}
use davros.Dll.Walk.{
  All, All-imp, Sorted, front, rest, front-append-rest, All-front, All-rest, Sorted-insert,
}
use davros.Davroska.State.{Os, with_alarm, with_counter}
use davros.Davroska.Time.{find_place, link_alarm, setalarm}
use davros.Davroska.Time.Links.{Linked, Linked-frame, put_behind, Linked-put_behind}

abbrev pub next_of : Os → ℕ → Option ℕ
next_of s j = (s.alarm j).nextalarm

abbrev pub time_of : Os → ℕ → ℕ
time_of s j = (s.alarm j).expirytime

-- `x` does not expire after `y`.
abbrev pub Earlier : (ℕ → ℕ) → ℕ → ℕ → Type 0
Earlier f x y = f x ≤ f y

-- The alarms set on counter `c` are `xs`, in the order of their expiry.
pub record IsAlarmList (s : Os) (c : ℕ) (xs : List ℕ) : Type 0 where
  pub linked : Linked (next_of s) (s.counter c).head xs
  pub distinct : Distinct xs
  pub sorted : Sorted (Earlier (time_of s)) xs

All-frame :
    (P Q : ℕ → Type 0) (xs : List ℕ) → ((j : ℕ) → has j xs ≡ true → P j → Q j) → All P xs → All Q xs
All-frame P Q [] f a = tt
All-frame P Q (x ∷ xs) f a =
    (f x (ground arith) a.0, All-frame P Q xs (λ j h. f j (ground arith)) a.1)

pub Sorted-frame :
    (f g : ℕ → ℕ) (xs : List ℕ)
    → ((j : ℕ) → has j xs ≡ true → g j ≡ f j)
    → Sorted (Earlier f) xs
    → Sorted (Earlier g) xs
Sorted-frame f g [] e s = tt
Sorted-frame f g (x ∷ xs) e s = (
  All-frame (Earlier f x) (Earlier g x) xs
      (λ j h l. ground (arith, e x (ground arith), e j (ground arith))) s.0,
  Sorted-frame f g xs (λ j h. e j (ground arith)) s.1,
)

module _ (s : Os) (v : ℕ) where
  abbrev passes : ℕ → Bool
  passes y = leb (time_of s y) v

  find_place-ok :
      (fuel x : ℕ) (ys : List ℕ)
      → Linked (next_of s) (next_of s x) ys
      → length ys < fuel
      → find_place fuel x v s ≡ ok (last_of x (front passes ys)) s
  unfolding find_place
  find_place-ok zero x ys l h = elim h [ ]
  find_place-ok (suc fuel) x [] l h = rw l
  find_place-ok (suc fuel) x (y ∷ ys) l h = elim (Bool-cases (passes y)) [
    | inl e ↦
        let stop : ltb v (time_of s y) ≡ false = ground arith in
        rw (l.0, stop, e) (find_place-ok fuel y ys l.1 (omega arith))
    | inr e ↦ let stop : ltb v (time_of s y) ≡ true = ground arith in rw (l.0, stop, e)
  ]

-- The alarm with its time and its counter, before it is linked.
abbrev pub timed_alarm : Os → (c a v : ℕ) → Os
timed_alarm s c a v = with_alarm a (λ x. record x { expirytime = v; counter = some c }) s

-- `t` is `s` after alarm `a` has been put between `before` and `after` on counter `c` with time `v`.
pub record HasSet (s t : Os) (c a v : ℕ) (before after : List ℕ) : Type 0 where
  pub list : IsAlarmList t c (before ++ a ∷ after)
  pub earlier : All (λ y. time_of t y ≤ v) before
  pub later : All (λ y. v < time_of t y) after
  pub time_at : (j : ℕ) → time_of t j ≡ (if a == j then v else time_of s j)
  pub value_at : (d : ℕ) → (t.counter d).value ≡ (s.counter d).value
  pub nalarm_is : t.nalarm ≡ s.nalarm

-- The insertion of `a` when it has got its time.
module _ (s : Os) (c a v : ℕ) (at_a : time_of s a ≡ v) where
  insert_after :
      (x : ℕ) (ys : List ℕ)
      → IsAlarmList s c (x ∷ ys)
      → has a (x ∷ ys) ≡ false
      → (time_of s x ≤ v)
      → let pred = last_of x (front (passes s v) ys) in
        HasSet s
          (with_alarm pred
            (λ r. record r { nextalarm = some a })
            (with_alarm a (λ r. record r { nextalarm = next_of s pred }) s))
          c
          a
          v
          (x ∷ front (passes s v) ys)
          (rest (passes s v) ys)
  insert_after x ys is out first =
      let p = passes s v in
      let xs = front p ys in
      let split = front-append-rest p ys in
      let t =
        with_alarm (last_of x xs) (λ r. record r { nextalarm = some a })
          (with_alarm a (λ r. record r { nextalarm = next_of s (last_of x xs) }) s) in
      let out' : has a (x ∷ (xs ++ rest p ys)) ≡ false =
        subst (λ l. has a (x ∷ l) ≡ false) (sym split) out in
      let d : Distinct (x ∷ (xs ++ rest p ys)) =
        subst (λ l. Distinct (x ∷ l)) (sym split) is.distinct in
      let so : Sorted (Earlier (time_of s)) (x ∷ (xs ++ rest p ys)) =
        subst (λ l. Sorted (Earlier (time_of s)) (x ∷ l)) (sym split) is.sorted in
      let l : Linked (next_of s) (next_of s x) (xs ++ rest p ys) =
        subst (Linked (next_of s) (next_of s x)) (sym split) is.linked.1 in
      let passed = All-imp xs (λ y e. at_most y e) (All-front p ys) in
      let failed = All-rest (Earlier (time_of s)) p (λ y z r e. ground arith) ys is.sorted.1 in
      let times : (j : ℕ) → time_of t j ≡ time_of s j = λ j. ground arith in
      let links : (j : ℕ) → next_of t j ≡ put_behind (next_of s) (last_of x xs) a j =
        λ j. ground arith in
      record {
        list = record {
          linked = (
            is.linked.0,
            rw (links x) (
                Linked-frame (put_behind (next_of s) (last_of x xs) a) (next_of t)
                  (put_behind (next_of s) (last_of x xs) a x) (xs ++ a ∷ rest p ys) (λ j h. links j)
                  (Linked-put_behind (next_of s) a x xs (rest p ys) l d out')),
          );
          distinct = Distinct-insert a (x ∷ xs) (rest p ys) d out';
          sorted =
              Sorted-frame (time_of s) (time_of t) (x ∷ (xs ++ a ∷ rest p ys)) (λ j h. times j)
                (Sorted-insert (Earlier (time_of s)) (x ∷ xs) a (rest p ys) so
                  (ground (arith, at_a), All-imp xs (λ y e. ground (arith, at_a)) passed)
                  (All-imp (rest p ys) (λ y e. ground (arith, at_a)) failed));
        };
        earlier = (ground (arith, times x), All-imp xs (λ y e. ground (arith, times y)) passed);
        later = All-imp (rest p ys) (λ y e. ground (arith, times y)) failed;
        time_at = λ j. ground (arith, times j, at_a);
        value_at = λ j. refl;
        nalarm_is = refl;
      }
    where
      at_most : (y : ℕ) → passes s v y ≡ true → time_of s y ≤ v
      at_most y e = ground arith

  insert_first :
      (o : Option ℕ) (xs : List ℕ)
      → o ≡ (s.counter c).head
      → IsAlarmList s c xs
      → has a xs ≡ false
      → All (λ y. v < time_of s y) xs
      → HasSet s
          (with_counter c
            (λ r. record r { head = some a })
            (with_alarm a (λ r. record r { nextalarm = o }) s))
          c
          a
          v
          []
          xs
  insert_first o xs first is out later =
      let t =
        with_counter c (λ r. record r { head = some a })
          (with_alarm a (λ r. record r { nextalarm = o }) s) in
      let times : (j : ℕ) → time_of t j ≡ time_of s j = λ j. ground arith in
      let head_is : (t.counter c).head ≡ some a = ground arith in
      let next_is : next_of t a ≡ (s.counter c).head = ground (arith, first) in
      record {
        list = record {
          linked = (
            head_is,
            rw next_is (
                Linked-frame (next_of s) (next_of t) (s.counter c).head xs (λ j h. ground arith)
                  is.linked),
          );
          distinct = (out, is.distinct);
          sorted = (
            All-imp xs (λ y l. ground (arith, times a, times y, at_a)) later,
            Sorted-frame (time_of s) (time_of t) xs (λ j h. times j) is.sorted,
          );
        };
        earlier = tt;
        later = All-imp xs (λ y l. ground (arith, times y)) later;
        time_at = λ j. ground (arith, times j, at_a);
        value_at = λ j. ground arith;
        nalarm_is = refl;
      }

module _ (s : Os) (c a v : ℕ) where
  timed_alarm-IsAlarmList :
      (xs : List ℕ) → IsAlarmList s c xs → has a xs ≡ false → IsAlarmList (timed_alarm s c a v) c xs
  timed_alarm-IsAlarmList xs is out = record {
    linked =
        Linked-frame (next_of s) (next_of (timed_alarm s c a v)) (s.counter c).head xs
          (λ j h. ground arith) is.linked;
    distinct = is.distinct;
    sorted =
        Sorted-frame (time_of s) (time_of (timed_alarm s c a v)) xs (λ j h. differs xs out j h)
          is.sorted;
  }
    where
      differs :
          (ys : List ℕ)
          → has a ys ≡ false
          → (j : ℕ) → has j ys ≡ true
          → time_of (timed_alarm s c a v) j ≡ time_of s j
      differs ys o j h = let ne : (a == j) ≡ false = apart ys o j h in ground (arith, ne)
        where
          apart : (zs : List ℕ) → has a zs ≡ false → (i : ℕ) → has i zs ≡ true → (a == i) ≡ false
          apart zs o i h = ground arith

  from_timed :
      (t : Os) (before after : List ℕ)
      → HasSet (timed_alarm s c a v) t c a v before after
      → HasSet s t c a v before after
  from_timed t before after h = record {
    list = h.list;
    earlier = h.earlier;
    later = h.later;
    time_at = λ j. ground (arith, h.time_at j);
    value_at = h.value_at;
    nalarm_is = h.nalarm_is;
  }

  -- If the alarms on a counter are a list in the order of their times, no longer than the number of
  -- alarms, and an alarm that is not on it is set for a time, then it is behind all alarms that
  -- expire at that time or earlier and in front of all that expire later, the others keep their
  -- order, and no other alarm's time and no counter's value changes.
  pub setalarm_lem :
      (xs : List ℕ)
      → IsAlarmList s c xs
      → has a xs ≡ false
      → length xs ≤ s.nalarm
      → (t : Os) × (before : List ℕ) × (after : List ℕ) × (setalarm c a v s ≡ ok tt t)
        × (before ++ after ≡ xs)
        × HasSet s t c a v before after
  unfolding setalarm link_alarm
  setalarm_lem [] is out enough =
      let s₁ = timed_alarm s c a v in
      let is₁ = timed_alarm-IsAlarmList [] is out in
      (
        with_counter c (λ r. record r { head = some a })
            (with_alarm a (λ r. record r { nextalarm = none }) s₁),
        [],
        [],
        ap (λ o. link_alarm c a v o s₁) is.linked,
        refl,
        from_timed _ [] []
            (insert_first s₁ c a v (ground arith) none [] (sym is₁.linked) is₁ out tt),
      )
  setalarm_lem (x ∷ ys) is out enough =
      let s₁ = timed_alarm s c a v in
      let is₁ = timed_alarm-IsAlarmList (x ∷ ys) is out in
      let at_a : time_of s₁ a ≡ v = ground arith in
      elim (Bool-cases (ltb v (time_of s₁ x))) [
        | inl first ↦ (
          with_counter c (λ r. record r { head = some a })
              (with_alarm a (λ r. record r { nextalarm = some x }) s₁),
          [],
          x ∷ ys,
          ap (λ o. link_alarm c a v o s₁) is.linked.0 ∙ rw first refl,
          refl,
          from_timed _ [] (x ∷ ys) (
              insert_first s₁ c a v at_a (some x) (x ∷ ys) (sym is₁.linked.0) is₁ out
                (ground arith, All-imp ys (λ y l. ground arith) is₁.sorted.0)),
        )
        | inr later ↦
            let place = find_place-ok s₁ v s.nalarm x ys is₁.linked.1 (ground (arith, enough)) in
            (
              _,
              x ∷ front (passes s₁ v) ys,
              rest (passes s₁ v) ys,
              ap (λ o. link_alarm c a v o s₁) is.linked.0 ∙ rw (later, place) refl,
              rw (front-append-rest (passes s₁ v) ys),
              from_timed _ (x ∷ front (passes s₁ v) ys) (rest (passes s₁ v) ys)
                  (insert_after s₁ c a v at_a x ys is₁ out (ground arith)),
            )
      ]
