-- ===== src/Davroska/Time/Stop.antt =====
-- Stopping an alarm takes it out of its list: `dv_stopalarm`.
use davros.Base.{
  ℕ, zero, suc, ◌+◌, ◌≤◌, ◌<◌, ◌≡◌, ◌≢◌, refl, ap, ◌∙◌, true, false, Option, none, some, List, [],
  ◌∷◌, ◌++◌, arith, ◌==◌, leb, has, update, length, same_ref, inl, inr, Bool-cases,
}
use davros.Run.{ok}
use davros.Dll.Ring.{Distinct, last_of, last_of-has, has-append}
use davros.Dll.Walk.{All, Sorted}
use davros.Davroska.State.{Os, with_alarm, with_counter, e_ok, out_of_table}
use davros.Davroska.Time.{stopped, find_before, stopalarm}
use davros.Davroska.Time.Links.{Linked, Linked-frame}
use davros.Davroska.Time.Insert.{next_of, time_of, Earlier, IsAlarmList, Sorted-frame}

All-remove :
    (P : ℕ → Type 0) (xs : List ℕ) (a : ℕ) (ys : List ℕ) → All P (xs ++ a ∷ ys) → All P (xs ++ ys)
All-remove P [] a ys h = h.1
All-remove P (x ∷ xs) a ys h = (h.0, All-remove P xs a ys h.1)

Sorted-remove :
    (R : ℕ → ℕ → Type 0) (xs : List ℕ) (a : ℕ) (ys : List ℕ)
    → Sorted R (xs ++ a ∷ ys)
    → Sorted R (xs ++ ys)
Sorted-remove R [] a ys s = s.1
Sorted-remove R (x ∷ xs) a ys s = (All-remove (R x) xs a ys s.0, Sorted-remove R xs a ys s.1)

Distinct-remove :
    (xs : List ℕ) (a : ℕ) (ys : List ℕ)
    → Distinct (xs ++ a ∷ ys)
    → Distinct (xs ++ ys) × (has a (xs ++ ys) ≡ false)
Distinct-remove [] a ys d = (d.1, d.0)
Distinct-remove (x ∷ xs) a ys d =
    let (rest, out) = Distinct-remove xs a ys d.1 in
    (
      (ground (arith, d.0, has-append x xs (a ∷ ys), has-append x xs ys), rest),
      ground (arith, d.0, has-append x xs (a ∷ ys), out),
    )

-- The links after `a` has been taken out from behind `q`.
abbrev taken_out : (ℕ → Option ℕ) → (q a : ℕ) → ℕ → Option ℕ
taken_out m q a = update (update m q (m a)) a none

Linked-taken_out :
    (m : ℕ → Option ℕ) (a x : ℕ) (ys after : List ℕ)
    → Linked m (m x) (ys ++ a ∷ after)
    → Distinct (x ∷ (ys ++ a ∷ after))
    → Linked (taken_out m (last_of x ys) a) (taken_out m (last_of x ys) a x) (ys ++ after)
Linked-taken_out m a x [] after l d =
    let at_x : taken_out m x a x ≡ m a = ground (arith, d) in
    rw at_x (Linked-frame m (taken_out m x a) (m a) after (λ j h. ground (arith, d)) l.1)
Linked-taken_out m a x (y ∷ ys) after l d =
    let q = last_of y ys in
    let apart : x ≢ q = ground (arith, d, last_of-has y ys, has-append x (y ∷ ys) (a ∷ after)) in
    let other : x ≢ a = ground (arith, d, has-append x (y ∷ ys) (a ∷ after)) in
    let at_x : taken_out m q a x ≡ m x = ground arith in
    (at_x ∙ l.0, Linked-taken_out m a y ys after l.1 d.1)

module _ (s : Os) (a : ℕ) where
  find_before-ok :
      (fuel x : ℕ) (ys after : List ℕ)
      → Linked (next_of s) (next_of s x) (ys ++ a ∷ after)
      → Distinct (x ∷ (ys ++ a ∷ after))
      → All (λ j. j < s.nalarm) (x ∷ (ys ++ a ∷ after))
      → length ys < fuel
      → find_before fuel (some x) a s ≡ ok (last_of x ys) s
  unfolding find_before
  find_before-ok zero x ys after l d all h = elim h [ ]
  find_before-ok (suc fuel) x [] after l d all h =
      let inside : leb s.nalarm x ≡ false = ground (arith, all.0) in
      let here : same_ref (next_of s x) (some a) ≡ true = rw l.0 (ground arith) in
      rw (inside, here) refl
  find_before-ok (suc fuel) x (y ∷ ys) after l d all h =
      let inside : leb s.nalarm x ≡ false = ground (arith, all.0) in
      let other : (y == a) ≡ false = ground (arith, d.1, has-append y ys (a ∷ after)) in
      let there : same_ref (next_of s x) (some a) ≡ false = rw l.0 other in
      rw (inside, there, l.0) (find_before-ok fuel y ys after l.1 d.1 all.1 (omega arith))

-- Alarm `a` is stopped, and the times of the others are as before.
pub record HasStopped (s t : Os) (c a : ℕ) (xs : List ℕ) : Type 0 where
  pub list : IsAlarmList t c xs
  pub alarm_is : t.alarm a ≡ stopped (s.alarm a)
  pub time_at : (j : ℕ) → (a == j) ≡ false → time_of t j ≡ time_of s j

module _ (s : Os) (c a : ℕ) where
  remove_first :
      (after : List ℕ)
      → IsAlarmList s c (a ∷ after)
      → HasStopped s
          (with_alarm a stopped (with_counter c (λ r. record r { head = next_of s a }) s))
          c
          a
          after
  remove_first after is =
      let t = with_alarm a stopped (with_counter c (λ r. record r { head = next_of s a }) s) in
      let head_is : (t.counter c).head ≡ next_of s a = ground arith in
      let times : (j : ℕ) → (a == j) ≡ false → time_of t j ≡ time_of s j = λ j e. ground arith in
      record {
        list = record {
          linked = rw head_is (
              Linked-frame (next_of s) (next_of t) (next_of s a) after
                (λ j h. ground (arith, is.distinct.0)) is.linked.1);
          distinct = is.distinct.1;
          sorted =
              Sorted-frame (time_of s) (time_of t) after (λ j h. ground (arith, is.distinct.0))
                is.sorted.1;
        };
        alarm_is = ground arith;
        time_at = times;
      }

  remove_behind :
      (x : ℕ) (ys after : List ℕ)
      → IsAlarmList s c (x ∷ (ys ++ a ∷ after))
      → HasStopped s
          (with_alarm a stopped
            (with_alarm (last_of x ys) (λ r. record r { nextalarm = next_of s a }) s))
          c
          a
          (x ∷ (ys ++ after))
  remove_behind x ys after is =
      let q = last_of x ys in
      let t = with_alarm a stopped (with_alarm q (λ r. record r { nextalarm = next_of s a }) s) in
      let (distinct, out) = Distinct-remove (x ∷ ys) a after is.distinct in
      let apart : q ≢ a =
        ground (
          arith,
          last_of-has x ys,
          out,
          has-append q (x ∷ ys) after,
          has-append a (x ∷ ys) after,
        ) in
      let times : (j : ℕ) → (a == j) ≡ false → time_of t j ≡ time_of s j = λ j e. ground arith in
      let links : (j : ℕ) → next_of t j ≡ taken_out (next_of s) q a j =
        λ j. ground (arith, apart) in
      record {
        list = record {
          linked = (
            is.linked.0,
            Linked-frame (taken_out (next_of s) q a) (next_of t) (next_of t x) (ys ++ after)
                (λ j h. links j)
                (rw (links x) (Linked-taken_out (next_of s) a x ys after is.linked.1 is.distinct)),
          );
          distinct = distinct;
          sorted =
              Sorted-frame (time_of s) (time_of t) (x ∷ (ys ++ after))
                (λ j h. times j (not_in (x ∷ (ys ++ after)) out j h))
                (Sorted-remove (Earlier (time_of s)) (x ∷ ys) a after is.sorted);
        };
        alarm_is = ground (arith, apart);
        time_at = times;
      }
    where
      not_in : (xs : List ℕ) → has a xs ≡ false → (j : ℕ) → has j xs ≡ true → (a == j) ≡ false
      not_in xs o j h = elim (Bool-cases (a == j)) [ inl e ↦ ground arith | inr e ↦ e ]

  -- If an alarm in the table is on the list of its counter, whose alarms are in order, in the
  -- table, and no more before it than there are alarms, then stopping it answers no error: the list
  -- has the other alarms in their order and with their times, and the alarm has no time and no
  -- counter.
  pub stopalarm_lem :
      (before after : List ℕ)
      → IsAlarmList s c (before ++ a ∷ after)
      → All (λ j. j < s.nalarm) (before ++ a ∷ after)
      → length before ≤ s.nalarm
      → out_of_table a s.nalarm ≡ false
      → (s.alarm a).counter ≡ some c
      → c < s.ncounter
      → (t : Os) × (stopalarm a s ≡ ok e_ok t) × HasStopped s t c a (before ++ after)
  unfolding stopalarm
  stopalarm_lem [] after is all enough inside on small =
      let there : leb s.ncounter c ≡ false = ground arith in
      let first : same_ref (s.counter c).head (some a) ≡ true = rw is.linked.0 (ground arith) in
      (_, rw (inside, on, there, first) refl, remove_first after is)
  stopalarm_lem (x ∷ ys) after is all enough inside on small =
      let there : leb s.ncounter c ≡ false = ground arith in
      let (distinct, out) = Distinct-remove (x ∷ ys) a after is.distinct in
      let other : same_ref (s.counter c).head (some a) ≡ false =
        rw is.linked.0 (ground (arith, out)) in
      let pred : find_before (s.nalarm + 1) (s.counter c).head a s ≡ ok (last_of x ys) s =
        rw is.linked.0 (
          find_before-ok s a (s.nalarm + 1) x ys after is.linked.1 is.distinct all (omega arith)) in
      let runs : (t : Os)
          → with_alarm a stopped
              (with_alarm (last_of x ys) (λ r. record r { nextalarm = next_of s a }) s)
            ≡ t
          → stopalarm a s ≡ ok e_ok t =
        λ t e. rw (inside, on, there, other, pred) (ap (ok e_ok) e) in
      (_, runs _ refl, remove_behind x ys after is)
