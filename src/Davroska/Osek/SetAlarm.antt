-- ===== src/Davroska/Osek/SetAlarm.antt =====
-- The times of OSEK alarms that are set by `SetAbsAlarm`.
use davros.Base.{
  ℕ, suc, ◌+◌, ◌*◌, ◌/◌, ◌%◌, ◌^◌, ◌≤◌, ◌<◌, ◌≡◌, refl, ◌⊎◌, inl, inr, Bool, true, false, ◌&&◌, not,
  some, [], ◌∷◌, arith, ◌∙◌, ltb, leb, ◌==◌, Bool-cases, if◌then◌else◌,
}
use mathlib.Core.Path.{subst}
use native.Mathlib.Nat.{
  mod-lt, mod-eq_of_lt, div-add-mod, mul-suc, mul-le-mul_left, lt_of_mul-lt-mul_left,
  mul-add-mod_self_left,
}
use davros.Run.{ok, pure, ◌>>◌}
use davros.Davroska.State.{
  Os, e_ok, e_value, sid_setrelalarm, sid_setabsalarm, out_of_table, param_of, reporterror,
}
use davros.Davroska.Time.{getexpirytime, getcountervalue, setalarm}
use davros.Davroska.Osek.{
  with_osekalarm, check_counter, checkalarmparams, next_time, set_checked, set_abs_alarm,
}

-- Of the values of the counter after `curval`, `x` is the first at which a counter of that modulus
-- shows `tim`.
pub record IsNext (curval modulus tim x : ℕ) : Type 0 where
  pub after : curval < x
  pub shows : x % modulus ≡ tim
  pub least : (y : ℕ) → curval < y → y % modulus ≡ tim → x ≤ y
  pub bounded : x ≤ curval + modulus

module _ (curval modulus tim : ℕ) (tim_lt : tim < modulus) where
  passed : Bool
  passed = leb tim (curval % modulus)

  -- How often the OSEK counter has wrapped around when it shows `tim` next.
  rounds : ℕ
  rounds = if passed then suc (curval / modulus) else curval / modulus

  next : ℕ
  next = modulus * rounds + tim

  split : modulus * (curval / modulus) + curval % modulus ≡ curval
  split = div-add-mod curval modulus

  remainder_lt : curval % modulus < modulus
  remainder_lt = mod-lt curval (omega arith)

  next_is : next ≡ (
      if passed
      then modulus * (curval / modulus) + modulus + tim
      else modulus * (curval / modulus) + tim)
  unfolding next rounds
  next_is = elim (Bool-cases passed) [
    | inl e ↦ rw e (ground (arith, mul-suc modulus (curval / modulus)))
    | inr e ↦ rw e refl
  ]

  next-shows : next % modulus ≡ tim
  unfolding next
  next-shows = mul-add-mod_self_left modulus rounds tim ∙ mod-eq_of_lt tim_lt

  next-after : curval < next
  unfolding passed
  next-after = elim (Bool-cases passed) [
    | inl e ↦ rw (next_is, e) (omega (arith, split, remainder_lt))
    | inr e ↦ rw (next_is, e) (ground (arith, split))
  ]

  next-bounded : next ≤ curval + modulus
  unfolding passed
  next-bounded = elim (Bool-cases passed) [
    | inl e ↦ rw (next_is, e) (ground (arith, split))
    | inr e ↦ rw (next_is, e) (omega (arith, split, tim_lt))
  ]

  next-least : (y : ℕ) → curval < y → y % modulus ≡ tim → next ≤ y
  unfolding next
  next-least y later same =
      let parts : modulus * (y / modulus) + tim ≡ y =
        subst (λ r. modulus * (y / modulus) + r ≡ y) same (div-add-mod y modulus) in
      let few : modulus * rounds < modulus * suc (y / modulus) =
        omega (arith, parts, later, next-bounded, mul-suc modulus (y / modulus)) in
      let enough : rounds ≤ y / modulus = omega (arith, lt_of_mul-lt-mul_left modulus few) in
      omega (arith, mul-le-mul_left modulus enough, parts)

  next-IsNext : IsNext curval modulus tim next
  next-IsNext = record {
    after = next-after;
    shows = next-shows;
    least = next-least;
    bounded = next-bounded;
  }

  next_time-next : curval < 2 ^ 64 → modulus < 2 ^ 64 → next_time curval modulus tim ≡ next % 2 ^ 64
  unfolding next_time passed
  next_time-next a b = elim (Bool-cases passed) [
    | inl e ↦ rw (next_is, e) (omega (arith, split, remainder_lt, tim_lt))
    | inr e ↦ rw (next_is, e) (omega (arith, split, remainder_lt, tim_lt))
  ]

-- Alarm `a`, of OSEK counter `ctr` on davroska's counter `c`, is free, and the parameters are right.
pub record IsSettable (s : Os) (a tim cyc ctr c : ℕ) : Type 0 where
  pub id_lt : out_of_table a s.nosekalarm ≡ false
  pub counter_is : (s.osekalarm a).osekcounter ≡ some ctr
  pub base_is : (s.osekcounter ctr).counter ≡ some c
  pub base_lt : out_of_table c s.ncounter ≡ false
  pub tim_le : tim ≤ (s.osekcounter ctr).maxvalue
  pub cyc_is :
      (cyc ≡ 0) ⊎ ((cyc ≤ (s.osekcounter ctr).maxvalue) × ((s.osekcounter ctr).mincycle ≤ cyc))
  pub alarm_lt : out_of_table (s.osekalarm a).alarm s.nalarm ≡ false
  pub idle : (s.alarm (s.osekalarm a).alarm).expirytime ≡ 0
  pub max_lt : (s.osekcounter ctr).maxvalue + 1 < 2 ^ 64
  pub value_lt : (s.counter c).value < 2 ^ 64

module _ (s : Os) (a tim cyc ctr c : ℕ) (is : IsSettable s a tim cyc ctr c) where
  checked : checkalarmparams a tim cyc sid_setabsalarm s ≡ ok e_ok s
  unfolding checkalarmparams check_counter getexpirytime
  checked =
      let tim_ok : ltb (s.osekcounter ctr).maxvalue tim ≡ false = ground (arith, is.tim_le) in
      let cyc_low : (not (cyc == 0) && ltb (s.osekcounter ctr).maxvalue cyc) ≡ false =
        ground (arith, is.cyc_is) in
      let cyc_high : (not (cyc == 0) && ltb cyc (s.osekcounter ctr).mincycle) ≡ false =
        ground (arith, is.cyc_is) in
      rw (is.id_lt, is.counter_is, tim_ok, cyc_low, cyc_high, is.alarm_lt, is.idle) refl

  abbrev pub cycled : Os
  cycled = with_osekalarm a (λ r. record r { cycle = cyc }) s

  set_checked-ok :
      (curval x : ℕ)
      → curval < x
      → x < curval + 2 ^ 64
      → curval < 2 ^ 64
      → set_checked a tim cyc c curval (x % 2 ^ 64) s ≡ (
          if ltb x (2 ^ 64)
          then (setalarm c (s.osekalarm a).alarm x >> pure e_ok) cycled
          else reporterror sid_setrelalarm e_value 3 (param_of a ∷ (tim ∷ (cyc ∷ []))) s)
  unfolding set_checked
  set_checked-ok curval x later near word = elim (Bool-cases (ltb x (2 ^ 64))) [
    | inl e ↦
        let small : x % 2 ^ 64 ≡ x = ground arith in
        let order : ltb x curval ≡ false = ground arith in
        let same : (cycled.osekalarm a).alarm ≡ (s.osekalarm a).alarm = ground arith in
        rw (e, small, order, same) refl
    | inr e ↦ let order : ltb (x % 2 ^ 64) curval ≡ true = ground arith in rw (e, order) refl
  ]

  -- If an OSEK alarm is free and mapped to a counter, the time and the cycle are within the
  -- counter's limits, and its maximum is less than 2^64 - 1, then the alarm is set for the first
  -- value after the counter's current one at which the OSEK counter, which wraps around after its
  -- maximum, shows the time; if that value does not fit in 64 bits, an error is reported instead,
  -- and no alarm is set.
  pub set_abs_alarm_lem :
      (x : ℕ) × IsNext (s.counter c).value ((s.osekcounter ctr).maxvalue + 1) tim x
      × (set_abs_alarm a tim cyc s ≡ (
          if ltb x (2 ^ 64)
          then (setalarm c (s.osekalarm a).alarm x >> pure e_ok) cycled
          else reporterror sid_setrelalarm e_value 3 (param_of a ∷ (tim ∷ (cyc ∷ []))) s))
  unfolding set_abs_alarm getcountervalue
  set_abs_alarm_lem =
      let modulus = (s.osekcounter ctr).maxvalue + 1 in
      let curval = (s.counter c).value in
      let tim_lt : tim < modulus = omega (arith, is.tim_le) in
      let x = next curval modulus tim tim_lt in
      let is_next = next-IsNext curval modulus tim tim_lt in
      let whole : modulus % 2 ^ 64 ≡ modulus = mod-eq_of_lt is.max_lt in
      let nonzero : (modulus == 0) ≡ false = ground arith in
      let time : next_time curval modulus tim ≡ x % 2 ^ 64 =
        next_time-next curval modulus tim tim_lt is.value_lt is.max_lt in
      (
        x,
        is_next,
        let run : set_abs_alarm a tim cyc s ≡ set_checked a tim cyc c curval (x % 2 ^ 64) s =
              rw (checked, is.counter_is, is.base_is, is.base_lt, whole, nonzero, time) refl in
            run
            ∙ set_checked-ok curval x is_next.after (omega (arith, is_next.bounded, is.max_lt))
                is.value_lt,
      )
