-- ===== src/Schedule/Last.antt =====
-- The last slot of a weekday in the validation of hahomematic/model/custom/climate.py.
use hahomematic.Base.{
  ℕ, zero, suc, ◌+◌, ◌≤◌, ◌≡◌, refl, ap, ◌∙◌, true, false, nat_eq, Option, [], ◌∷◌, eqb, length,
  arith,
}
use mathlib.Core.Path.{fun_ext}
use hahomematic.Base.Dict.{lookup, insert, has, lookup-insert}
use hahomematic.Base.Text.{Text}
use hahomematic.Base.Double.{Double}
use hahomematic.Schedule.{◌>>=◌, or_fails, validation_exception, Slot, WeekdayData}
use hahomematic.Schedule.Weekday.{check_slot, check_slots, validate_weekday}

length-insert :
    (n : ℕ) (slot : Slot) (d : WeekdayData) → has n d ≡ true → length (insert n slot d) ≡ length d
unfolding has insert
length-insert n slot [] h = cc h
length-insert n slot ((m, x) ∷ d) h = ground (arith, h, length-insert n slot d)

module _ (read : Text → Option Double) (low high : Double) (slot : Slot) (d : WeekdayData) where
  same_checks :
      (count n previous : ℕ)
      → n + count ≤ 13
      → check_slots read low high (insert 13 slot d) count n previous
        ≡ check_slots read low high d count n previous
  unfolding check_slots
  same_checks zero n previous few = refl
  same_checks (suc count) n previous few =
      let other : eqb 13 n ≡ false = ground (arith, few) in
      let found : lookup n (insert 13 slot d) ≡ lookup n d =
        lookup-insert n 13 slot d ∙ rw other refl in
      ap
        (λ o. or_fails validation_exception o >>= λ x.
          (check_slot read low high x previous >>= λ end.
          check_slots read low high (insert 13 slot d) count (n + 1) end))
        found
      ∙ ap
          (λ f. or_fails validation_exception (lookup n d) >>= λ x.
            (check_slot read low high x previous >>= f))
          (fun_ext λ end. same_checks count (n + 1) end (omega (arith, few)))

  -- The validation of a weekday that has a slot 13 gives the same with any other slot 13, valid or not.
  pub validate_weekday-last :
      has 13 d ≡ true
      → validate_weekday read low high (insert 13 slot d) ≡ validate_weekday read low high d
  unfolding validate_weekday
  validate_weekday-last h = rw (length-insert 13 slot d h, same_checks 12 1 0 (omega arith)) refl
