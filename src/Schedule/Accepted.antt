-- ===== src/Schedule/Accepted.antt =====
-- The validation of hahomematic/model/custom/climate.py on the slots that the conversion of a simple
-- list makes.
use hahomematic.Base.{
  ℕ, zero, suc, ◌+◌, ◌-◌, ◌≤◌, ◌<◌, ◌≡◌, refl, sym, ap, ◌∙◌, Bool, true, nat_eq, Option, some, List,
  [], ◌∷◌, ◌++◌, ltb, leb, eqb, length, arith, all, Bool-cases, inl, inr,
}
use mathlib.Core.Path.{fun_ext}
use Prim.{absurd}
use mathlib.Core.List.{append_assoc}
use hahomematic.Base.Dict.{lookup, has}
use hahomematic.Base.Text.{Text, codes}
use hahomematic.Base.Double.{Double}
use hahomematic.Base.Value.{Value, real, text}
use hahomematic.Schedule.{
  Attempt, done, fails, ◌>>=◌, check, validation_exception, SlotType, endtime, temperature,
  slot_type_eq, Slot, WeekdayData,
}
use hahomematic.Schedule.Weekday.{
  minutes_of, float_of, is_valid_temperature, slot_of, Times, fillup, fillup_weekday_data,
  convert_slots, sort_simple_weekday_list, convert_simple, check_endtime, check_type, check_slot,
  check_slots, validate_weekday,
}
use hahomematic.Schedule.Slots.{
  numbered, fillers, fillup-numbered, length-append, length-fillers, length-numbered,
  lookup-numbered,
}
use hahomematic.Schedule.Simple.{
  >>=-done, done_eq, check-done, slots_for, IsChecked, Becomes, converted_slots, length-Becomes,
}
use hahomematic.Schedule.Temperatures.{
  minutes_at, is_from, minutes_at-some, minutes_eq, midnight, day_start,
}

-- whether every entry ends by midnight
abbrev pub ends_by_midnight : List Slot → Bool
ends_by_midnight slots = all (λ slot. is_from 1440 (minutes_at endtime slot)) slots

module _ (read : Text → Option Double) (low high : Double) where
  -- the loop of the validation over the slots that are left
  check_list : ℕ → List Slot → ℕ → Attempt (Unit {0})
  check_list zero xs previous = done tt
  check_list (suc count) [] previous = fails validation_exception
  check_list (suc count) (x ∷ xs) previous =
      check_slot read low high x previous >>= λ end. check_list count xs end

  after_slot :
      (x : Slot) (previous count n : ℕ) (d : WeekdayData)
      → lookup n d ≡ some x
      → check_slots read low high d (suc count) n previous ≡ (
          check_slot read low high x previous >>= λ end.
          check_slots read low high d count (n + 1) end)
  unfolding check_slots
  after_slot x previous count n d h = rw h refl

  check_slots-numbered :
      (count n previous : ℕ) (before xs : List Slot)
      → n ≡ length before + 1
      → count ≤ length xs
      → check_slots read low high (numbered 1 (before ++ xs)) count n previous
        ≡ check_list count xs previous
  unfolding check_slots check_list
  check_slots-numbered zero n previous before xs e enough = refl
  check_slots-numbered (suc count) n previous before [] e enough = absurd (omega (arith, enough))
  check_slots-numbered (suc count) n previous before (x ∷ xs) e enough =
      let next = λ (list : List Slot).
        λ (end : ℕ). check_slots read low high (numbered 1 list) count (n + 1) end in
      let shifted : before ++ (x ∷ xs) ≡ (before ++ (x ∷ [])) ++ xs =
        sym (append_assoc before (x ∷ []) xs) in
      after_slot x previous count n (numbered 1 (before ++ (x ∷ xs)))
        (lookup-numbered 1 n before x xs (omega (arith, e)))
      ∙ ap (λ f. check_slot read low high x previous >>= f)
          (ap next shifted
            ∙ fun_ext λ end.
              check_slots-numbered count (n + 1) end (before ++ (x ∷ [])) xs
                (omega (arith, e, length-append {0} before (x ∷ []))) (omega (arith, enough)))

  good_endtime :
      (e previous : ℕ) → 0 < e → e ≤ 1440 → previous ≤ e → check_endtime previous e ≡ done e
  unfolding check_endtime
  good_endtime e previous positive day rising = ground (arith, positive, day, rising)

  good_type :
      (v w : Value) (e previous : ℕ) (x : Double) (t : SlotType)
      → has t (slot_of v w) ≡ true
      → minutes_of v ≡ done e
      → float_of read w ≡ done x
      → is_valid_temperature low high x ≡ true
      → check_endtime previous e ≡ done e
      → check_type read low high (slot_of v w) t previous ≡ done e
  unfolding check_type lookup
  good_type v w e previous x t there reads number valid fits = rw (there, number, valid, reads) fits

  -- A slot whose end rises and whose temperature is valid passes, and its end comes next.
  good_slot :
      (v w : Value) (e previous : ℕ) (x : Double)
      → minutes_of v ≡ done e
      → float_of read w ≡ done x
      → is_valid_temperature low high x ≡ true
      → 0 < e
      → e ≤ 1440
      → previous ≤ e
      → check_slot read low high (slot_of v w) previous ≡ done e
  unfolding check_slot has
  good_slot v w e previous x reads number valid positive day rising =
      let first =
        good_type v w e previous x endtime refl reads number valid
          (good_endtime e previous positive day rising) in
      let second =
        good_type v w e e x temperature refl reads number valid
          (good_endtime e e positive day (omega arith)) in
      rw (first, second)

  good_next :
      (v w : Value) (e previous count : ℕ) (x : Double) (xs : List Slot)
      → minutes_of v ≡ done e
      → float_of read w ≡ done x
      → is_valid_temperature low high x ≡ true
      → 0 < e
      → e ≤ 1440
      → previous ≤ e
      → check_list (suc count) (slot_of v w ∷ xs) previous ≡ check_list count xs e
  unfolding check_list
  good_next v w e previous count x xs reads number valid positive day rising =
      rw (good_slot v w e previous x reads number valid positive day rising) refl

  goes_on :
      (v w : Value) (e previous count : ℕ) (x : Double) (xs : List Slot)
      → minutes_of v ≡ done e
      → float_of read w ≡ done x
      → is_valid_temperature low high x ≡ true
      → 0 < e
      → e ≤ 1440
      → previous ≤ e
      → ((k : ℕ) → k ≤ length xs → check_list k xs e ≡ done tt)
      → count ≤ suc (length xs)
      → check_list count (slot_of v w ∷ xs) previous ≡ done tt
  unfolding check_list
  goes_on v w e previous zero x xs reads number valid positive day rising later enough = refl
  goes_on v w e previous (suc count) x xs reads number valid positive day rising later enough =
      good_next v w e previous count x xs reads number valid positive day rising
      ∙ later count (omega (arith, enough))

  module _ (base : Double) (base_valid : is_valid_temperature low high base ≡ true) where
    base_number : float_of read (real base) ≡ done base
    unfolding float_of
    base_number = refl

    good_fillers :
        (count given previous : ℕ)
        → count ≤ given
        → previous ≤ 1440
        → check_list count (fillers base given) previous ≡ done tt
    unfolding check_list
    good_fillers zero given previous enough day = refl
    good_fillers (suc count) zero previous enough day = absurd (omega (arith, enough))
    good_fillers (suc count) (suc given) previous enough day =
        good_next (text (codes "24:00")) (real base) 1440 previous count base (fillers base given)
          midnight base_number base_valid (omega arith) (omega arith) day
        ∙ good_fillers count given 1440 (omega (arith, enough)) (omega arith)

    good_entry :
        (slot : Slot) (previous : Value) (t : Times) (count : ℕ) (xs : List Slot)
        → IsChecked read low high slot previous t
        → t.end_minutes ≤ 1440
        → ((k : ℕ) → k ≤ length xs → check_list k xs t.end_minutes ≡ done tt)
        → count ≤ length (slots_for base t ++ xs)
        → check_list count (slots_for base t ++ xs) t.previous_minutes ≡ done tt
    good_entry slot previous t count xs c day later enough =
        let entry = λ (from k : ℕ) (rising : from ≤ t.end_minutes) (fits : k ≤ suc (length xs)).
          goes_on t.end t.degrees t.end_minutes from k c.number xs c.reads_end c.reads_number
            c.valid (omega (arith, c.lasts)) day rising later fits in
        elim (Bool-cases (ltb t.previous_minutes t.start_minutes)) [
          | inl gap ↦ rw gap (
              goes_on t.start (real base) t.start_minutes t.previous_minutes count base
                (slot_of t.end t.degrees ∷ xs) c.reads_start base_number base_valid
                (ground (arith, gap)) (omega (arith, c.lasts, day)) c.follows
                (λ k fits. entry t.start_minutes k (omega (arith, c.lasts)) fits)
                (ground (arith, gap, enough)))
          | inr none_free ↦ rw none_free (
              entry t.previous_minutes count (omega (arith, c.lasts, c.follows))
                (ground (arith, none_free, enough)))
        ]

    good_list :
        (slots : List Slot) (previous : Value) (out : List Slot) (given count p : ℕ)
        → Becomes read low high base previous slots out
        → minutes_of previous ≡ done p
        → p ≤ 1440
        → ends_by_midnight slots ≡ true
        → count ≤ length (out ++ fillers base given)
        → check_list count (out ++ fillers base given) p ≡ done tt
    unfolding all
    good_list [] previous out given count p becomes reads day ends enough = rw becomes (
        good_fillers count given p
          (omega (
            arith,
            enough,
            length-fillers base given,
            ap (λ o. length {0} (o ++ fillers base given)) becomes,
          ))
          day)
    good_list (slot ∷ rest) previous out given count p (t, later, is_out, c, becomes) reads day ends
          enough =
        let same : t.previous_minutes ≡ p =
          minutes_eq previous t.previous_minutes p c.reads_previous reads in
        let till : minutes_at endtime slot ≡ some t.end_minutes =
          minutes_at-some endtime slot t.end t.end_minutes c.at_end c.reads_end in
        let both : out ++ fillers base given ≡ slots_for base t ++ (later ++ fillers base given) =
          ap (λ o. o ++ fillers base given) is_out ∙ append_assoc (slots_for base t) later _ in
        let first : is_from 1440 (minutes_at endtime slot) ≡ true = ground (arith, ends) in
        let others : ends_by_midnight rest ≡ true = ground (arith, ends) in
        let by_day : leb t.end_minutes 1440 ≡ true = ap (is_from 1440) (sym till) ∙ first in
        let short : t.end_minutes ≤ 1440 = ground (arith, by_day) in
        ap (λ o. check_list count o p) both
        ∙ ap (check_list count (slots_for base t ++ (later ++ fillers base given))) (sym same)
        ∙ good_entry slot previous t count (later ++ fillers base given) c short
            (λ k fits.
              good_list rest t.end later given k t.end_minutes becomes c.reads_end short others
                fits)
            (omega (arith, enough, ap (length {0}) both))

  -- If a simple list of a weekday is converted, has at most six entries after they were sorted by
  -- their starts, and every entry ends by 24:00, then the validation accepts the slots that result.
  pub validate_weekday-convert_simple :
      (base : Double) (slots sorted_slots : List Slot) (d : WeekdayData)
      → convert_simple read low high base slots ≡ done d
      → sort_simple_weekday_list slots ≡ done sorted_slots
      → length sorted_slots ≤ 6
      → ends_by_midnight sorted_slots ≡ true
      → validate_weekday read low high d ≡ done tt
  unfolding convert_simple validate_weekday fillup_weekday_data
  validate_weekday-convert_simple base slots sorted_slots d h sorts few ends =
      let start = text (codes "00:00") in
      let (_, fine, k) = >>=-done (check (is_valid_temperature low high base)) _ h in
      let (found, is_found, l) = >>=-done (sort_simple_weekday_list slots) _ k in
      let (e, is_e, is_d) = >>=-done (convert_slots read low high base found start 1 []) _ l in
      let same : found ≡ sorted_slots = done_eq found sorted_slots (sym is_found ∙ sorts) in
      let (out, is_out, becomes) = converted_slots read low high base found start e is_e in
      let short : length out ≤ 12 = omega (
        arith,
        few,
        ap (length {0}) same,
        length-Becomes read low high base found start out becomes,
      ) in
      let count = 13 - length out in
      let all_slots = out ++ fillers base count in
      let whole : d ≡ numbered 1 all_slots =
        sym (done_eq (fillup base 13 1 e) d is_d)
        ∙ ap (fillup base 13 1) is_out
        ∙ fillup-numbered base out count (omega (arith, short)) in
      let size : length all_slots ≡ 13 =
        omega
          (arith, short, length-append {0} out (fillers base count), length-fillers base count) in
      let counted : eqb (length (numbered 1 all_slots)) 13 ≡ true =
        ground (arith, size, length-numbered 1 all_slots) in
      ap (validate_weekday read low high) whole
      ∙ rw counted (
          check_slots-numbered 12 1 0 [] all_slots refl (omega (arith, size))
          ∙ good_list base (check-done (is_valid_temperature low high base) fine) found start out
              count 12 0 becomes day_start (omega arith) (rw same ends) (omega (arith, size)))
