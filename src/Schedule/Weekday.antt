-- ===== src/Schedule/Weekday.antt =====
-- The slots of a weekday (hahomematic/model/custom/climate.py): the validation, and the conversion of
-- a list of times with a temperature. How Python reads a float from a text is an argument. A time
-- that is no text is refused, since the text of no other value has a colon.
use hahomematic.Base.{
  ℕ, zero, suc, ◌+◌, Bool, true, false, ◌&&◌, nat_eq, Option, none, some, List, [], ◌∷◌,
  if◌then◌else◌, ltb, leb, eqb, length,
}
use hahomematic.Base.Dict.{Dict, lookup, insert, has, values}
use hahomematic.Base.Sorted.{sorted}
use hahomematic.Base.Text.{Text, codes}
use hahomematic.Base.Double.{pos, Double, of_int, double_le}
use hahomematic.Base.Value.{Value, null, boolean, int, real, text}
use hahomematic.Schedule.{
  validation_exception, key_error, value_error, type_error, Attempt, done, fails, ◌>>=◌, ◌>>◌,
  check, or_fails, SlotType, endtime, starttime, temperature, slot_type_eq,
  convert_time_str_to_minutes, Slot, WeekdayData,
}

-- `_convert_time_str_to_minutes(str(value))`
unfoldable pub minutes_of : Value → Attempt ℕ
unfolding convert_time_str_to_minutes
minutes_of (text s) = convert_time_str_to_minutes s
minutes_of _ = fails validation_exception

-- `float(value)`
unfoldable pub float_of : (Text → Option Double) → Value → Attempt Double
float_of read (int n) = done (of_int n)
float_of read (real x) = done x
float_of read (boolean true) = done (of_int (pos 1))
float_of read (boolean false) = done (of_int (pos 0))
float_of read (text s) = or_fails value_error (read s)
float_of read null = fails type_error

-- `min_temp <= x <= max_temp`
unfoldable pub is_valid_temperature : Double → Double → Double → Bool
unfolding double_le
is_valid_temperature low high x = double_le low x && double_le x high

-- `_sort_simple_weekday_list`: the dict of the slots by their start, then the sorted dict.
unfoldable pub by_start : List Slot → Dict ℕ Slot → Attempt (Dict ℕ Slot)
unfolding minutes_of
by_start [] d = done d
by_start (slot ∷ rest) d = do
  start ← or_fails key_error (lookup starttime slot)
  s ← minutes_of start
  by_start rest (insert s slot d)

unfoldable pub sort_simple_weekday_list : List Slot → Attempt (List Slot)
unfolding by_start sorted values
sort_simple_weekday_list slots = do d ← by_start slots []; done (values (sorted d))

-- `slot.get(t)`, which must not be None
unfoldable pub present : SlotType → Slot → Attempt Value
present t slot = elim (lookup t slot) [
  | none ↦ fails validation_exception
  | some null ↦ fails validation_exception
  | some v ↦ done v
]

abbrev pub slot_of : Value → Value → Slot
slot_of end degrees = (endtime, end) ∷ (temperature, degrees) ∷ []

-- The values of a slot that passed the tests of the loop, with the minutes that were compared.
pub record Times : Type 0 where
  pub start : Value
  pub end : Value
  pub degrees : Value
  pub start_minutes : ℕ
  pub end_minutes : ℕ
  pub previous_minutes : ℕ

-- The tests of the loop of `_validate_and_convert_simple_to_profile_weekday`.
unfoldable pub check_simple :
    (Text → Option Double) → Double → Double → Slot → Value → Attempt Times
unfolding present minutes_of float_of is_valid_temperature
check_simple read low high slot previous = do
  start_value ← present starttime slot
  end_value ← present endtime slot
  degrees_value ← present temperature slot
  s ← minutes_of start_value
  e ← minutes_of end_value
  check (ltb s e)
  p ← minutes_of previous
  check (leb p s)
  x ← float_of read degrees_value
  check (is_valid_temperature low high x)
  done (record {
    start = start_value;
    end = end_value;
    degrees = degrees_value;
    start_minutes = s;
    end_minutes = e;
    previous_minutes = p;
  })

-- The slot that fills the time before a start, if there is any, and the next number.
unfoldable pub with_gap : Double → Times → ℕ → WeekdayData → ℕ × WeekdayData
with_gap base t n d =
    if ltb t.previous_minutes t.start_minutes
    then (n + 1, insert n (slot_of t.start (real base)) d)
    else (n, d)

-- The loop over the sorted list.
unfoldable pub convert_slots :
    (Text → Option Double)
    → Double
    → Double
    → Double
    → List Slot
    → Value
    → ℕ
    → WeekdayData
    → Attempt WeekdayData
unfolding check_simple with_gap
convert_slots read low high base [] previous n d = done d
convert_slots read low high base (slot ∷ rest) previous n d = do
  t ← check_simple read low high slot previous
  let (m, d1) = with_gap base t n d
  convert_slots read low high base rest t.end (m + 1) (insert m (slot_of t.end t.degrees) d1)

-- `_fillup_weekday_data`, for a count of slot numbers from a first one
unfoldable pub fillup : Double → ℕ → ℕ → WeekdayData → WeekdayData
fillup base zero n d = d
fillup base (suc count) n d =
    fillup base count (n + 1)
      (if has n d then d else insert n (slot_of (text (codes "24:00")) (real base)) d)

unfoldable pub fillup_weekday_data : Double → WeekdayData → WeekdayData
unfolding fillup
fillup_weekday_data base d = fillup base 13 1 d

-- `_validate_and_convert_simple_to_profile_weekday`
unfoldable pub convert_simple :
    (Text → Option Double) → Double → Double → Double → List Slot → Attempt WeekdayData
unfolding is_valid_temperature sort_simple_weekday_list convert_slots fillup_weekday_data
convert_simple read low high base slots = do
  check (is_valid_temperature low high base)
  sorted_slots ← sort_simple_weekday_list slots
  d ← convert_slots read low high base sorted_slots (text (codes "00:00")) 1 []
  done (fillup_weekday_data base d)

-- The tests on the end of a slot; an end at 0 is not tested. The result is the next previous end.
unfoldable pub check_endtime : ℕ → ℕ → Attempt ℕ
check_endtime previous end =
    if eqb end 0 then done end else do check (leb end 1440); check (leb previous end); done end

-- The body of the inner loop of `_validate_schedule_profile_weekday`.
unfoldable pub check_type :
    (Text → Option Double) → Double → Double → Slot → SlotType → ℕ → Attempt ℕ
unfolding minutes_of float_of is_valid_temperature check_endtime
check_type read low high slot t previous = do
  check (has t slot)
  degrees ← or_fails key_error (lookup temperature slot)
  x ← float_of read degrees
  check (is_valid_temperature low high x)
  end ← or_fails key_error (lookup endtime slot)
  e ← minutes_of end
  check_endtime previous e

unfoldable pub check_slot : (Text → Option Double) → Double → Double → Slot → ℕ → Attempt ℕ
unfolding check_type
check_slot read low high slot previous = do
  end ← check_type read low high slot endtime previous
  check_type read low high slot temperature end

-- The loop over a count of slot numbers from a first one.
unfoldable pub check_slots :
    (Text → Option Double) → Double → Double → WeekdayData → ℕ → ℕ → ℕ → Attempt (Unit {0})
unfolding check_slot
check_slots read low high d zero n previous = done tt
check_slots read low high d (suc count) n previous = do
  slot ← or_fails validation_exception (lookup n d)
  end ← check_slot read low high slot previous
  check_slots read low high d count (n + 1) end

-- `_validate_schedule_profile_weekday`
unfoldable pub validate_weekday :
    (Text → Option Double) → Double → Double → WeekdayData → Attempt (Unit {0})
unfolding check_slots
validate_weekday read low high d = do check (eqb (length d) 13); check_slots read low high d 12 1 0
