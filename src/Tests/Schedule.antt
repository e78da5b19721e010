-- ===== src/Tests/Schedule.antt =====
-- The theorems about schedules at a concrete weekday.
use hahomematic.Base.{◌≡◌, refl, true, false, nat_eq, Option, none, some, List, [], ◌∷◌, arith, all}
use hahomematic.Base.Text.{Text, codes, strip}
use hahomematic.Base.Dict.{lookup, insert, has}
use hahomematic.Base.Double.{pos, Double, of_int}
use hahomematic.Base.Value.{real, text}
use hahomematic.Schedule.{
  Attempt, done, fails, endtime, starttime, temperature, slot_type_eq, p1, monday, Slot,
  WeekdayData, time_str,
}
use hahomematic.Schedule.Weekday.{
  slot_of, convert_simple, sort_simple_weekday_list, validate_weekday, minutes_of,
}
use hahomematic.Schedule.Service.{
  Thermostat, PutParamset, set_schedule_profile_weekday, get_schedule_profile_weekday,
}
use hahomematic.Schedule.Temperatures.{temperature_at, simple_at, temperature_at-convert_simple}
use hahomematic.Schedule.Accepted.{ends_by_midnight, validate_weekday-convert_simple}
use hahomematic.Schedule.Stored.{Entry, weekday_of, IsStandard}
use hahomematic.Schedule.RoundTrip.{weekday-read_back}
use hahomematic.Schedule.Last.{validate_weekday-last}

-- no text is a number
abbrev reads_nothing : Text → Option Double
reads_nothing s = none

unfoldable low : Double
unfolding of_int
low = of_int (pos 5)

unfoldable high : Double
unfolding of_int
high = of_int (pos 30)

unfoldable base : Double
unfolding of_int
base = of_int (pos 16)

abbrev entry_from : Text → Text → Slot
entry_from start end = (temperature, real base) ∷ (starttime, text start) ∷ (endtime, text end) ∷ []

-- two entries, the later one first
abbrev simple_list : List Slot
simple_list =
    entry_from (codes "19:00") (codes "22:00") ∷ entry_from (codes "05:00") (codes "06:00") ∷ []

abbrev sorted_list : List Slot
sorted_list =
    entry_from (codes "05:00") (codes "06:00") ∷ entry_from (codes "19:00") (codes "22:00") ∷ []

abbrev or_nothing : Attempt WeekdayData → WeekdayData
or_nothing (done d) = d
or_nothing (fails e) = []

unfoldable converted_list : WeekdayData
unfolding convert_simple
converted_list = or_nothing (convert_simple reads_nothing low high base simple_list)

list_converts : convert_simple reads_nothing low high base simple_list ≡ done converted_list
unfolding converted_list low high base lookup strip insert
list_converts = refl

list_sorts : sort_simple_weekday_list simple_list ≡ done sorted_list
unfolding sort_simple_weekday_list lookup strip insert
list_sorts = refl

temperature_at-convert_simple_example :
    temperature_at 330 converted_list ≡ simple_at 330 base sorted_list
temperature_at-convert_simple_example =
    temperature_at-convert_simple reads_nothing low high base simple_list sorted_list converted_list
      330 list_converts list_sorts (omega arith) (omega arith)

list_ends : ends_by_midnight sorted_list ≡ true
unfolding all minutes_of lookup strip
list_ends = refl

validate_weekday-convert_simple_example :
    validate_weekday reads_nothing low high converted_list ≡ done tt
validate_weekday-convert_simple_example =
    validate_weekday-convert_simple reads_nothing low high base simple_list sorted_list
      converted_list list_converts list_sorts (omega arith) list_ends

abbrev thermostat : Thermostat
thermostat = record {
  address = codes "VCU1769958:1";
  product_group = codes "HmIP";
  schedule_profile_nos = 6;
  supports_schedule = true;
  min_temp = low;
  max_temp = high;
}

abbrev entries : List Entry
entries =
    record { no = 1; minutes = 360; time = codes "06:00"; degrees = real base }
    ∷ record { no = 2; minutes = 1440; time = codes "24:00"; degrees = real low }
    ∷ []

entries-IsStandard : IsStandard [] entries
unfolding has time_str
entries-IsStandard = (
  omega arith,
  omega arith,
  refl,
  omega arith,
  refl,
  (omega arith, omega arith, refl, omega arith, refl, tt),
)

weekday-read_back_example :
    (call : PutParamset) × (set_schedule_profile_weekday reads_nothing p1 monday
        (weekday_of entries)
        false
        thermostat
      ≡ done call)
    × (call.channel_address ≡ thermostat.address)
    × (get_schedule_profile_weekday (some call.paramset) p1 monday thermostat
        ≡ (done (weekday_of entries), thermostat))
weekday-read_back_example =
    weekday-read_back p1 monday reads_nothing entries thermostat entries-IsStandard refl

converted-has_last : has 13 converted_list ≡ true
unfolding has converted_list low high base lookup strip insert
converted-has_last = refl

-- a slot 13 whose temperature is too high
validate_weekday-last_example :
    validate_weekday reads_nothing low low
      (insert 13 (slot_of (text (codes "24:00")) (real high)) converted_list)
    ≡ validate_weekday reads_nothing low low converted_list
validate_weekday-last_example =
    validate_weekday-last reads_nothing low low (slot_of (text (codes "24:00")) (real high))
      converted_list converted-has_last
