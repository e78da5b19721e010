-- ===== src/Tests/Shown.antt =====
-- The theorems about generic data points, switches and dimmers at concrete values.
use hahomematic.Base.{
  ℕ, ◌*◌, ◌+◌, ◌≡◌, ◌⊎◌, refl, arith, true, false, Option, some, none, List, [], ◌∷◌, list_eq,
  nat_eq,
}
use hahomematic.Base.Text.{Text, codes}
use hahomematic.Base.Dict.{lookup}
use hahomematic.Base.Double.{pos, Double, div_int}
use hahomematic.Base.Value.{Value, int, real, text}
use hahomematic.Clock.{second, init_datetime}
use hahomematic.Generic.{
  NumberClass, NumberDp, float_number, type_converter, is_between, special_of, prepare_number,
  prepare_select, select_value, value_of, index_of,
}
use hahomematic.Generic.Prepared.{prepare_number-bounds}
use hahomematic.Generic.Shown.{select_value-prepare_select}
use hahomematic.Switch.{Switch, send_on_time, send_state, turn_on}
use hahomematic.Switch.Timers.{turn_on-timed}
use hahomematic.Light.{Dimmer, OnArgs, brightness_of, report}
use hahomematic.Light.Brightness.{turn_on-brightness}

abbrev start : ℕ
start = 63000000000 * second

-- no text is read as a number
abbrev read : NumberClass → Text → Option Value
read c t = none

abbrev level : NumberDp
level = record {
  class = float_number;
  min = div_int (pos 0) 1;
  max = div_int (pos 1) 1;
  special = (codes "NOT_USED", real (div_int (pos 5) 1)) ∷ [];
}

abbrev not_used : Value
not_used = text (codes "NOT_USED")

abbrev five : Value
five = real (div_int (pos 5) 1)

prepare_number-bounds_example :
    (is_between level (some five) ≡ true)
    ⊎ ((v : Value) × ((special_of level not_used ≡ some v)
          × (type_converter read float_number v ≡ some five)))
unfolding prepare_number type_converter lookup
prepare_number-bounds_example = prepare_number-bounds read level not_used five refl

abbrev options : List Text
options = codes "OFF" ∷ codes "ON" ∷ []

select_value-prepare_select_example :
    select_value (codes "OFF") (some options) (int (pos 1)) ≡ value_of (codes "ON")
unfolding prepare_select index_of
select_value-prepare_select_example =
    select_value-prepare_select (codes "OFF") (codes "ON") options (int (pos 1)) refl

-- seconds are not split
abbrev plus_seconds : ℕ → Double → ℕ
plus_seconds now x = now + second

abbrev minute : Double
minute = div_int (pos 60) 1

abbrev switch : Switch
switch = record {
  value = some true;
  state_uncertain = false;
  timer = record { timer_on_time = none; timer_on_time_end = init_datetime };
}

turn_on-timed_example :
    let (s', sent) = turn_on plus_seconds (λ i. start) (some minute) switch in
    (sent ≡ send_on_time minute ∷ (send_state true ∷ []))
    × (s'.timer ≡ record { timer_on_time = none; timer_on_time_end = plus_seconds start minute })
turn_on-timed_example = turn_on-timed plus_seconds (λ i. start) minute switch (omega arith)

abbrev dimmer : Dimmer
dimmer = record {
  level = none;
  state_uncertain = true;
  timer = record { timer_on_time = none; timer_on_time_end = init_datetime };
}

abbrev bright : OnArgs
bright = record { on_time = some minute; ramp_time = none; brightness = some 87; others = 0 }

turn_on-brightness_example :
    let (d', sent) = hahomematic.Light.turn_on plus_seconds (λ i. start) bright dimmer in
    brightness_of (report sent d') ≡ pos 87
turn_on-brightness_example =
    turn_on-brightness plus_seconds (λ i. start) bright 87 dimmer refl (omega arith) (omega arith)
