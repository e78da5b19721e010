-- ===== src/Tests/Values.antt =====
-- The theorems about the values of data points, covers, blinds and garage doors at concrete values.
use hahomematic.Base.{
  ℕ, ◌+◌, ◌*◌, ◌≡◌, ◌⊎◌, refl, arith, true, false, some, none, List, [], ◌∷◌, contains, list_eq,
  nat_eq,
}
use hahomematic.Base.Text.{Text, codes}
use hahomematic.Base.Double.{pos, div_int, double_eq}
use hahomematic.Base.Value.{Value, null, int, real, text, value_eq}
use hahomematic.Clock.{second}
use hahomematic.Const.{values, level, level_2, combined_parameter}
use hahomematic.Converter.{convert_combined_parameter_to_paramset, is_convertable}
use hahomematic.Converter.RoundTrip.{ip_text}
use hahomematic.CommandCache.{CommandCache, dp_key, add_set_value, get_last_value_send}
use hahomematic.DataPoint.{
  Defaults, new, run, apply, Op, op_write, value_of, write_value, write_temporary_value, event,
}
use hahomematic.DataPoint.Temporary.{IsOrdered, write_temporary_value-equal}
use hahomematic.DataPoint.Events.{event-confirms}
use hahomematic.Cover.{
  Cover, cover, current_position, set_position, report, send_combined, to_position, closed_level,
}
use hahomematic.Cover.Positions.{seen, low_positions, set_position-reported}
use hahomematic.Cover.Blind.{
  current_tilt_position, get_channel_tilt_level, Blind, ip_blind, is_blind_change,
  set_blind_position,
}
use hahomematic.Cover.Blind.Slats.{set_blind_position-converts}
use hahomematic.Cover.Garage.{Garage, closed}

abbrev start : ℕ
start = 63000000000 * second

abbrev defaults : Defaults
defaults = record {
  modified = start;
  refreshed = start + 1;
  temporary_modified = start + 2;
  temporary_refreshed = start + 3;
}

defaults-IsOrdered : IsOrdered defaults
defaults-IsOrdered = record {
  after_init = ground arith;
  temporary_modified_last = ground arith;
  temporary_refreshed_last = ground arith;
}

abbrev keep_value : Value → Value
keep_value v = v

abbrev ops : List Op
ops = op_write (int (pos 3)) ∷ []

write_temporary_value-equal_example :
    value_of
      (write_temporary_value defaults keep_value (int (pos 3)) (run defaults keep_value ops new))
    ≡ null
unfolding run apply write_value new value_eq double_eq
write_temporary_value-equal_example =
    write_temporary_value-equal defaults keep_value defaults-IsOrdered ops (int (pos 3)) refl

abbrev nothing_sent : CommandCache
nothing_sent = record { interface_id = codes "rf"; last_send_command = [] }

abbrev address : Text
address = codes "VCU1:3"

event-confirms_example :
    (get_last_value_send
      (dp_key nothing_sent address values level)
      60
      (λ i. start)
      (event defaults keep_value
        (dp_key nothing_sent address values level)
        (int (pos 7))
        start
        (add_set_value address level (λ i. start) (int (pos 7)) nothing_sent).0
        new).0).0
    ≡ null
unfolding is_convertable
event-confirms_example =
    event-confirms defaults keep_value address level (int (pos 7)) (λ i. start) (λ i. start) start
      60 nothing_sent new refl refl

abbrev shutter : Cover
shutter = record {
  class = cover;
  level = none;
  channel_level = none;
  is_primary = true;
  direction = none;
  state_uncertain = false;
}

set_position-reported_example :
    (current_position (report (set_position (some (pos 29)) shutter) shutter) ≡ pos 29)
    ⊎ ((contains 29 low_positions ≡ true)
        × (current_position (report (set_position (some (pos 29)) shutter) shutter) ≡ pos 28))
set_position-reported_example = set_position-reported 29 shutter (ground arith)

abbrev slats : Blind
slats = record {
  kind = ip_blind;
  drive = shutter;
  level_2 = none;
  channel_level_2 = none;
  target_level = none;
  target_tilt_level = none;
  is_hmtype = true;
}

slats_change : is_blind_change (some (pos 70)) (some (pos 20)) slats ≡ true
unfolding is_blind_change current_tilt_position to_position get_channel_tilt_level closed_level
slats_change = refl

set_blind_position-converts_example :
    (set_blind_position (some (pos 70)) (some (pos 20)) slats
      ≡ send_combined (ip_text (seen 20) (seen 70)) ∷ [])
    × (convert_combined_parameter_to_paramset combined_parameter
          (text (ip_text (seen 20) (seen 70)))
        ≡ (level_2, real (div_int (pos (seen 20)) 100))
          ∷ (level, real (div_int (pos (seen 70)) 100))
          ∷ [])
set_blind_position-converts_example =
    set_blind_position-converts 70 20 slats (ground arith) (ground arith) refl refl slats_change

abbrev garage : Garage
garage = record { door_state = some closed; section = none; state_uncertain = false }
