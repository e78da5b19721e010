-- ===== src/Tests/Climate.antt =====
-- The theorem about the modes of a thermostat at a concrete one.
use hahomematic.Base.{◌≡◌, refl, true, false, none, some, List, contains}
use hahomematic.Base.Double.{pos, of_int, double_le}
use hahomematic.Schedule.{done}
use hahomematic.Climate.{
  Climate, Command, ip, heat, mode, modes, min_temp, off_temperature, mode_eq,
}
use hahomematic.Climate.Setting.{set_mode, is_in_range, min_or_target_temperature}
use hahomematic.Climate.Warm.{reported}
use hahomematic.Climate.Modes.{set_mode-reported}

-- a thermostat that is off, in the boost mode
unfoldable thermostat : Climate
unfolding of_int off_temperature
thermostat = record {
  model = ip (record {
    active_profile = some 1;
    active_profile_min = 1;
    active_profile_max = 6;
    boost_mode = some true;
    heating_mode = none;
    level = none;
    set_point_mode = some 1;
    state = none;
  });
  min_max_value_not_relevant = none;
  setpoint = some off_temperature;
  setpoint_min = off_temperature;
  setpoint_max = of_int (pos 30);
  temperature_maximum = none;
  temperature_minimum = none;
  state_uncertain = false;
}

offers_heat : contains heat (modes thermostat) ≡ true
unfolding contains modes thermostat
offers_heat = refl

lowest_is_over : double_le (min_temp thermostat) off_temperature ≡ false
unfolding min_temp thermostat double_le
lowest_is_over = refl

in_range : is_in_range (min_or_target_temperature thermostat) thermostat ≡ true
unfolding is_in_range min_or_target_temperature thermostat
in_range = refl

set_mode-reported_example :
    (sent : List Command) × (set_mode heat thermostat ≡ done sent)
    × (mode (reported sent thermostat) ≡ heat)
set_mode-reported_example =
    set_mode-reported heat thermostat offers_heat lowest_is_over in_range refl
