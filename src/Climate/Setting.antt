-- ===== src/Climate/Setting.antt =====
-- Setting a thermostat (hahomematic/model/custom/climate.py): its temperature, mode, profile and away
-- mode. A datetime is a number of microseconds since the year 1, whose days begin at its multiples of
-- a day.
use hahomematic.Base.{
  ℕ, ◌+◌, ◌-◌, ◌*◌, ◌/◌, ◌%◌, Bool, true, false, not, ◌&&◌, ◌||◌, list_eq, nat_eq, Option, none,
  some, List, [], ◌∷◌, ◌++◌, if◌then◌else◌, eqb,
}
use hahomematic.Base.Dict.{Dict, lookup, has}
use hahomematic.Base.Text.{Text, codes}
use hahomematic.Base.Double.{pos, Double, double_eq, double_le, of_int}
use hahomematic.Base.Number.{show}
use hahomematic.Base.Value.{Value, int, real, text}
use hahomematic.Clock.{second}
use hahomematic.Schedule.{value_error, Attempt, done, fails, ◌>>=◌}
use hahomematic.Climate.{
  ClimateMode, auto, cool, heat, off, mode_eq, mode_beq, ClimateProfile, boost, comfort, eco,
  no_profile, climate_profile_eq, climate_profile_beq, IpFields, Model, simple_rf, rf, ip, Climate,
  Command, send_setpoint, send_auto, send_manu, send_boost, send_comfort, send_lowering,
  send_control_mode, send_active_profile, off_temperature, is_truthy, min_temp, max_temp,
  min_max_value_not_relevant_for_manu_mode, mode, profiles_of, profile, is_set,
}

-- `temperature != self.target_temperature`
abbrev pub is_other_temperature : Double → Option Double → Bool
is_other_temperature x none = true
is_other_temperature x (some y) = not (double_eq x y)

-- `is_state_change` for a temperature, a mode and a profile
unfoldable pub is_temperature_change : Double → Climate → Bool
unfolding double_eq
is_temperature_change x c = is_other_temperature x c.setpoint || c.state_uncertain

unfoldable pub is_mode_change : ClimateMode → Climate → Bool
unfolding mode
is_mode_change m c = not (mode_beq m (mode c)) || c.state_uncertain

unfoldable pub is_profile_change : ClimateProfile → Climate → Attempt Bool
unfolding profile
is_profile_change p c =
    profile c >>= λ current. done (not (climate_profile_beq p current) || c.state_uncertain)

-- `min_temp <= temperature <= max_temp`
unfoldable pub is_in_range : Double → Climate → Bool
unfolding min_temp max_temp double_le
is_in_range x c = double_le (min_temp c) x && double_le x (max_temp c)

-- Whether the temperature is validated: not in the mode HEAT where the bounds do not count.
unfoldable pub is_validated : Bool → Climate → Bool
unfolding mode min_max_value_not_relevant_for_manu_mode
is_validated do_validate c =
    do_validate && not (mode_beq (mode c) heat && min_max_value_not_relevant_for_manu_mode c)

unfoldable pub set_temperature : Double → Bool → Climate → Attempt (List Command)
unfolding is_temperature_change is_validated is_in_range
set_temperature x do_validate c =
    if not (is_temperature_change x c)
    then done []
    else if is_validated do_validate c && not (is_in_range x c)
    then fails value_error
    else done (send_setpoint x (is_validated do_validate c) ∷ [])

-- The target, or the lowest temperature if there is none or it is 0.
abbrev pub or_lowest : Option Double → Double → Double
or_lowest none low = low
or_lowest (some x) low = if is_truthy x then x else low

-- `_min_or_target_temperature`
unfoldable pub min_or_target_temperature : Climate → Double
unfolding min_temp double_eq double_le of_int
min_or_target_temperature c =
    let x = or_lowest c.setpoint (min_temp c) in
    if not (double_le (min_temp c) x) then min_temp c else x

abbrev pub and_then : List Command → Attempt (List Command) → Attempt (List Command)
and_then xs (done ys) = done (xs ++ ys)
and_then xs (fails e) = fails e

-- `set_mode` of the classic thermostats, after the test for a change
unfoldable pub set_rf_mode : ClimateMode → Climate → Attempt (List Command)
unfolding min_or_target_temperature set_temperature off_temperature
set_rf_mode auto c = done (send_auto ∷ [])
set_rf_mode heat c = done (send_manu (some (min_or_target_temperature c)) ∷ [])
set_rf_mode off c = and_then (send_manu c.setpoint ∷ []) (set_temperature off_temperature false c)
set_rf_mode cool c = done []

-- `set_profile` for the profile NONE of an IP thermostat, which ends the boost mode
unfoldable pub end_boost : Climate → Attempt (List Command)
unfolding is_profile_change
end_boost c = do
  changes ← is_profile_change no_profile c
  if changes then done (send_boost false ∷ []) else done []

-- `set_mode` of the IP thermostats, after the test for a change and the end of the boost mode
unfoldable pub set_ip_mode : ClimateMode → Climate → Attempt (List Command)
unfolding min_or_target_temperature set_temperature off_temperature
set_ip_mode auto c = done (send_control_mode 0 ∷ [])
set_ip_mode off c = and_then (send_control_mode 1 ∷ []) (set_temperature off_temperature false c)
set_ip_mode _ c =
    and_then (send_control_mode 1 ∷ []) (set_temperature (min_or_target_temperature c) true c)

abbrev pub ended_boost : IpFields → Climate → Attempt (List Command)
ended_boost f c = if is_set f.boost_mode then end_boost c else done []

abbrev pub set_model_mode : Model → ClimateMode → Climate → Attempt (List Command)
set_model_mode simple_rf m c = done []
set_model_mode (rf f) m c = if is_mode_change m c then set_rf_mode m c else done []
set_model_mode (ip f) m c =
    if is_mode_change m c
    then (ended_boost f c >>= λ ended. and_then ended (set_ip_mode m c))
    else done []

unfoldable pub set_mode : ClimateMode → Climate → Attempt (List Command)
set_mode m c = set_model_mode c.model m c

-- `set_profile` of the classic thermostats, after the test for a change
unfoldable pub set_rf_profile : ClimateProfile → List Command
set_rf_profile boost = send_boost true ∷ []
set_rf_profile comfort = send_comfort ∷ []
set_rf_profile eco = send_lowering ∷ []
set_rf_profile _ = []

abbrev index_command : Option ℕ → List Command
index_command none = []
index_command (some n) = if eqb n 0 then [] else send_active_profile n ∷ []

-- The change to the mode AUTO before a week program.
unfoldable pub to_auto : Climate → Attempt (List Command)
unfolding set_mode mode
to_auto c =
    if mode_beq (mode c) auto
    then done []
    else (set_mode auto c >>= λ sent. done (sent ++ (send_boost false ∷ [])))

unfoldable pub set_week_program : IpFields → ClimateProfile → Climate → Attempt (List Command)
unfolding profiles_of to_auto
set_week_program f p c = do
  known ← profiles_of f
  if has p known
      then (to_auto c >>= λ sent. done (sent ++ index_command (lookup p known)))
      else done []

unfoldable pub set_ip_profile : IpFields → ClimateProfile → Climate → Attempt (List Command)
unfolding set_week_program
set_ip_profile f boost c = done (send_boost true ∷ [])
set_ip_profile f no_profile c = done (send_boost false ∷ [])
set_ip_profile f p c = set_week_program f p c

abbrev set_model_profile : Model → ClimateProfile → Climate → Attempt (List Command)
set_model_profile simple_rf p c = done []
set_model_profile (rf f) p c = done (set_rf_profile p)
set_model_profile (ip f) p c = set_ip_profile f p c

-- The base class does nothing, and neither does it ask for a change.
unfoldable pub set_profile : ClimateProfile → Climate → Attempt (List Command)
unfolding is_profile_change set_rf_profile set_ip_profile
set_profile p c = do
  changes ← is_profile_change p c
  if changes then set_model_profile c.model p c else done []

abbrev day_minutes : ℕ → ℕ
day_minutes t = t / (60 * second) % 1440

-- `_party_mode_code`; the format of a temperature and of a date are arguments.
unfoldable pub party_mode_code : (Double → Text) → (ℕ → Text) → ℕ → ℕ → Double → Text
unfolding show
party_mode_code show_degrees show_date start end x =
    show_degrees x
    ++ b','
      ∷ (show (day_minutes start)
          ++ b',' ∷ (show_date start ++ b',' ∷ (show (day_minutes end) ++ b',' ∷ show_date end)))

-- The calls of the client for the away mode.
pub data AwayCall : Type 0 where
  no_call : AwayCall
  set_value : Text → Text → AwayCall
  put_paramset : Dict Text Value → AwayCall

-- How Python formats a temperature with one place, and a date in the two formats.
pub record Formats : Type 0 where
  pub show_degrees : Double → Text
  pub show_day : ℕ → Text
  pub show_party_date : ℕ → Text

abbrev away_call : Formats → Model → ℕ → ℕ → Double → AwayCall
unfolding party_mode_code
away_call f simple_rf start end x = no_call
away_call f (rf _) start end x =
    set_value (codes "PARTY_MODE_SUBMIT") (party_mode_code f.show_degrees f.show_day start end x)
away_call f (ip _) start end x = put_paramset (
    (codes "SET_POINT_MODE", int (pos 2))
    ∷ (codes "SET_POINT_TEMPERATURE", real x)
    ∷ (codes "PARTY_TIME_START", text (f.show_party_date start))
    ∷ (codes "PARTY_TIME_END", text (f.show_party_date end))
    ∷ [])

unfoldable pub enable_away_mode_by_calendar : Formats → ℕ → ℕ → Double → Climate → AwayCall
unfolding away_call party_mode_code
enable_away_mode_by_calendar f start end x c = away_call f c.model start end x

-- It begins ten minutes before the first reading of the clock.
unfoldable pub enable_away_mode_by_duration : Formats → (ℕ → ℕ) → ℕ → Double → Climate → AwayCall
unfolding enable_away_mode_by_calendar
enable_away_mode_by_duration f now hours x c =
    enable_away_mode_by_calendar f (now 0 - 600 * second) (now 1 + hours * 3600 * second) x c

abbrev end_call : Formats → (ℕ → ℕ) → Model → AwayCall
unfolding away_call party_mode_code
end_call f now simple_rf = no_call
end_call f now (rf r) =
    away_call f (rf r) (now 0 - 11 * 3600 * second) (now 1 - 10 * 3600 * second) (of_int (pos 12))
end_call f now (ip _) = put_paramset (
    (codes "SET_POINT_MODE", int (pos 2))
    ∷ (codes "PARTY_TIME_START", text (codes "2000_01_01 00:00"))
    ∷ (codes "PARTY_TIME_END", text (codes "2000_01_01 00:00"))
    ∷ [])

unfoldable pub disable_away_mode : Formats → (ℕ → ℕ) → Climate → AwayCall
unfolding end_call away_call party_mode_code of_int
disable_away_mode f now c = end_call f now c.model
