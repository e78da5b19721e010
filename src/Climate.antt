-- ===== src/Climate.antt =====
-- The thermostats of hahomematic/model/custom/climate.py: what they show, and setting the mode, the
-- profile, the temperature and the away mode. The values of the data points that they read are the
-- fields of the state; a method returns the values that it collects, in their order, or raises. What
-- Python formats is an argument. The bounds of the active profile are not negative.
pub mod Warm
pub mod Setting
pub mod Obeyed
pub mod Modes
use hahomematic.Base.{
  ℕ, zero, suc, ◌+◌, ◌-◌, ◌*◌, ◌/◌, ◌%◌, ◌≡◌, ◌↔◌, Eq, Bool, true, false, not, ◌&&◌, ◌||◌, ◌==◌,
  list_eq, nat_eq, Option, none, some, List, [], ◌∷◌, ◌++◌, if◌then◌else◌, ltb, leb, eqb, contains,
  arith,
}
use hahomematic.Base.Dict.{Dict, lookup, keys}
use hahomematic.Base.Text.{Text, codes}
use hahomematic.Base.Double.{
  ℤ, pos, negsuc, is_negative, int_eq, Double, div_int, of_int, double_eq, double_le,
}
use hahomematic.Base.Number.{show}
use hahomematic.Base.Value.{Value, int, real, text}
use hahomematic.Clock.{second}
use hahomematic.Schedule.{Error, value_error, Attempt, done, fails, ◌>>=◌}

pub data ClimateActivity : Type 0 where
  cooling heating idle switched_off : ClimateActivity

pub data ClimateMode : Type 0 where
  auto cool heat off : ClimateMode

abbrev pub mode_beq : ClimateMode → ClimateMode → Bool
mode_beq auto auto = true
mode_beq cool cool = true
mode_beq heat heat = true
mode_beq off off = true
mode_beq _ _ = false

pub mode_beq_iff : (a b : ClimateMode) → (mode_beq a b ≡ true) ↔ (a ≡ b)
mode_beq_iff auto b = ground arith
mode_beq_iff cool b = ground arith
mode_beq_iff heat b = ground arith
mode_beq_iff off b = ground arith

instance abbrev pub mode_eq : Eq ClimateMode
mode_eq = record { test = mode_beq; test_iff = mode_beq_iff }

-- The week programs by their number.
pub data ClimateProfile : Type 0 where
  away boost comfort eco no_profile : ClimateProfile
  week_program : ℕ → ClimateProfile

abbrev pub climate_profile_beq : ClimateProfile → ClimateProfile → Bool
climate_profile_beq away away = true
climate_profile_beq boost boost = true
climate_profile_beq comfort comfort = true
climate_profile_beq eco eco = true
climate_profile_beq no_profile no_profile = true
climate_profile_beq (week_program m) (week_program n) = eqb m n
climate_profile_beq _ _ = false

pub climate_profile_beq_iff : (a b : ClimateProfile) → (climate_profile_beq a b ≡ true) ↔ (a ≡ b)
climate_profile_beq_iff away b = ground arith
climate_profile_beq_iff boost b = ground arith
climate_profile_beq_iff comfort b = ground arith
climate_profile_beq_iff eco b = ground arith
climate_profile_beq_iff no_profile b = ground arith
climate_profile_beq_iff (week_program m) b = ground arith

instance abbrev pub climate_profile_eq : Eq ClimateProfile
climate_profile_eq = record { test = climate_profile_beq; test_iff = climate_profile_beq_iff }

-- What `CustomDpRfThermostat` and `CustomDpIpThermostat` read beside the fields of their base.
pub record RfFields : Type 0 where
  pub control_mode : Option Text
  pub valve_state : Option ℤ

pub record IpFields : Type 0 where
  pub active_profile : Option ℕ
  pub active_profile_min : ℕ
  pub active_profile_max : ℕ
  pub boost_mode : Option Bool
  pub heating_mode : Option Text
  pub level : Option Double
  pub set_point_mode : Option ℕ
  pub state : Option Bool

-- The classes; the simple thermostat is the base.
pub data Model : Type 0 where
  simple_rf : Model
  rf : RfFields → Model
  ip : IpFields → Model

pub record Climate : Type 0 where
  pub model : Model
  pub min_max_value_not_relevant : Option Bool
  pub setpoint : Option Double
  pub setpoint_min : Double
  pub setpoint_max : Double
  pub temperature_maximum : Option Double
  pub temperature_minimum : Option Double
  pub state_uncertain : Bool

-- What a method collects.
pub data Command : Type 0 where
  send_setpoint : Double → Bool → Command
  send_auto : Command
  send_manu : Option Double → Command
  send_boost : Bool → Command
  send_comfort send_lowering : Command
  send_control_mode send_active_profile : ℕ → Command

-- `_OFF_TEMPERATURE`
unfoldable pub off_temperature : Double
unfolding div_int
off_temperature = div_int (pos 9) 2

-- `_OFF_TEMPERATURE + _DEFAULT_TEMPERATURE_STEP`
unfoldable pub lowest_temperature : Double
unfolding of_int
lowest_temperature = of_int (pos 5)

abbrev pub or_value : Option Double → Double → Double
or_value none y = y
or_value (some x) y = x

unfoldable pub min_temp : Climate → Double
unfolding off_temperature lowest_temperature double_eq
min_temp c =
    let low = or_value c.temperature_minimum c.setpoint_min in
    if double_eq low off_temperature then lowest_temperature else low

unfoldable pub max_temp : Climate → Double
max_temp c = or_value c.temperature_maximum c.setpoint_max

unfoldable pub min_max_value_not_relevant_for_manu_mode : Climate → Bool
min_max_value_not_relevant_for_manu_mode c = elim c.min_max_value_not_relevant [
  | none ↦ false
  | some b ↦ b
]

-- `bool(x)` of a float
abbrev pub is_truthy : Double → Bool
is_truthy x = not (double_eq x (of_int (pos 0)))

-- A target temperature that is there, not 0 and not over the one for off.
unfoldable pub is_off : Option Double → Bool
unfolding off_temperature double_le double_eq of_int
is_off none = false
is_off (some x) = is_truthy x && double_le x off_temperature

-- `_is_heating_mode`
unfoldable pub is_heating_mode : IpFields → Bool
is_heating_mode f = elim f.heating_mode [ none ↦ true | some s ↦ s == codes "HEATING" ]

abbrev pub warm_mode : IpFields → ClimateMode
warm_mode f = if is_heating_mode f then heat else cool

abbrev pub is_text : Text → Option Text → Bool
is_text s none = false
is_text s (some t) = t == s

abbrev pub is_number : ℕ → Option ℕ → Bool
is_number n none = false
is_number n (some m) = eqb m n

abbrev pub mode_of : Model → Option Double → ClimateMode
mode_of simple_rf target = heat
mode_of (rf f) target =
    if is_off target then off else if is_text (codes "MANU-MODE") f.control_mode then heat else auto
mode_of (ip f) target =
    if is_off target then off else if is_number 1 f.set_point_mode then warm_mode f else auto

unfoldable pub mode : Climate → ClimateMode
unfolding is_off is_heating_mode
mode c = mode_of c.model c.setpoint

abbrev pub modes_of : Model → List ClimateMode
modes_of simple_rf = heat ∷ []
modes_of (rf f) = auto ∷ heat ∷ off ∷ []
modes_of (ip f) = auto ∷ warm_mode f ∷ off ∷ []

unfoldable pub modes : Climate → List ClimateMode
unfolding is_heating_mode
modes c = modes_of c.model

-- `ClimateProfile(f"week_program_{i}")` for a count of numbers from a first one; only 1 to 6 exist.
unfoldable pub week_programs : ℕ → ℕ → Attempt (Dict ClimateProfile ℕ)
week_programs zero i = done []
week_programs (suc count) i =
    if leb 1 i && leb i 6
    then (week_programs count (i + 1) >>= λ rest. done ((week_program i, i) ∷ rest))
    else fails value_error

-- `_profiles`
unfoldable pub profiles_of : IpFields → Attempt (Dict ClimateProfile ℕ)
unfolding week_programs
profiles_of f =
    if eqb f.active_profile_min 0 || eqb f.active_profile_max 0
    then done []
    else week_programs (f.active_profile_max + 1 - f.active_profile_min) f.active_profile_min

-- The key of the last entry with a value, as a dict that is turned around has it.
unfoldable pub key_of : ℕ → Dict ClimateProfile ℕ → Option ClimateProfile
key_of n [] = none
key_of n ((p, m) ∷ rest) =
    let later = key_of n rest in
    elim later [ some q ↦ some q | none ↦ if eqb m n then some p else none ]

-- `_current_profile_name`, with the profile that stands for none
unfoldable pub current_profile : IpFields → Attempt ClimateProfile
unfolding profiles_of key_of
current_profile f = profiles_of f >>= λ d. elim f.active_profile [
  | none ↦ done no_profile
  | some n ↦ elim (key_of n d) [ none ↦ done no_profile | some p ↦ done p ]
]

abbrev pub is_set : Option Bool → Bool
is_set none = false
is_set (some b) = b

abbrev profile_of : Model → ClimateMode → Attempt ClimateProfile
profile_of simple_rf m = done no_profile
profile_of (rf f) m =
    if is_text (codes "BOOST-MODE") f.control_mode
    then done boost
    else if is_text (codes "PARTY-MODE") f.control_mode
    then done away
    else done no_profile
profile_of (ip f) m =
    if is_set f.boost_mode
    then done boost
    else if is_number 2 f.set_point_mode
    then done away
    else if mode_beq m auto
    then current_profile f
    else done no_profile

unfoldable pub profile : Climate → Attempt ClimateProfile
unfolding mode current_profile
profile c = profile_of c.model (mode c)

abbrev profiles_in : Model → ClimateMode → Attempt (List ClimateProfile)
unfolding keys
profiles_in simple_rf m = done (no_profile ∷ [])
profiles_in (rf f) m = done (boost ∷ comfort ∷ eco ∷ no_profile ∷ [])
profiles_in (ip f) m =
    if mode_beq m auto
    then (profiles_of f >>= λ d. done (boost ∷ no_profile ∷ keys d))
    else done (boost ∷ no_profile ∷ [])

unfoldable pub profiles : Climate → Attempt (List ClimateProfile)
unfolding mode profiles_of profiles_in keys
profiles c = profiles_in c.model (mode c)

-- `level` is truthy and over `_CLOSED_LEVEL`, which is 0.
abbrev is_open : Option Double → Bool
is_open none = false
is_open (some x) = is_truthy x && not (double_le x (of_int (pos 0)))

abbrev has_level : Option Double → Bool
has_level none = false
has_level (some x) = true

abbrev has_state : Option Bool → Bool
has_state none = false
has_state (some b) = true

abbrev activity_of : Model → ClimateMode → Option ClimateActivity
activity_of simple_rf m = none
activity_of (rf f) m = elim f.valve_state [
  | none ↦ none
  | some n ↦
      if mode_beq m off
      then some switched_off
      else if not (int_eq n (pos 0)) && not (is_negative n)
      then some heating
      else some idle
]
activity_of (ip f) m =
    if not (has_state f.state) && not (has_level f.level)
    then none
    else if mode_beq m off
    then some switched_off
    else if is_set f.state || is_open f.level
    then some (if is_heating_mode f then heating else cooling)
    else some idle

unfoldable pub activity : Climate → Option ClimateActivity
unfolding mode is_heating_mode double_eq double_le of_int int_eq
activity c = activity_of c.model (mode c)
