-- ===== src/Schedule/Service.antt =====
-- The methods of a thermostat that read, set and copy schedules
-- (hahomematic/model/custom/climate.py). What the backend answers to `get_paramset` is an argument,
-- `none` for a ClientException; what goes to `put_paramset` is the result.
use hahomematic.Base.{
  ℕ, Bool, true, false, not, ◌||◌, ◌==◌, list_eq, nat_eq, Option, none, some, List, [], ◌∷◌,
  if◌then◌else◌, eqb,
}
use hahomematic.Base.Dict.{Dict, lookup, insert, get_or}
use hahomematic.Base.Text.{Text}
use hahomematic.Base.Double.{Double}
use hahomematic.Schedule.{
  validation_exception, Attempt, done, fails, ◌>>=◌, ◌>>◌, ScheduleProfile, profile_eq, profile_beq,
  ScheduleWeekday, weekday_eq, Slot, WeekdayData, ProfileData, ScheduleData, RawSchedule,
}
use hahomematic.Schedule.Paramset.{
  add_weekday, add_profile, get_raw_schedule_paramset, matches_profile, read_schedule,
}
use hahomematic.Schedule.Weekday.{convert_simple, validate_weekday}

-- What the methods ask of a thermostat.
pub record Thermostat : Type 0 where
  pub address : Text
  pub product_group : Text
  pub schedule_profile_nos : ℕ
  pub supports_schedule : Bool
  pub min_temp : Double
  pub max_temp : Double

-- A call of `put_paramset` with the key MASTER.
pub record PutParamset : Type 0 where
  pub channel_address : Text
  pub paramset : RawSchedule

abbrev pub put_to : Text → ScheduleData → Attempt PutParamset
unfolding get_raw_schedule_paramset
put_to address d = do
  raw ← get_raw_schedule_paramset d
  done (record { channel_address = address; paramset = raw })

unfoldable pub set_schedule_profile_weekday :
    (Text → Option Double)
    → ScheduleProfile
    → ScheduleWeekday
    → WeekdayData
    → Bool
    → Thermostat
    → Attempt PutParamset
unfolding validate_weekday add_weekday get_raw_schedule_paramset put_to
set_schedule_profile_weekday read p w weekday_data do_validate c = do
  if do_validate then validate_weekday read c.min_temp c.max_temp weekday_data else done tt
  d ← add_weekday p w weekday_data []
  put_to c.address d

-- `_validate_schedule_profile`
unfoldable pub validate_profile :
    (Text → Option Double) → Double → Double → ProfileData → Attempt (Unit {0})
unfolding validate_weekday
validate_profile read low high [] = done tt
validate_profile read low high ((w, weekday_data) ∷ rest) = do
  validate_weekday read low high weekday_data
  validate_profile read low high rest

-- `_set_schedule_profile`, to the address of a channel
unfoldable pub set_profile_at :
    (Text → Option Double)
    → Text
    → ScheduleProfile
    → ProfileData
    → Bool
    → Thermostat
    → Attempt PutParamset
unfolding validate_profile add_profile put_to get_raw_schedule_paramset
set_profile_at read address p profile_data do_validate c = do
  if do_validate then validate_profile read c.min_temp c.max_temp profile_data else done tt
  d ← add_profile p profile_data []
  put_to address d

unfoldable pub set_schedule_profile :
    (Text → Option Double) → ScheduleProfile → ProfileData → Bool → Thermostat → Attempt PutParamset
unfolding set_profile_at
set_schedule_profile read p profile_data do_validate c =
    set_profile_at read c.address p profile_data do_validate c

unfoldable pub set_simple_schedule_profile_weekday :
    (Text → Option Double)
    → ScheduleProfile
    → ScheduleWeekday
    → Double
    → List Slot
    → Thermostat
    → Attempt PutParamset
unfolding convert_simple set_schedule_profile_weekday
set_simple_schedule_profile_weekday read p w base slots c = do
  weekday_data ← convert_simple read c.min_temp c.max_temp base slots
  set_schedule_profile_weekday read p w weekday_data true c

-- `_validate_and_convert_simple_to_profile`, with the days that are converted already
unfoldable pub convert_simple_profile :
    (Text → Option Double)
    → Double
    → Double
    → Double
    → Dict ScheduleWeekday (List Slot)
    → ProfileData
    → Attempt ProfileData
unfolding convert_simple
convert_simple_profile read low high base [] d = done d
convert_simple_profile read low high base ((w, slots) ∷ rest) d = do
  weekday_data ← convert_simple read low high base slots
  convert_simple_profile read low high base rest (insert w weekday_data d)

unfoldable pub set_simple_schedule_profile :
    (Text → Option Double)
    → ScheduleProfile
    → Double
    → Dict ScheduleWeekday (List Slot)
    → Thermostat
    → Attempt PutParamset
unfolding convert_simple_profile set_schedule_profile
set_simple_schedule_profile read p base days c = do
  profile_data ← convert_simple_profile read c.min_temp c.max_temp base days []
  set_schedule_profile read p profile_data true c

unfoldable pub filter_raw : RawSchedule → RawSchedule
unfolding matches_profile
filter_raw [] = []
filter_raw ((name, v) ∷ rest) =
    let kept = filter_raw rest in if matches_profile name then (name, v) ∷ kept else kept

-- `_get_raw_schedule`: a ClientException turns the support of schedules off.
unfoldable pub get_raw_schedule : Option RawSchedule → Thermostat → Attempt RawSchedule × Thermostat
unfolding filter_raw
get_raw_schedule none c = (fails validation_exception, record c { supports_schedule = false })
get_raw_schedule (some raw) c = (done (filter_raw raw), c)

unfoldable pub get_schedule :
    Option RawSchedule
    → Option ScheduleProfile
    → Option ScheduleWeekday
    → Thermostat
    → Attempt ScheduleData × Thermostat
unfolding get_raw_schedule read_schedule
get_schedule answer profile weekday c =
    let (raw, c') = get_raw_schedule answer c in
    (raw >>= λ r. read_schedule profile weekday r [], c')

abbrev profile_in : ScheduleProfile → Attempt ScheduleData → Attempt ProfileData
profile_in p (done d) = done (get_or [] (lookup p d))
profile_in p (fails e) = fails e

unfoldable pub get_schedule_profile :
    Option RawSchedule → ScheduleProfile → Thermostat → Attempt ProfileData × Thermostat
unfolding get_schedule
get_schedule_profile answer p c =
    let (read, c') = get_schedule answer (some p) none c in
    if c.supports_schedule then (profile_in p read, c') else (fails validation_exception, c)

abbrev weekday_in : ScheduleWeekday → Attempt ProfileData → Attempt WeekdayData
weekday_in w (done d) = done (get_or [] (lookup w d))
weekday_in w (fails e) = fails e

unfoldable pub get_schedule_profile_weekday :
    Option RawSchedule
    → ScheduleProfile
    → ScheduleWeekday
    → Thermostat
    → Attempt WeekdayData × Thermostat
unfolding get_schedule
get_schedule_profile_weekday answer p w c =
    let (read, c') = get_schedule answer (some p) (some w) c in
    if c.supports_schedule
    then (weekday_in w (profile_in p read), c')
    else (fails validation_exception, c)

-- `copy_schedule` to another thermostat
unfoldable pub copy_schedule :
    Option RawSchedule → Thermostat → Thermostat → Attempt PutParamset × Thermostat
unfolding get_raw_schedule
copy_schedule answer target c =
    let (raw, c') = get_raw_schedule answer c in
    if not (c.product_group == target.product_group)
      || not (eqb c.schedule_profile_nos target.schedule_profile_nos)
    then (fails validation_exception, c)
    else (raw >>= λ r. done (record { channel_address = target.address; paramset = r }), c')

-- The thermostat that `copy_schedule_profile` copies to: the same object, or another one.
pub data Target : Type 0 where
  itself : Target
  other : Thermostat → Target

abbrev pub target_of : Target → Thermostat → Thermostat
target_of itself c = c
target_of (other t) c = t

abbrev is_refused : Target → ScheduleProfile → ScheduleProfile → Bool
is_refused itself source target = profile_beq source target
is_refused (other t) source target = false

unfoldable pub copy_schedule_profile :
    (Text → Option Double)
    → Option RawSchedule
    → ScheduleProfile
    → ScheduleProfile
    → Target
    → Thermostat
    → Attempt PutParamset × Thermostat
unfolding get_schedule_profile set_profile_at
copy_schedule_profile read answer source profile target c =
    let t = target_of target c in
    let (profile_data, c') = get_schedule_profile answer source c in
    if not c.supports_schedule
      || (not (c.product_group == t.product_group) || is_refused target source profile)
    then (fails validation_exception, c)
    else (profile_data >>= λ d. set_profile_at read t.address profile d false c', c')
