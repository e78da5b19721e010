-- ===== src/Schedule/Paramset.antt =====
-- The entries of the paramset MASTER for a schedule (hahomematic/model/custom/climate.py): adding a
-- slot to the nested dict, the entries that are sent for it, and the dict that is read from them.
use hahomematic.Base.{
  ℕ, Bool, true, false, ◌&&◌, ◌||◌, list_eq, nat_eq, Option, none, some, List, [], ◌∷◌, ◌++◌,
  if◌then◌else◌, eqb, contains,
}
use hahomematic.Base.Dict.{lookup, insert, has, get_or}
use hahomematic.Base.Text.{Text, codes, split}
use hahomematic.Base.Double.{ℤ, pos, abs}
use hahomematic.Base.Number.{int_of, show}
use hahomematic.Base.Value.{Value, boolean, int, text}
use hahomematic.Schedule.{
  value_error, Attempt, done, fails, ◌>>=◌, ◌>>◌, check, or_fails, SlotType, endtime, temperature,
  slot_type_eq, show_slot_type, ScheduleProfile, profile_eq, profile_beq, show_profile,
  ScheduleWeekday, weekday_eq, weekday_beq, show_weekday, named, profiles, weekdays, slot_types,
  convert_time_str_to_minutes, convert_minutes_to_time_str, Slot, WeekdayData, ProfileData,
  ScheduleData, RawSchedule,
}

abbrev stored_text : Attempt Text → Attempt Value
stored_text (done s) = done (text s)
stored_text (fails e) = fails e

-- What is stored for a value: an end time that is an int becomes a text.
unfoldable pub stored_value : SlotType → Value → Attempt Value
unfolding convert_minutes_to_time_str
stored_value endtime (int n) = stored_text (convert_minutes_to_time_str (int n))
stored_value endtime (boolean b) = stored_text (convert_minutes_to_time_str (boolean b))
stored_value _ v = done v

abbrev pub with_slot : ScheduleProfile → ScheduleWeekday → ℕ → Slot → ScheduleData → ScheduleData
with_slot p w n slot d =
    let profile_data = get_or [] (lookup p d) in
    let weekday_data = get_or [] (lookup w profile_data) in
    insert p (insert w (insert n slot weekday_data) profile_data) d

-- the slot of a number, empty if it is missing
abbrev pub slot_at : ScheduleProfile → ScheduleWeekday → ℕ → ScheduleData → Slot
slot_at p w n d = get_or [] (lookup n (get_or [] (lookup w (get_or [] (lookup p d)))))

-- `_add_to_schedule_data`: the tests put the dicts there that are missing; what is there stays.
unfoldable pub add_to_schedule_data :
    ScheduleProfile → ScheduleWeekday → ℕ → SlotType → Value → ScheduleData → Attempt ScheduleData
unfolding stored_value
add_to_schedule_data p w n t v d =
    let slot = slot_at p w n d in
    if has t slot
    then done (with_slot p w n slot d)
    else do x ← stored_value t v; done (with_slot p w n (insert t x slot) d)

unfoldable pub name_of : ScheduleProfile → SlotType → ScheduleWeekday → ℕ → Text
unfolding show_profile show_slot_type show_weekday show
name_of p t w n =
    show_profile p ++ b'_' ∷ (show_slot_type t ++ b'_' ∷ (show_weekday w ++ b'_' ∷ show n))

-- The last part of a name: a number from 1 to 13; `$` allows a line feed behind it.
unfoldable pub is_slot_no : Text → Bool
is_slot_no (c ∷ []) = contains c (codes "123456789")
is_slot_no (c ∷ d ∷ []) =
    (contains c (codes "123456789") && eqb d 10) || (eqb c b'1' && contains d (codes "0123"))
is_slot_no (c ∷ d ∷ e ∷ []) = eqb c b'1' && (contains d (codes "0123") && eqb e 10)
is_slot_no _ = false

abbrev is_some {ℓ} : {A : Type ℓ} → Option A → Bool
is_some none = false
is_some (some a) = true

abbrev is_relevant : Option SlotType → Bool
is_relevant (some endtime) = true
is_relevant (some temperature) = true
is_relevant _ = false

abbrev are_parts : List Text → Bool
unfolding is_slot_no named show_profile show_slot_type show_weekday
are_parts (p ∷ t ∷ w ∷ n ∷ []) =
    is_some (named show_profile profiles p)
    && (is_relevant (named show_slot_type slot_types t)
        && (is_some (named show_weekday weekdays w) && is_slot_no n))
are_parts _ = false

-- `SCHEDULER_PROFILE_PATTERN.match`, as a test of the parts between the underscores
unfoldable pub matches_profile : Text → Bool
unfolding are_parts split
matches_profile s = are_parts (split b'_' s)

abbrev sent_minutes : Attempt ℕ → Attempt Value
sent_minutes (done n) = done (int (pos n))
sent_minutes (fails e) = fails e

-- The value that is sent: an end time that is a text becomes a number of minutes.
unfoldable pub raw_value : SlotType → Value → Attempt Value
unfolding convert_time_str_to_minutes
raw_value endtime (text s) = sent_minutes (convert_time_str_to_minutes s)
raw_value _ v = done v

unfoldable pub raw_slot :
    ScheduleProfile → ScheduleWeekday → ℕ → Slot → RawSchedule → Attempt RawSchedule
unfolding raw_value matches_profile name_of
raw_slot p w n [] raw = done raw
raw_slot p w n ((t, v) ∷ slot) raw = do
  check (matches_profile (name_of p t w n))
  x ← raw_value t v
  raw_slot p w n slot (insert (name_of p t w n) x raw)

unfoldable pub raw_weekday :
    ScheduleProfile → ScheduleWeekday → WeekdayData → RawSchedule → Attempt RawSchedule
unfolding raw_slot
raw_weekday p w [] raw = done raw
raw_weekday p w ((n, slot) ∷ rest) raw = do
  sent ← raw_slot p w n slot raw
  raw_weekday p w rest sent

unfoldable pub raw_profile : ScheduleProfile → ProfileData → RawSchedule → Attempt RawSchedule
unfolding raw_weekday
raw_profile p [] raw = done raw
raw_profile p ((w, weekday_data) ∷ rest) raw = do
  sent ← raw_weekday p w weekday_data raw
  raw_profile p rest sent

unfoldable pub raw_profiles : ScheduleData → RawSchedule → Attempt RawSchedule
unfolding raw_profile
raw_profiles [] raw = done raw
raw_profiles ((p, profile_data) ∷ rest) raw = do
  sent ← raw_profile p profile_data raw
  raw_profiles rest sent

unfoldable pub get_raw_schedule_paramset : ScheduleData → Attempt RawSchedule
unfolding raw_profiles
get_raw_schedule_paramset d = raw_profiles d []

-- Adding all values of a slot, of a weekday or of a profile, as the methods that set them do.
unfoldable pub add_slot :
    ScheduleProfile → ScheduleWeekday → ℕ → Slot → ScheduleData → Attempt ScheduleData
unfolding add_to_schedule_data
add_slot p w n [] d = done d
add_slot p w n ((t, v) ∷ slot) d = do
  added ← add_to_schedule_data p w n t v d
  add_slot p w n slot added

unfoldable pub add_weekday :
    ScheduleProfile → ScheduleWeekday → WeekdayData → ScheduleData → Attempt ScheduleData
unfolding add_slot
add_weekday p w [] d = done d
add_weekday p w ((n, slot) ∷ rest) d = do added ← add_slot p w n slot d; add_weekday p w rest added

unfoldable pub add_profile : ScheduleProfile → ProfileData → ScheduleData → Attempt ScheduleData
unfolding add_weekday
add_profile p [] d = done d
add_profile p ((w, weekday_data) ∷ rest) d = do
  added ← add_weekday p w weekday_data d
  add_profile p rest added

abbrev pub slot_no_of : Option ℤ → Attempt ℕ
slot_no_of none = fails value_error
slot_no_of (some n) = done (abs n)

-- A filter that is not given lets everything pass.
abbrev pub is_asked {ℓ} : {A : Type ℓ} → (A → A → Bool) → Option A → A → Bool
is_asked same none a = true
is_asked same (some b) a = same b a

-- The rest of the body, for a profile that is asked for. No number has a sign, as the names are
-- filtered by their pattern.
unfoldable pub read_rest :
    Option ScheduleWeekday
    → ScheduleProfile
    → Text
    → Text
    → Text
    → Value
    → ScheduleData
    → Attempt ScheduleData
unfolding add_to_schedule_data named int_of show_slot_type show_weekday
read_rest weekday p t w n v d = do
  slot_type ← or_fails value_error (named show_slot_type slot_types t)
  slot_weekday ← or_fails value_error (named show_weekday weekdays w)
  if is_asked weekday_beq weekday slot_weekday
      then (slot_no_of (int_of n) >>= λ slot_no.
          add_to_schedule_data p slot_weekday slot_no slot_type v d)
      else done d

-- The body of the loop of `_get_schedule_profile`, after the name was split.
unfoldable pub read_parts :
    Option ScheduleProfile
    → Option ScheduleWeekday
    → List Text
    → Value
    → ScheduleData
    → Attempt ScheduleData
unfolding read_rest named show_profile
read_parts profile weekday (p ∷ t ∷ w ∷ n ∷ []) v d = do
  slot_profile ← or_fails value_error (named show_profile profiles p)
  if is_asked profile_beq profile slot_profile
      then read_rest weekday slot_profile t w n v d
      else done d
read_parts profile weekday _ v d = done d

unfoldable pub read_schedule :
    Option ScheduleProfile
    → Option ScheduleWeekday
    → RawSchedule
    → ScheduleData
    → Attempt ScheduleData
unfolding read_parts split
read_schedule profile weekday [] d = done d
read_schedule profile weekday ((name, v) ∷ rest) d = do
  read ← read_parts profile weekday (split b'_' name) v d
  read_schedule profile weekday rest read
