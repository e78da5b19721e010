-- ===== src/Schedule.antt =====
-- Heating schedules of thermostats, hahomematic/model/custom/climate.py with two patterns of
-- hahomematic/const.py: times of a day as texts and as minutes, the names of the entries of the
-- paramset MASTER, and the nested dict of profiles, weekdays and slots between them. A slot number is
-- not negative.
pub mod Stored
pub mod Paramset
pub mod Weekday
pub mod Service
pub mod Names
pub mod Entries
pub mod RoundTrip
pub mod Last
pub mod Slots
pub mod Simple
pub mod Temperatures
pub mod Accepted
use hahomematic.Base.{
  ℕ, ◌+◌, ◌*◌, ◌/◌, ◌%◌, ◌≡◌, ◌↔◌, Eq, Bool, true, false, ◌&&◌, ◌||◌, ◌==◌, list_eq, nat_eq, Option,
  none, some, List, [], ◌∷◌, ◌++◌, if◌then◌else◌, ltb, leb, eqb, contains, arith,
}
use hahomematic.Base.Dict.{Dict, lookup, insert, has, get_or}
use hahomematic.Base.Text.{Text, codes, split, is_digit}
use hahomematic.Base.Double.{ℤ, pos, negsuc, abs}
use hahomematic.Base.Number.{int_of, show}
use hahomematic.Base.Value.{Value, null, boolean, int, real, text}

-- The exceptions that the methods raise.
pub data Error : Type 0 where
  validation_exception key_error value_error type_error : Error

-- What a method returns, or what it raises.
pub data Attempt {ℓ} (A : Type ℓ) : Type ℓ where
  done : A → Attempt A
  fails : Error → Attempt A

infixl 5 ◌>>=◌ ◌>>◌
abbrev pub ◌>>=◌ {ℓ κ} : {A : Type ℓ} {B : Type κ} → Attempt A → (A → Attempt B) → Attempt B
done a >>= f = f a
fails e >>= f = fails e

abbrev pub ◌>>◌ {ℓ} : {B : Type ℓ} → Attempt (Unit {0}) → Attempt B → Attempt B
m >> k = m >>= λ _. k

-- A test that raises a ValidationException where it does not hold.
abbrev pub check : Bool → Attempt (Unit {0})
check true = done tt
check false = fails validation_exception

abbrev pub or_fails {ℓ} : {A : Type ℓ} → Error → Option A → Attempt A
or_fails e none = fails e
or_fails e (some a) = done a

-- `ScheduleSlotType`
pub data SlotType : Type 0 where
  endtime starttime temperature : SlotType

abbrev pub slot_type_beq : SlotType → SlotType → Bool
slot_type_beq endtime endtime = true
slot_type_beq starttime starttime = true
slot_type_beq temperature temperature = true
slot_type_beq _ _ = false

pub slot_type_beq_iff : (a b : SlotType) → (slot_type_beq a b ≡ true) ↔ (a ≡ b)
slot_type_beq_iff endtime b = ground arith
slot_type_beq_iff starttime b = ground arith
slot_type_beq_iff temperature b = ground arith

instance abbrev pub slot_type_eq : Eq SlotType
slot_type_eq = record { test = slot_type_beq; test_iff = slot_type_beq_iff }

unfoldable pub show_slot_type : SlotType → Text
show_slot_type endtime = codes "ENDTIME"
show_slot_type starttime = codes "STARTTIME"
show_slot_type temperature = codes "TEMPERATURE"

-- `ScheduleProfile`
pub data ScheduleProfile : Type 0 where
  p1 p2 p3 p4 p5 p6 : ScheduleProfile

unfoldable pub profile_no : ScheduleProfile → ℕ
profile_no p1 = 1
profile_no p2 = 2
profile_no p3 = 3
profile_no p4 = 4
profile_no p5 = 5
profile_no p6 = 6

abbrev pub profile_beq : ScheduleProfile → ScheduleProfile → Bool
unfolding profile_no
profile_beq a b = eqb (profile_no a) (profile_no b)

pub profile_beq_iff : (a b : ScheduleProfile) → (profile_beq a b ≡ true) ↔ (a ≡ b)
unfolding profile_no
profile_beq_iff a b = ground arith

instance abbrev pub profile_eq : Eq ScheduleProfile
profile_eq = record { test = profile_beq; test_iff = profile_beq_iff }

unfoldable pub show_profile : ScheduleProfile → Text
unfolding profile_no
show_profile p = b'P' ∷ (b'0' + profile_no p) ∷ []

-- `ScheduleWeekday`
pub data ScheduleWeekday : Type 0 where
  monday tuesday wednesday thursday friday saturday sunday : ScheduleWeekday

unfoldable pub weekday_no : ScheduleWeekday → ℕ
weekday_no monday = 0
weekday_no tuesday = 1
weekday_no wednesday = 2
weekday_no thursday = 3
weekday_no friday = 4
weekday_no saturday = 5
weekday_no sunday = 6

abbrev pub weekday_beq : ScheduleWeekday → ScheduleWeekday → Bool
unfolding weekday_no
weekday_beq a b = eqb (weekday_no a) (weekday_no b)

pub weekday_beq_iff : (a b : ScheduleWeekday) → (weekday_beq a b ≡ true) ↔ (a ≡ b)
unfolding weekday_no
weekday_beq_iff a b = ground arith

instance abbrev pub weekday_eq : Eq ScheduleWeekday
weekday_eq = record { test = weekday_beq; test_iff = weekday_beq_iff }

unfoldable pub show_weekday : ScheduleWeekday → Text
show_weekday monday = codes "MONDAY"
show_weekday tuesday = codes "TUESDAY"
show_weekday wednesday = codes "WEDNESDAY"
show_weekday thursday = codes "THURSDAY"
show_weekday friday = codes "FRIDAY"
show_weekday saturday = codes "SATURDAY"
show_weekday sunday = codes "SUNDAY"

-- The member of an enum that a text names.
unfoldable pub named {ℓ} : {A : Type ℓ} → (A → Text) → List A → Text → Option A
named show_of [] s = none
named show_of (a ∷ rest) s =
    let later = named show_of rest s in if show_of a == s then some a else later

abbrev pub profiles : List ScheduleProfile
profiles = p1 ∷ p2 ∷ p3 ∷ p4 ∷ p5 ∷ p6 ∷ []

abbrev pub weekdays : List ScheduleWeekday
weekdays = monday ∷ tuesday ∷ wednesday ∷ thursday ∷ friday ∷ saturday ∷ sunday ∷ []

abbrev pub slot_types : List SlotType
slot_types = endtime ∷ starttime ∷ temperature ∷ []

abbrev is_in : ℕ → ℕ → ℕ → Bool
is_in lo hi c = leb lo c && leb c hi

-- A colon and two digits of a minute, at the start of a text.
unfoldable pub has_minutes : Text → Bool
unfolding is_digit
has_minutes (c ∷ d ∷ e ∷ _) = eqb c b':' && (is_in b'0' b'5' d && is_digit e)
has_minutes _ = false

abbrev is_hour : ℕ → ℕ → Bool
unfolding is_digit
is_hour a b = (is_in b'0' b'1' a && is_digit b) || (eqb a b'2' && is_in b'0' b'4' b)

-- `SCHEDULER_TIME_PATTERN.match`, which asks for the start of the text only
unfoldable pub matches_time : Text → Bool
unfolding has_minutes is_hour is_digit
matches_time (a ∷ b ∷ rest) =
    (is_digit a && has_minutes (b ∷ rest)) || (is_hour a b && has_minutes rest)
matches_time _ = false

abbrev add_hours : Option ℤ → Option ℤ → Option ℕ
add_hours (some h) (some m) = some (abs h * 60 + abs m)
add_hours _ _ = none

abbrev add_parts : List Text → Option ℕ
add_parts (h ∷ m ∷ []) = add_hours (int_of h) (int_of m)
add_parts _ = none

-- `_convert_time_str_to_minutes`; after the pattern neither part has a sign.
unfoldable pub convert_time_str_to_minutes : Text → Attempt ℕ
unfolding matches_time int_of split
convert_time_str_to_minutes s =
    if matches_time s
    then or_fails validation_exception (add_parts (split b':' s))
    else fails validation_exception

-- `f"{n:0=2}"`
unfoldable pub two_digits : ℕ → Text
unfolding show
two_digits n = if ltb n 10 then b'0' ∷ show n else show n

-- `_convert_minutes_to_time_str` of an int that is not negative
unfoldable pub time_str : ℕ → Attempt Text
unfolding two_digits matches_time
time_str n =
    let s : Text = two_digits (n / 60) ++ b':' ∷ two_digits (n % 60) in
    if matches_time s then done s else fails validation_exception

-- `_convert_minutes_to_time_str`; the text of a negative int begins with its sign.
unfoldable pub convert_minutes_to_time_str : Value → Attempt Text
unfolding time_str
convert_minutes_to_time_str (int (pos n)) = time_str n
convert_minutes_to_time_str (int (negsuc n)) = fails validation_exception
convert_minutes_to_time_str (boolean true) = time_str 1
convert_minutes_to_time_str (boolean false) = time_str 0
convert_minutes_to_time_str _ = done (codes "24:00")

abbrev pub Slot : Type 0
Slot = Dict SlotType Value

abbrev pub WeekdayData : Type 0
WeekdayData = Dict ℕ Slot

abbrev pub ProfileData : Type 0
ProfileData = Dict ScheduleWeekday WeekdayData

abbrev pub ScheduleData : Type 0
ScheduleData = Dict ScheduleProfile ProfileData

abbrev pub RawSchedule : Type 0
RawSchedule = Dict Text Value
