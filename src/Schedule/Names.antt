-- ===== src/Schedule/Names.antt =====
-- Times and entry names of schedules (hahomematic/model/custom/climate.py) are read back as what they
-- were written for.
use hahomematic.Base.{
  ℕ, ◌<◌, ◌≤◌, ◌≡◌, refl, sym, ap, ◌∙◌, Bool, true, false, ◌||◌, list_eq, nat_eq, some, [], ◌∷◌,
  eqb, contains, arith,
}
use hahomematic.Base.Table.{holds_below, holds_below_lem}
use hahomematic.Base.Text.{Text, split, split_none, split_cons, has_char, is_digit, strip}
use hahomematic.Base.Double.{pos}
use hahomematic.Base.Number.{show, int_of}
use hahomematic.Base.Number.Decimal.{show-is_digit, has_char-digits, int_of-show}
use hahomematic.Base.Value.{Value}
use hahomematic.Schedule.{
  Attempt, done, fails, SlotType, endtime, starttime, temperature, show_slot_type, ScheduleProfile,
  p1, p2, p3, p4, p5, p6, show_profile, profile_no, profile_beq_iff, ScheduleWeekday, monday,
  tuesday, wednesday, thursday, friday, saturday, sunday, weekday_beq_iff, show_weekday, named,
  profiles, weekdays, slot_types, time_str, convert_time_str_to_minutes, ScheduleData,
}
use hahomematic.Schedule.Paramset.{
  name_of, matches_profile, is_slot_no, read_parts, read_rest, add_to_schedule_data,
}

-- whether the text of a number of minutes is read back
is_read : ℕ → Bool
is_read n = elim (time_str n) [
  | fails e ↦ false
  | done s ↦ elim (convert_time_str_to_minutes s) [ fails e ↦ false | done m ↦ eqb m n ]
]

time_table : holds_below 1500 is_read ≡ true
unfolding holds_below is_read time_str convert_time_str_to_minutes strip
time_table = refl

found_minutes :
    (a : Attempt ℕ) (n : ℕ) → (elim a [ fails e ↦ false | done m ↦ eqb m n ]) ≡ true → a ≡ done n
found_minutes (fails e) n h = cc h
found_minutes (done m) n h = ap done (ground (arith, h))

found_time :
    (a : Attempt Text) (n : ℕ)
    → (elim a [
      | fails e ↦ false
      | done s ↦ elim (convert_time_str_to_minutes s) [ fails e ↦ false | done m ↦ eqb m n ]
    ])
      ≡ true
    → (s : Text) × (a ≡ done s) × (convert_time_str_to_minutes s ≡ done n)
found_time (fails e) n h = cc h
found_time (done s) n h = (s, refl, found_minutes (convert_time_str_to_minutes s) n h)

-- Every number of minutes up to 24:59 has a text, which is read back as this number.
pub convert_time-time_str :
    (n : ℕ)
    → n < 1500
    → (s : Text) × (time_str n ≡ done s) × (convert_time_str_to_minutes s ≡ done n)
unfolding is_read
convert_time-time_str n small =
    found_time (time_str n) n (holds_below_lem 1500 is_read n time_table small)

named-show_profile : (p : ScheduleProfile) → named show_profile profiles (show_profile p) ≡ some p
unfolding named show_profile
named-show_profile p1 = refl
named-show_profile p2 = refl
named-show_profile p3 = refl
named-show_profile p4 = refl
named-show_profile p5 = refl
named-show_profile p6 = refl

named-show_weekday : (w : ScheduleWeekday) → named show_weekday weekdays (show_weekday w) ≡ some w
unfolding named show_weekday
named-show_weekday monday = refl
named-show_weekday tuesday = refl
named-show_weekday wednesday = refl
named-show_weekday thursday = refl
named-show_weekday friday = refl
named-show_weekday saturday = refl
named-show_weekday sunday = refl

named-show_slot_type : (t : SlotType) → named show_slot_type slot_types (show_slot_type t) ≡ some t
unfolding named show_slot_type
named-show_slot_type endtime = refl
named-show_slot_type starttime = refl
named-show_slot_type temperature = refl

plain_profile : (p : ScheduleProfile) → has_char b'_' (show_profile p) ≡ false
unfolding has_char show_profile profile_no
plain_profile p1 = refl
plain_profile p2 = refl
plain_profile p3 = refl
plain_profile p4 = refl
plain_profile p5 = refl
plain_profile p6 = refl

plain_weekday : (w : ScheduleWeekday) → has_char b'_' (show_weekday w) ≡ false
unfolding has_char show_weekday
plain_weekday monday = refl
plain_weekday tuesday = refl
plain_weekday wednesday = refl
plain_weekday thursday = refl
plain_weekday friday = refl
plain_weekday saturday = refl
plain_weekday sunday = refl

plain_slot_type : (t : SlotType) → has_char b'_' (show_slot_type t) ≡ false
unfolding has_char show_slot_type
plain_slot_type endtime = refl
plain_slot_type starttime = refl
plain_slot_type temperature = refl

plain_number : (n : ℕ) → has_char b'_' (show n) ≡ false
unfolding is_digit
plain_number n = has_char-digits b'_' (show n) refl (show-is_digit n)

-- The parts of a name.
pub split-name_of :
    (p : ScheduleProfile) (t : SlotType) (w : ScheduleWeekday) (n : ℕ)
    → split b'_' (name_of p t w n)
      ≡ show_profile p ∷ show_slot_type t ∷ show_weekday w ∷ show n ∷ []
unfolding name_of
split-name_of p t w n =
    split_cons b'_' (show_profile p) _ (plain_profile p)
    ∙ ap (λ l. show_profile p ∷ l)
        (split_cons b'_' (show_slot_type t) _ (plain_slot_type t)
          ∙ ap (λ l. show_slot_type t ∷ l)
              (split_cons b'_' (show_weekday w) _ (plain_weekday w)
                ∙ ap (λ l. show_weekday w ∷ l) (split_none b'_' (show n) (plain_number n))))

slot_no_table : holds_below 14 (λ n. eqb n 0 || is_slot_no (show n)) ≡ true
unfolding holds_below is_slot_no show contains
slot_no_table = refl

slot_no_shown : (n : ℕ) → 1 ≤ n → n ≤ 13 → is_slot_no (show n) ≡ true
slot_no_shown n low high = ground (
  arith,
  low,
  holds_below_lem 14 (λ m. eqb m 0 || is_slot_no (show m)) n slot_no_table (omega (arith, high)),
)

abbrev pub is_sent : SlotType → Bool
is_sent endtime = true
is_sent temperature = true
is_sent starttime = false

-- The names of the end times and temperatures of the slots 1 to 13 match the pattern.
pub matches_profile-name_of :
    (p : ScheduleProfile) (t : SlotType) (w : ScheduleWeekday) (n : ℕ)
    → is_sent t ≡ true
    → 1 ≤ n
    → n ≤ 13
    → matches_profile (name_of p t w n) ≡ true
unfolding matches_profile
matches_profile-name_of p t w n sent low high = rw (split-name_of p t w n) (
    rw
      (named-show_profile p, named-show_slot_type t, named-show_weekday w, slot_no_shown n low high)
      (ground (arith, sent)))

-- An entry with such a name is read into its slot.
pub read_parts-name_of :
    (p : ScheduleProfile) (t : SlotType) (w : ScheduleWeekday) (n : ℕ) (v : Value)
    (d : ScheduleData)
    → read_parts (some p) (some w) (split b'_' (name_of p t w n)) v d
      ≡ add_to_schedule_data p w n t v d
unfolding read_parts read_rest
read_parts-name_of p t w n v d = rw (split-name_of p t w n) (
    rw (named-show_profile p, (profile_beq_iff p p).1 refl)
      (rw
        (named-show_slot_type t, named-show_weekday w, (weekday_beq_iff w w).1 refl, int_of-show n)
        refl))

-- Different slots have different names.
pub name_of-ne :
    (p : ScheduleProfile) (t u : SlotType) (w : ScheduleWeekday) (m n : ℕ)
    → name_of p t w m ≡ name_of p u w n
    → (t ≡ u) × (m ≡ n)
name_of-ne p t u w m n h =
    let parts : show_profile p ∷ show_slot_type t ∷ show_weekday w ∷ show m ∷ []
        ≡ show_profile p ∷ show_slot_type u ∷ show_weekday w ∷ show n ∷ [] =
      sym (split-name_of p t w m) ∙ ap (split b'_') h ∙ split-name_of p u w n in
    let types : show_slot_type t ≡ show_slot_type u = cc parts in
    let numbers : show m ≡ show n = cc parts in
    let same_type : some t ≡ some u =
      sym (named-show_slot_type t)
      ∙ ap (named show_slot_type slot_types) types
      ∙ named-show_slot_type u in
    let same_number : some (pos m) ≡ some (pos n) =
      sym (int_of-show m) ∙ ap int_of numbers ∙ int_of-show n in
    (cc same_type, cc same_number)
