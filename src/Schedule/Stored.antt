-- ===== src/Schedule/Stored.antt =====
-- Entries of a weekday of hahomematic/model/custom/climate.py, and the slots that are stored for them.
use hahomematic.Base.{
  ℕ, ◌<◌, ◌≤◌, ◌≡◌, refl, ap, ◌∙◌, false, list_eq, nat_eq, Eq, none, some, List, [], ◌∷◌, ◌++◌, eqb,
  arith, Bool-cases, inl, inr,
}
use hahomematic.Base.Dict.{Dict, lookup, insert, has, get_or, lookup-insert, has-lookup, ==_refl}
use hahomematic.Base.Text.{Text}
use hahomematic.Base.Double.{pos}
use hahomematic.Base.Value.{Value, int, text}
use hahomematic.Schedule.{
  done, SlotType, endtime, temperature, slot_type_eq, ScheduleProfile, profile_eq, profile_beq_iff,
  ScheduleWeekday, weekday_eq, weekday_beq_iff, time_str, Slot, WeekdayData, ScheduleData,
  RawSchedule,
}
use hahomematic.Schedule.Paramset.{name_of, stored_value, add_to_schedule_data, slot_at, with_slot}
use hahomematic.Schedule.Weekday.{slot_of}

-- A slot by its number, with its end in minutes and as a text.
pub record Entry : Type 0 where
  pub no : ℕ
  pub minutes : ℕ
  pub time : Text
  pub degrees : Value

abbrev pub slot_for : Entry → Slot
slot_for e = slot_of (text e.time) e.degrees

abbrev pub weekday_of : List Entry → WeekdayData
weekday_of [] = []
weekday_of (e ∷ rest) = (e.no, slot_for e) ∷ weekday_of rest

-- The numbers lie between 1 and 13, no number is among the earlier ones, and the end of a slot is the
-- text of its minutes, up to 24:59.
abbrev pub IsStandard : List Entry → List Entry → Type 0
IsStandard before [] = Unit {0}
IsStandard before (e ∷ rest) =
    (1 ≤ e.no)
    × (e.no ≤ 13)
    × (has e.no (weekday_of before) ≡ false)
    × (e.minutes < 1500)
    × (time_str e.minutes ≡ done e.time)
    × IsStandard (before ++ (e ∷ [])) rest

-- the entries that are sent
abbrev pub sent_for : ScheduleProfile → ScheduleWeekday → List Entry → RawSchedule
sent_for p w [] = []
sent_for p w (e ∷ rest) =
    (name_of p endtime w e.no, int (pos e.minutes))
    ∷ (name_of p temperature w e.no, e.degrees)
    ∷ sent_for p w rest

pub insert_new {ℓ κ} :
    {K : Type ℓ} {V : Type κ} ⦃q : Eq K⦄ (k : K) (v : V) (d : Dict K V)
    → has k d ≡ false
    → insert k v d ≡ d ++ ((k, v) ∷ [])
unfolding insert has
insert_new k v [] h = refl
insert_new k v ((j, w) ∷ d) h = ground (arith, h, insert_new k v d)

insert_again {ℓ κ} :
    {K : Type ℓ} {V : Type κ} ⦃q : Eq K⦄ (k : K) (v u : V) (d : Dict K V)
    → insert k v (insert k u d) ≡ insert k v d
unfolding insert
insert_again ⦃q⦄ k v u [] = rw (==_refl k) refl
insert_again k v u ((j, w) ∷ d) = ground (arith, insert_again k v u d)

-- the dict of one weekday, which is missing as long as it is empty
abbrev pub one_day : ScheduleProfile → ScheduleWeekday → WeekdayData → ScheduleData
one_day p w [] = []
one_day p w (x ∷ xs) = (p, (w, x ∷ xs) ∷ []) ∷ []

module _ (p : ScheduleProfile) (w : ScheduleWeekday) where
  slot_at-one_day :
      (n : ℕ) (d : WeekdayData) → slot_at p w n (one_day p w d) ≡ get_or [] (lookup n d)
  unfolding lookup
  slot_at-one_day n [] = refl
  slot_at-one_day n (x ∷ xs) = rw ((profile_beq_iff p p).1 refl, (weekday_beq_iff w w).1 refl) refl

  with_slot-one_day :
      (n : ℕ) (slot : Slot) (d : WeekdayData)
      → with_slot p w n slot (one_day p w d) ≡ one_day p w (insert n slot d)
  unfolding lookup insert
  with_slot-one_day n slot [] = refl
  with_slot-one_day n slot ((m, x) ∷ xs) = elim (Bool-cases (eqb m n)) [
    | inl same ↦ rw ((profile_beq_iff p p).1 refl, (weekday_beq_iff w w).1 refl, same) refl
    | inr other ↦ rw ((profile_beq_iff p p).1 refl, (weekday_beq_iff w w).1 refl, other) refl
  ]

  -- A value for a type that the slot has not yet.
  add_value :
      (n : ℕ) (t : SlotType) (v x : Value) (d : WeekdayData)
      → has t (get_or [] (lookup n d)) ≡ false
      → stored_value t v ≡ done x
      → add_to_schedule_data p w n t v (one_day p w d)
        ≡ done (one_day p w (insert n (insert t x (get_or [] (lookup n d))) d))
  unfolding add_to_schedule_data
  add_value n t v x d free stored =
      rw (slot_at-one_day n d, free, stored)
        (ap done (with_slot-one_day n (insert t x (get_or [] (lookup n d))) d))

  -- Adding the end and the temperature of a slot with a new number.
  module _ (e : Entry) (d : WeekdayData) (free : has e.no d ≡ false) where
    missing : lookup e.no d ≡ none
    missing = ground (arith, free, has-lookup e.no d)

    pub added_end : WeekdayData
    added_end = insert e.no ((endtime, text e.time) ∷ []) d

    pub add_end :
        (v : Value)
        → stored_value endtime v ≡ done (text e.time)
        → add_to_schedule_data p w e.no endtime v (one_day p w d) ≡ done (one_day p w added_end)
    unfolding added_end has insert
    add_end v stored =
        add_value e.no endtime v (text e.time) d (rw missing refl) stored ∙ rw missing refl

    found_end : lookup e.no added_end ≡ some ((endtime, text e.time) ∷ [])
    unfolding added_end
    found_end = lookup-insert e.no e.no _ d ∙ rw (==_refl e.no) refl

    pub add_degrees :
        add_to_schedule_data p w e.no temperature e.degrees (one_day p w added_end)
        ≡ done (one_day p w (d ++ ((e.no, slot_for e) ∷ [])))
    unfolding has insert stored_value added_end
    add_degrees =
        add_value e.no temperature e.degrees e.degrees added_end (rw found_end refl) refl
        ∙ ap
            (λ s.
              done
                (one_day p w (insert e.no (insert temperature e.degrees (get_or [] s)) added_end)))
            found_end
        ∙ ap (λ k. done (one_day p w k))
            (insert_again e.no (slot_for e) _ d ∙ insert_new e.no (slot_for e) d free)
