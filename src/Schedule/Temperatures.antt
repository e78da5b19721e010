-- ===== src/Schedule/Temperatures.antt =====
-- The temperature at a time of the day: of a simple list, and of the slots that
-- hahomematic/model/custom/climate.py makes of it.
use hahomematic.Base.{
  ℕ, suc, ◌-◌, ◌≤◌, ◌<◌, ◌≡◌, refl, sym, ap, ◌∙◌, Bool, false, ◌&&◌, Option, none, some, List, [],
  ◌∷◌, ◌++◌, if◌then◌else◌, ltb, leb, length, arith, Bool-cases, inl, inr,
}
use mathlib.Core.List.{append_assoc}
use hahomematic.Base.Dict.{lookup, values}
use hahomematic.Base.Text.{Text, codes, strip}
use hahomematic.Base.Double.{Double}
use hahomematic.Base.Value.{Value, real, text}
use hahomematic.Schedule.{
  Attempt, done, fails, check, SlotType, endtime, starttime, temperature, slot_type_eq,
  convert_time_str_to_minutes, Slot, WeekdayData,
}
use hahomematic.Schedule.Weekday.{
  minutes_of, is_valid_temperature, slot_of, Times, fillup, fillup_weekday_data, convert_slots,
  sort_simple_weekday_list, convert_simple,
}
use hahomematic.Schedule.Slots.{numbered, fillers, fillup-numbered}
use hahomematic.Schedule.Simple.{
  >>=-done, done_eq, slots_for, IsChecked, Becomes, converted_slots, length-Becomes,
}

abbrev pub read_minutes : Attempt ℕ → Option ℕ
read_minutes (done n) = some n
read_minutes (fails e) = none

-- the minutes of a time that a slot names
abbrev pub minutes_at : SlotType → Slot → Option ℕ
minutes_at t slot = elim (lookup t slot) [ none ↦ none | some v ↦ read_minutes (minutes_of v) ]

abbrev is_after : ℕ → Option ℕ → Bool
is_after m none = false
is_after m (some n) = ltb m n

abbrev pub is_from : ℕ → Option ℕ → Bool
is_from m none = false
is_from m (some n) = leb n m

-- The device follows the first slot that ends after the time.
abbrev degrees_at : ℕ → List Slot → Option Value
degrees_at m [] = none
degrees_at m (slot ∷ rest) =
    if is_after m (minutes_at endtime slot) then lookup temperature slot else degrees_at m rest

abbrev pub temperature_at : ℕ → WeekdayData → Option Value
temperature_at m d = degrees_at m (values d)

-- The entry of a simple list that lasts at the time, or the base temperature.
abbrev pub simple_at : ℕ → Double → List Slot → Option Value
simple_at m base [] = some (real base)
simple_at m base (slot ∷ rest) =
    if is_from m (minutes_at starttime slot) && is_after m (minutes_at endtime slot)
    then lookup temperature slot
    else simple_at m base rest

values-numbered : (n : ℕ) (xs : List Slot) → values (numbered n xs) ≡ xs
unfolding values
values-numbered n [] = refl
values-numbered n (x ∷ xs) = ap (λ l. x ∷ l) (values-numbered (suc n) xs)

pub midnight : minutes_of (text (codes "24:00")) ≡ done 1440
unfolding minutes_of convert_time_str_to_minutes strip
midnight = refl

pub day_start : minutes_of (text (codes "00:00")) ≡ done 0
unfolding minutes_of convert_time_str_to_minutes strip
day_start = refl

end_of-slot_of :
    (v w : Value) (n : ℕ) → minutes_of v ≡ done n → minutes_at endtime (slot_of v w) ≡ some n
unfolding lookup
end_of-slot_of v w n h = rw h refl

degrees_of-slot_of : (v w : Value) → lookup temperature (slot_of v w) ≡ some w
unfolding lookup
degrees_of-slot_of v w = refl

-- A slot that ends after the time counts, one that ends before does not.
first_slot :
    (m n : ℕ) (v w : Value) (rest : List Slot)
    → minutes_of v ≡ done n
    → degrees_at m (slot_of v w ∷ rest) ≡ (if ltb m n then some w else degrees_at m rest)
first_slot m n v w rest h = rw (end_of-slot_of v w n h, degrees_of-slot_of v w) refl

degrees_at-fillers :
    (m count : ℕ) (base : Double)
    → m < 1440
    → degrees_at m (fillers base (suc count)) ≡ some (real base)
degrees_at-fillers m count base h =
    first_slot m 1440 (text (codes "24:00")) (real base) (fillers base count) midnight
    ∙ ground (arith, h)

pub minutes_at-some :
    (t : SlotType) (slot : Slot) (v : Value) (n : ℕ)
    → lookup t slot ≡ some v
    → minutes_of v ≡ done n
    → minutes_at t slot ≡ some n
minutes_at-some t slot v n h k = ground (arith, h, k)

pub minutes_eq : (v : Value) (a b : ℕ) → minutes_of v ≡ done a → minutes_of v ≡ done b → a ≡ b
minutes_eq v a b h k = cc

-- Before the start, during an entry, and after its end.
in_turn :
    (m s e : ℕ) (b v x y : Option Value)
    → s < e
    → (m < e → y ≡ b)
    → (e ≤ m → x ≡ y)
    → (if ltb m s then b else if ltb m e then v else x) ≡ (if leb s m && ltb m e then v else y)
in_turn m s e b v x y lasts early late = elim (Bool-cases (ltb m e)) [
  | inl before ↦ let known = early (ground (arith, before)) in ground (arith, before, known)
  | inr after ↦ let known = late (ground (arith, after)) in ground (arith, after, known, lasts)
]

module _ (read : Text → Option Double) (low high base : Double) where
  covers :
      (slot : Slot) (previous : Value) (t : Times) (m : ℕ)
      → IsChecked read low high slot previous t
      → (rest : List Slot)
      → simple_at m base (slot ∷ rest) ≡ (
          if leb t.start_minutes m && ltb m t.end_minutes
          then some t.degrees
          else simple_at m base rest)
  covers slot previous t m c rest =
      let from : minutes_at starttime slot ≡ some t.start_minutes =
        minutes_at-some starttime slot t.start t.start_minutes c.at_start c.reads_start in
      let till : minutes_at endtime slot ≡ some t.end_minutes =
        minutes_at-some endtime slot t.end t.end_minutes c.at_end c.reads_end in
      ap
        (λ o.
          if is_from m o && is_after m (minutes_at endtime slot)
          then lookup temperature slot
          else simple_at m base rest)
        from
      ∙ ap
          (λ o.
            if leb t.start_minutes m && is_after m o
            then lookup temperature slot
            else simple_at m base rest)
          till
      ∙ ap (λ o. if leb t.start_minutes m && ltb m t.end_minutes then o else simple_at m base rest)
          c.at_degrees

  -- Before the end of the previous entry, none of those that follow lasts.
  simple_at_before :
      (slots : List Slot) (previous : Value) (out : List Slot) (m p : ℕ)
      → Becomes read low high base previous slots out
      → minutes_of previous ≡ done p
      → m < p
      → simple_at m base slots ≡ some (real base)
  simple_at_before [] previous out m p becomes reads less = refl
  simple_at_before (slot ∷ rest) previous out m p (t, later, _, c, becomes) reads less =
      let same : t.previous_minutes ≡ p =
        minutes_eq previous t.previous_minutes p c.reads_previous reads in
      covers slot previous t m c rest
      ∙ ground (
        arith,
        c.follows,
        c.lasts,
        same,
        less,
        simple_at_before rest t.end later m t.end_minutes becomes c.reads_end,
      )

  slots_at :
      (t : Times) (m : ℕ) (rest : List Slot)
      → minutes_of t.start ≡ done t.start_minutes
      → minutes_of t.end ≡ done t.end_minutes
      → t.previous_minutes ≤ m
      → degrees_at m (slots_for base t ++ rest) ≡ (
          if ltb m t.start_minutes
          then some (real base)
          else if ltb m t.end_minutes
          then some t.degrees
          else degrees_at m rest)
  slots_at t m rest s e p = elim (Bool-cases (ltb t.previous_minutes t.start_minutes)) [
    | inl gap ↦ rw gap (
        first_slot m t.start_minutes t.start (real base) (slot_of t.end t.degrees ∷ rest) s
        ∙ ap (λ o. if ltb m t.start_minutes then some (real base) else o)
            (first_slot m t.end_minutes t.end t.degrees rest e))
    | inr none_free ↦
        rw none_free
          (first_slot m t.end_minutes t.end t.degrees rest e ∙ ground (arith, none_free, p))
  ]

  simple_after :
      (slots : List Slot) (previous : Value) (out more : List Slot) (m p : ℕ)
      → Becomes read low high base previous slots out
      → minutes_of previous ≡ done p
      → p ≤ m
      → degrees_at m more ≡ some (real base)
      → degrees_at m (out ++ more) ≡ simple_at m base slots
  simple_after [] previous out more m p becomes reads le rest_is = rw becomes rest_is
  simple_after (slot ∷ rest) previous out more m p (t, later, is_out, c, becomes) reads le rest_is =
      let same : t.previous_minutes ≡ p =
        minutes_eq previous t.previous_minutes p c.reads_previous reads in
      ap (degrees_at m) (rw is_out (append_assoc (slots_for base t) later more))
      ∙ slots_at t m (later ++ more) c.reads_start c.reads_end (omega (arith, same, le))
      ∙ in_turn m t.start_minutes t.end_minutes _ _ _ (simple_at m base rest) c.lasts
          (λ before. simple_at_before rest t.end later m t.end_minutes becomes c.reads_end before)
          (λ after.
            simple_after rest t.end later more m t.end_minutes becomes c.reads_end after rest_is)
      ∙ sym (covers slot previous t m c rest)

  -- The conversion of a list that is sorted by its starts, for at most six entries.
  converted_day :
      (slots : List Slot) (d : WeekdayData) (m : ℕ)
      → convert_slots read low high base slots (text (codes "00:00")) 1 [] ≡ done d
      → length slots ≤ 6
      → m < 1440
      → temperature_at m (fillup_weekday_data base d) ≡ simple_at m base slots
  unfolding fillup_weekday_data
  converted_day slots d m h few day =
      let (out, is_d, becomes) =
        converted_slots read low high base slots (text (codes "00:00")) d h in
      let short : length out ≤ 12 =
        omega (
          arith,
          few,
          length-Becomes read low high base slots (text (codes "00:00")) out becomes,
        ) in
      let count = 12 - length out in
      ap (temperature_at m)
        (ap (fillup base 13 1) is_d ∙ fillup-numbered base out (suc count) (omega arith))
      ∙ ap (degrees_at m) (values-numbered 1 (out ++ fillers base (suc count)))
      ∙ simple_after slots (text (codes "00:00")) out (fillers base (suc count)) m 0 becomes
          day_start (omega arith) (degrees_at-fillers m count base day)

  -- If a simple list of a weekday is converted and has at most six entries after they were sorted by
  -- their starts, then at every minute of the day the slots that result give the temperature of the
  -- entry that lasts then, or the base temperature if none does.
  pub temperature_at-convert_simple :
      (slots sorted_slots : List Slot) (d : WeekdayData) (m : ℕ)
      → convert_simple read low high base slots ≡ done d
      → sort_simple_weekday_list slots ≡ done sorted_slots
      → length sorted_slots ≤ 6
      → m < 1440
      → temperature_at m d ≡ simple_at m base sorted_slots
  unfolding convert_simple
  temperature_at-convert_simple slots sorted_slots d m h sorts few day =
      let (_, _, k) = >>=-done (check (is_valid_temperature low high base)) _ h in
      let (found, is_found, l) = >>=-done (sort_simple_weekday_list slots) _ k in
      let (e, is_e, is_d) =
        >>=-done (convert_slots read low high base found (text (codes "00:00")) 1 []) _ l in
      let same : found ≡ sorted_slots = done_eq found sorted_slots (sym is_found ∙ sorts) in
      ap (temperature_at m) (sym (done_eq (fillup_weekday_data base e) d is_d))
      ∙ converted_day found e m is_e (rw same few) day
      ∙ ap (simple_at m base) same
