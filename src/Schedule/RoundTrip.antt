-- ===== src/Schedule/RoundTrip.antt =====
-- A weekday that is set is read back (hahomematic/model/custom/climate.py).
use hahomematic.Base.{
  ◌≡◌, refl, sym, ap, ◌∙◌, true, false, list_eq, nat_eq, Option, some, List, [], ◌∷◌, ◌++◌,
}
use mathlib.Core.List.{append_assoc, append-nil}
use hahomematic.Base.Dict.{lookup, get_or}
use hahomematic.Base.Text.{Text}
use hahomematic.Base.Double.{Double}
use hahomematic.Schedule.{
  done, endtime, temperature, slot_type_eq, ScheduleProfile, profile_eq, profile_beq_iff,
  ScheduleWeekday, weekday_eq, weekday_beq_iff, WeekdayData, RawSchedule,
}
use hahomematic.Schedule.Paramset.{
  raw_weekday, raw_profile, raw_profiles, get_raw_schedule_paramset, add_weekday, read_schedule,
}
use hahomematic.Schedule.Service.{
  Thermostat, PutParamset, set_schedule_profile_weekday, filter_raw, get_raw_schedule, get_schedule,
  get_schedule_profile_weekday,
}
use hahomematic.Schedule.Names.{matches_profile-name_of}
use hahomematic.Schedule.Entries.{send_slot, store_slot, read_slot}
use hahomematic.Schedule.Stored.{Entry, weekday_of, IsStandard, sent_for, one_day}

module _ (p : ScheduleProfile) (w : ScheduleWeekday) where
  sent_all :
      (before es : List Entry)
      → IsStandard before es
      → raw_weekday p w (weekday_of es) (sent_for p w before) ≡ done (sent_for p w (before ++ es))
  unfolding raw_weekday
  sent_all before [] h = ap (λ l. done (sent_for p w l)) (sym (append-nil before))
  sent_all before (e ∷ es) (low, high, free, short, shown, later) =
      rw (send_slot p w before e low high free short shown) (
        sent_all (before ++ (e ∷ [])) es later
        ∙ ap (λ l. done (sent_for p w l)) (append_assoc before (e ∷ []) es))

  stored_all :
      (before es : List Entry)
      → IsStandard before es
      → add_weekday p w (weekday_of es) (one_day p w (weekday_of before))
        ≡ done (one_day p w (weekday_of (before ++ es)))
  unfolding add_weekday
  stored_all before [] h = ap (λ l. done (one_day p w (weekday_of l))) (sym (append-nil before))
  stored_all before (e ∷ es) (low, high, free, short, shown, later) =
      rw (store_slot p w before e low high free short shown) (
        stored_all (before ++ (e ∷ [])) es later
        ∙ ap (λ l. done (one_day p w (weekday_of l))) (append_assoc before (e ∷ []) es))

  read_all :
      (before es : List Entry)
      → IsStandard before es
      → read_schedule (some p) (some w) (sent_for p w es) (one_day p w (weekday_of before))
        ≡ done (one_day p w (weekday_of (before ++ es)))
  unfolding read_schedule
  read_all before [] h = ap (λ l. done (one_day p w (weekday_of l))) (sym (append-nil before))
  read_all before (e ∷ es) (low, high, free, short, shown, later) =
      read_slot p w before e low high free short shown (sent_for p w es)
      ∙ read_all (before ++ (e ∷ [])) es later
      ∙ ap (λ l. done (one_day p w (weekday_of l))) (append_assoc before (e ∷ []) es)

  all_match :
      (before es : List Entry)
      → IsStandard before es
      → filter_raw (sent_for p w es) ≡ sent_for p w es
  unfolding filter_raw
  all_match before [] h = refl
  all_match before (e ∷ es) (low, high, free, short, shown, later) =
      rw
        (
          matches_profile-name_of p endtime w e.no refl low high,
          matches_profile-name_of p temperature w e.no refl low high,
          all_match (before ++ (e ∷ [])) es later,
        )
        refl

  -- the paramset for a dict of one weekday
  sent_day :
      (d : WeekdayData) (raw : RawSchedule)
      → raw_weekday p w d [] ≡ done raw
      → get_raw_schedule_paramset (one_day p w d) ≡ done raw
  unfolding get_raw_schedule_paramset raw_profiles raw_profile raw_weekday
  sent_day [] raw h = h
  sent_day ((n, slot) ∷ rest) raw h = rw h

  found_day : (d : WeekdayData) → get_or [] (lookup w (get_or [] (lookup p (one_day p w d)))) ≡ d
  unfolding lookup
  found_day [] = refl
  found_day (x ∷ xs) = rw ((profile_beq_iff p p).1 refl, (weekday_beq_iff w w).1 refl) refl

  -- Setting a weekday whose slots are standard, without the validation, sends a paramset; if the
  -- backend then answers with this paramset, reading the weekday of a thermostat that supports
  -- schedules gives the slots that were set.
  pub weekday-read_back :
      (read : Text → Option Double) (es : List Entry) (c : Thermostat)
      → IsStandard [] es
      → c.supports_schedule ≡ true
      → (call : PutParamset) × (set_schedule_profile_weekday read p w (weekday_of es) false c
          ≡ done call)
        × (call.channel_address ≡ c.address)
        × (get_schedule_profile_weekday (some call.paramset) p w c ≡ (done (weekday_of es), c))
  unfolding set_schedule_profile_weekday get_schedule_profile_weekday get_schedule get_raw_schedule
  weekday-read_back read es c standard supported = (
    record { channel_address = c.address; paramset = sent_for p w es },
    rw
        (
          stored_all [] es standard,
          sent_day (weekday_of es) (sent_for p w es) (sent_all [] es standard),
        )
        refl,
    refl,
    rw (supported, all_match [] es standard, read_all [] es standard)
        (rw (found_day (weekday_of es)) refl),
  )
