-- ===== src/Schedule/Entries.antt =====
-- The entries of hahomematic/model/custom/climate.py for one slot: sent, stored and read.
use hahomematic.Base.{
  ℕ, ◌<◌, ◌≤◌, ◌≡◌, refl, sym, ap, ◌∙◌, false, ◌||◌, ◌==◌, list_eq, nat_eq, list_beq_iff, Eq, some,
  List, [], ◌∷◌, ◌++◌, eqb, eqb_iff, arith, Bool-cases, inl, inr,
}
use mathlib.Core.List.{append_assoc}
use hahomematic.Base.Dict.{Dict, insert, has}
use hahomematic.Base.Text.{Text}
use hahomematic.Base.Double.{pos}
use hahomematic.Base.Value.{Value, int, text}
use hahomematic.Schedule.{
  done, SlotType, endtime, temperature, slot_type_eq, ScheduleProfile, profile_eq, ScheduleWeekday,
  weekday_eq, time_str, convert_time_str_to_minutes, convert_minutes_to_time_str, RawSchedule,
}
use hahomematic.Schedule.Paramset.{
  name_of, stored_value, raw_value, raw_slot, add_slot, read_schedule,
}
use hahomematic.Schedule.Names.{
  convert_time-time_str, matches_profile-name_of, read_parts-name_of, name_of-ne,
}
use hahomematic.Schedule.Stored.{
  Entry, slot_for, weekday_of, sent_for, insert_new, one_day, added_end, add_end, add_degrees,
}

has-append {ℓ κ} :
    {K : Type ℓ} {V : Type κ} ⦃q : Eq K⦄ (k : K) (c d : Dict K V)
    → has k (c ++ d) ≡ (has k c || has k d)
unfolding has
has-append k [] d = refl
has-append k ((j, v) ∷ c) d = ground (arith, has-append k c d)

weekday_of-append : (xs ys : List Entry) → weekday_of (xs ++ ys) ≡ weekday_of xs ++ weekday_of ys
weekday_of-append [] ys = refl
weekday_of-append (x ∷ xs) ys = ap (λ l. (x.no, slot_for x) ∷ l) (weekday_of-append xs ys)

module _ (p : ScheduleProfile) (w : ScheduleWeekday) where
  sent_for-append :
      (xs ys : List Entry) → sent_for p w (xs ++ ys) ≡ sent_for p w xs ++ sent_for p w ys
  sent_for-append [] ys = refl
  sent_for-append (x ∷ xs) ys =
      ap
        (λ l.
          (name_of p endtime w x.no, int (pos x.minutes))
          ∷ (name_of p temperature w x.no, x.degrees)
          ∷ l)
        (sent_for-append xs ys)

  other_name :
      (t u : SlotType) (m n : ℕ) → eqb m n ≡ false → (name_of p t w m == name_of p u w n) ≡ false
  other_name t u m n other = elim (Bool-cases (name_of p t w m == name_of p u w n)) [
    | inr fine ↦ fine
    | inl same ↦
        let (_, number) = name_of-ne p t u w m n ((list_beq_iff _ _).0 same) in
        cc (other, (eqb_iff m n).1 number)
  ]

  other_type : (n : ℕ) → (name_of p endtime w n == name_of p temperature w n) ≡ false
  other_type n = elim (Bool-cases (name_of p endtime w n == name_of p temperature w n)) [
    | inr fine ↦ fine
    | inl same ↦
        let (types, _) = name_of-ne p endtime temperature w n n ((list_beq_iff _ _).0 same) in
        cc types
  ]

  new_name :
      (t : SlotType) (n : ℕ) (es : List Entry)
      → has n (weekday_of es) ≡ false
      → has (name_of p t w n) (sent_for p w es) ≡ false
  unfolding has
  new_name t n [] h = refl
  new_name t n (e ∷ es) h =
      let other : eqb e.no n ≡ false = ground (arith, h) in
      rw (other_name endtime t e.no n other, other_name temperature t e.no n other)
        (new_name t n es (ground (arith, h)))

  module _ (before : List Entry) (e : Entry) (low : 1 ≤ e.no) (high : e.no ≤ 13)
      (free : has e.no (weekday_of before) ≡ false) (short : e.minutes < 1500)
      (shown : time_str e.minutes ≡ done e.time) where
    reads_time : convert_time_str_to_minutes e.time ≡ done e.minutes
    reads_time =
        let (s, is_s, reads) = convert_time-time_str e.minutes short in
        let same : done e.time ≡ done s = sym shown ∙ is_s in
        let same_text : e.time ≡ s = cc same in rw same_text reads

    pub send_slot :
        raw_slot p w e.no (slot_for e) (sent_for p w before)
        ≡ done (sent_for p w (before ++ (e ∷ [])))
    unfolding raw_slot raw_value has
    send_slot =
        let sent = sent_for p w before in
        let end : Text × Value = (name_of p endtime w e.no, int (pos e.minutes)) in
        let one : insert (name_of p endtime w e.no) (int (pos e.minutes)) sent
            ≡ sent ++ (end ∷ []) =
          insert_new _ _ sent (new_name endtime e.no before free) in
        let two : insert (name_of p temperature w e.no) e.degrees (sent ++ (end ∷ []))
            ≡ (sent ++ (end ∷ [])) ++ ((name_of p temperature w e.no, e.degrees) ∷ []) =
          insert_new _ _ (sent ++ (end ∷ [])) (
            has-append (name_of p temperature w e.no) sent (end ∷ [])
            ∙ rw (new_name temperature e.no before free, other_type e.no) refl) in
        rw
          (
            matches_profile-name_of p endtime w e.no refl low high,
            matches_profile-name_of p temperature w e.no refl low high,
            reads_time,
          )
          (ap done (
            ap (insert (name_of p temperature w e.no) e.degrees) one
            ∙ two
            ∙ append_assoc sent (end ∷ []) _
            ∙ sym (sent_for-append before (e ∷ []))))

    next_day :
        one_day p w (weekday_of before ++ ((e.no, slot_for e) ∷ []))
        ≡ one_day p w (weekday_of (before ++ (e ∷ [])))
    next_day = ap (one_day p w) (sym (weekday_of-append before (e ∷ [])))

    pub store_slot :
        add_slot p w e.no (slot_for e) (one_day p w (weekday_of before))
        ≡ done (one_day p w (weekday_of (before ++ (e ∷ []))))
    unfolding add_slot stored_value
    store_slot =
        rw
          (
            add_end p w e (weekday_of before) free (text e.time) refl,
            add_degrees p w e (weekday_of before) free,
          )
          (ap done next_day)

    pub read_slot :
        (rest : RawSchedule)
        → read_schedule
            (some p)
            (some w)
            ((name_of p endtime w e.no, int (pos e.minutes))
              ∷ (name_of p temperature w e.no, e.degrees)
              ∷ rest)
            (one_day p w (weekday_of before))
          ≡ read_schedule (some p) (some w) rest (one_day p w (weekday_of (before ++ (e ∷ []))))
    unfolding read_schedule stored_value convert_minutes_to_time_str
    read_slot rest =
        rw
          (
            read_parts-name_of p endtime w e.no (int (pos e.minutes))
                (one_day p w (weekday_of before)),
            add_end p w e (weekday_of before) free (int (pos e.minutes)) (rw shown refl),
          )
          (rw
            (
              read_parts-name_of p temperature w e.no e.degrees
                  (one_day p w (added_end p w e (weekday_of before) free)),
              add_degrees p w e (weekday_of before) free,
            )
            (ap (read_schedule (some p) (some w) rest) next_day))
