-- ===== src/Schedule/Simple.antt =====
-- What the conversion of a simple list of hahomematic/model/custom/climate.py has built when it
-- succeeds: the slots of each entry, one after the other.
use hahomematic.Base.{
  ℕ, ◌+◌, ◌*◌, ◌≤◌, ◌<◌, ◌≡◌, ◌⊎◌, refl, sym, ap, ◌∙◌, Bool, true, false, Option, some, List, [],
  ◌∷◌, ◌++◌, if◌then◌else◌, ltb, leb, nat_eq, length, arith, Bool-cases, inl, inr,
}
use mathlib.Core.Path.{subst}
use mathlib.Core.List.{append_assoc, append-nil}
use hahomematic.Base.Dict.{lookup, insert}
use hahomematic.Base.Text.{Text}
use hahomematic.Base.Double.{Double}
use hahomematic.Base.Value.{Value, real}
use hahomematic.Schedule.{
  Error, Attempt, done, fails, ◌>>=◌, check, SlotType, endtime, starttime, temperature,
  slot_type_eq, Slot, WeekdayData,
}
use hahomematic.Schedule.Weekday.{
  minutes_of, float_of, is_valid_temperature, present, slot_of, Times, check_simple, with_gap,
  convert_slots,
}
use hahomematic.Schedule.Slots.{numbered, insert_next, length-append}

pub Attempt-cases {ℓ} :
    {A : Type ℓ} (m : Attempt A) → ((a : A) × (m ≡ done a)) ⊎ ((e : Error) × (m ≡ fails e))
Attempt-cases (done a) = inl (a, refl)
Attempt-cases (fails e) = inr (e, refl)

pub >>=-done {ℓ κ} :
    {A : Type ℓ} {B : Type κ} (m : Attempt A) (f : A → Attempt B) {b : B}
    → (m >>= f) ≡ done b
    → (a : A) × (m ≡ done a) × (f a ≡ done b)
>>=-done (done a) f h = (a, refl, h)
>>=-done (fails e) f h = cc

pub done_eq {ℓ} : {A : Type ℓ} (a b : A) → done a ≡ done b → a ≡ b
done_eq a b h = cc

pub check-done : (b : Bool) → check b ≡ done tt → b ≡ true
check-done true h = refl
check-done false h = cc

-- the slots that one entry becomes: the gap before it, if there is any, and the entry
abbrev pub slots_for : Double → Times → List Slot
slots_for base t =
    if ltb t.previous_minutes t.start_minutes
    then slot_of t.start (real base) ∷ slot_of t.end t.degrees ∷ []
    else slot_of t.end t.degrees ∷ []

module _ (read : Text → Option Double) (low high : Double) where
  -- what the tests of an entry guarantee
  pub record IsChecked (slot : Slot) (previous : Value) (t : Times) : Type 0 where
    pub at_start : lookup starttime slot ≡ some t.start
    pub at_end : lookup endtime slot ≡ some t.end
    pub at_degrees : lookup temperature slot ≡ some t.degrees
    pub reads_start : minutes_of t.start ≡ done t.start_minutes
    pub reads_end : minutes_of t.end ≡ done t.end_minutes
    pub reads_previous : minutes_of previous ≡ done t.previous_minutes
    pub lasts : t.start_minutes < t.end_minutes
    pub follows : t.previous_minutes ≤ t.start_minutes
    pub number : Double
    pub reads_number : float_of read t.degrees ≡ done number
    pub valid : is_valid_temperature low high number ≡ true

present-done :
    (t : SlotType) (slot : Slot) (v : Value) → present t slot ≡ done v → lookup t slot ≡ some v
unfolding present
present-done t slot v h = ground (arith, h)

lt_of : (a b : ℕ) → check (ltb a b) ≡ done tt → a < b
lt_of a b h = ground (arith, check-done (ltb a b) h)

le_of : (a b : ℕ) → check (leb a b) ≡ done tt → a ≤ b
le_of a b h = ground (arith, check-done (leb a b) h)

check_simple-done :
    (read : Text → Option Double) (low high : Double) (slot : Slot) (previous : Value) (t : Times)
    → check_simple read low high slot previous ≡ done t
    → IsChecked read low high slot previous t
unfolding check_simple
check_simple-done read low high slot previous t h =
    let (start, h1, k1) = >>=-done (present starttime slot) _ h in
    let (end, h2, k2) = >>=-done (present endtime slot) _ k1 in
    let (degrees, h3, k3) = >>=-done (present temperature slot) _ k2 in
    let (s, h4, k4) = >>=-done (minutes_of start) _ k3 in
    let (e, h5, k5) = >>=-done (minutes_of end) _ k4 in
    let (_, h6, k6) = >>=-done (check (ltb s e)) _ k5 in
    let (p, h7, k7) = >>=-done (minutes_of previous) _ k6 in
    let (_, h8, k8) = >>=-done (check (leb p s)) _ k7 in
    let (x, h9, k9) = >>=-done (float_of read degrees) _ k8 in
    let (_, h10, k10) = >>=-done (check (is_valid_temperature low high x)) _ k9 in
    let found : Times = record {
      start = start;
      end = end;
      degrees = degrees;
      start_minutes = s;
      end_minutes = e;
      previous_minutes = p;
    } in
    let same : found ≡ t = done_eq found t k10 in
    let checked : IsChecked read low high slot previous found = record {
      at_start = present-done starttime slot start h1;
      at_end = present-done endtime slot end h2;
      at_degrees = present-done temperature slot degrees h3;
      reads_start = h4;
      reads_end = h5;
      reads_previous = h7;
      lasts = lt_of s e h6;
      follows = le_of p s h8;
      number = x;
      reads_number = h9;
      valid = check-done (is_valid_temperature low high x) h10;
    } in
    subst (IsChecked read low high slot previous) same checked

module _ (read : Text → Option Double) (low high base : Double) where
  -- the entries and the slots that they have become
  abbrev pub Becomes : Value → List Slot → List Slot → Type 0
  Becomes previous [] out = out ≡ []
  Becomes previous (slot ∷ rest) out =
      (t : Times) × (later : List Slot) × (out ≡ slots_for base t ++ later)
      × IsChecked read low high slot previous t
      × Becomes t.end rest later

  module _ (t : Times) (out : List Slot) where
    gap_first :
        ltb t.previous_minutes t.start_minutes ≡ true
        → with_gap base t (length out + 1) (numbered 1 out)
          ≡ (length out + 1 + 1, numbered 1 (out ++ (slot_of t.start (real base) ∷ [])))
    unfolding with_gap
    gap_first gap = rw (gap, insert_next (slot_of t.start (real base)) out) refl

    no_gap :
        ltb t.previous_minutes t.start_minutes ≡ false
        → with_gap base t (length out + 1) (numbered 1 out) ≡ (length out + 1, numbered 1 out)
    unfolding with_gap
    no_gap none_free = rw none_free refl

    slots_added :
        let (m, d) = with_gap base t (length out + 1) (numbered 1 out) in
        (m + 1 ≡ length (out ++ slots_for base t) + 1)
        × (insert m (slot_of t.end t.degrees) d ≡ numbered 1 (out ++ slots_for base t))
    slots_added = elim (Bool-cases (ltb t.previous_minutes t.start_minutes)) [
      | inl gap ↦
          let first : List Slot = out ++ (slot_of t.start (real base) ∷ []) in
          let last : Slot = slot_of t.end t.degrees in
          let longer : length out + 1 + 1 ≡ length first + 1 =
            omega (arith, length-append {0} out (slot_of t.start (real base) ∷ [])) in
          let both : first ++ (last ∷ []) ≡ out ++ slots_for base t =
            append_assoc out _ _ ∙ rw gap refl in
          rw (gap_first gap) (
            omega (arith, longer, length-append {0} first (last ∷ []), ap (length {0}) both),
            ap (λ k. insert k last (numbered 1 first)) longer
                ∙ insert_next last first
                ∙ ap (numbered 1) both,
          )
      | inr none_free ↦
          let last : Slot = slot_of t.end t.degrees in
          rw (no_gap none_free, none_free)
            (omega (arith, length-append {0} out (last ∷ [])), insert_next last out)
    ]

  converted :
      (slots : List Slot) (previous : Value) (out : List Slot) (n : ℕ) (start d : WeekdayData)
      → n ≡ length out + 1
      → start ≡ numbered 1 out
      → convert_slots read low high base slots previous n start ≡ done d
      → (later : List Slot) × (d ≡ numbered 1 (out ++ later)) × Becomes previous slots later
  unfolding convert_slots
  converted [] previous out n start d e f h =
      ([], sym (done_eq start d h) ∙ f ∙ ap (numbered 1) (sym (append-nil out)), refl)
  converted (slot ∷ rest) previous out n start d e f h =
      let (t, checked, go) = >>=-done (check_simple read low high slot previous) _ h in
      let next = out ++ slots_for base t in
      let last : Slot = slot_of t.end t.degrees in
      let same : with_gap base t n start ≡ with_gap base t (length out + 1) (numbered 1 out) =
        ap (λ k. with_gap base t k start) e ∙ ap (with_gap base t (length out + 1)) f in
      let (counted, added) = slots_added t out in
      let (m, d1) = with_gap base t n start in
      let (later, is_d, becomes) =
        converted rest t.end next (m + 1) (insert m last d1) d
          (ap (λ (g : ℕ × WeekdayData). g.0 + 1) same ∙ counted)
          (ap (λ (g : ℕ × WeekdayData). insert g.0 last g.1) same ∙ added) go in
      (
        slots_for base t ++ later,
        is_d ∙ ap (numbered 1) (append_assoc out _ _),
        (t, later, refl, check_simple-done read low high slot previous t checked, becomes),
      )

  -- What the loop builds from nothing are the slots with the numbers from 1 on.
  pub converted_slots :
      (slots : List Slot) (previous : Value) (d : WeekdayData)
      → convert_slots read low high base slots previous 1 [] ≡ done d
      → (out : List Slot) × (d ≡ numbered 1 out) × Becomes previous slots out
  converted_slots slots previous d h = converted slots previous [] 1 [] d (omega arith) refl h

  -- An entry becomes two slots at most.
  pub length-Becomes :
      (slots : List Slot) (previous : Value) (out : List Slot)
      → Becomes previous slots out
      → length out ≤ 2 * length slots
  length-Becomes [] previous out h = rw h (omega arith)
  length-Becomes (slot ∷ rest) previous out (t, later, is_out, checked, becomes) = ground (
    arith,
    length-append {0} (slots_for base t) later,
    ap (length {0}) is_out,
    length-Becomes rest t.end later becomes,
  )
