-- ===== src/Generic/Prepared.antt =====
-- What the data points of hahomematic/model/generic send.
use hahomematic.Base.{
  ℕ, zero, suc, ◌<◌, ◌*◌, ◌/◌, ◌^◌, ◌≡◌, ◌⊎◌, inl, inr, refl, ap, sym, ◌∙◌, Bool, true, false, not,
  ◌&&◌, list_eq, nat_eq, Option, none, some, List, if◌then◌else◌, length, arith, Bool-cases,
  Option-cases,
}
use Prim.{absurd}
use native.Mathlib.Nat.{div-lt_iff_lt-mul}
use hahomematic.Base.Text.{Text}
use hahomematic.Base.Double.{ℤ, pos, double_le, exact, Double, trunc}
use hahomematic.Base.Value.{Value, null, boolean, int, real, text, numeric}
use hahomematic.Generic.Shown.{index_of-found}
use hahomematic.Generic.{
  NumberClass, NumberDp, type_converter, is_between, is_number, special_of, prepare_number,
  prepare_select, index_of, index_in,
}

and_right : (a b : Bool) → (a && b) ≡ true → b ≡ true
and_right a b h = ground (arith, h)

module _ (read : NumberClass → Text → Option Value) (d : NumberDp) (value : Value) where
  prepared_inside :
      (is_number value && is_between d (type_converter read d.class value)) ≡ true
      → prepare_number read d true value ≡ type_converter read d.class value
  unfolding prepare_number
  prepared_inside inside = rw (prepare_number, inside) refl

  prepared_special :
      (is_number value && is_between d (type_converter read d.class value)) ≡ false
      → prepare_number read d true value
        ≡ elim (special_of d value) [ none ↦ none | some v ↦ type_converter read d.class v ]
  unfolding prepare_number
  prepared_special outside = rw (prepare_number, outside) refl

  special_sent :
      (o : Option Value) (sent : Value)
      → elim o as (λ x. Option Value) [ none ↦ none | some v ↦ type_converter read d.class v ]
        ≡ some sent
      → (v : Value) × ((o ≡ some v) × (type_converter read d.class v ≡ some sent))
  special_sent none sent h = absurd (ground (arith, h))
  special_sent (some v) sent h = (v, (refl, h))

  -- What a number sends with validation is between its bounds, or it is the conversion of a special
  -- value of it, whose name was given.
  pub prepare_number-bounds :
      (sent : Value)
      → prepare_number read d true value ≡ some sent
      → (is_between d (some sent) ≡ true)
        ⊎ ((v : Value) × ((special_of d value ≡ some v)
              × (type_converter read d.class v ≡ some sent)))
  prepare_number-bounds sent h =
      let converted = type_converter read d.class value in
      elim (Bool-cases (is_number value && is_between d converted)) [
        | inl inside ↦ inl (
            ap (is_between d) (sym h ∙ prepared_inside inside)
            ∙ and_right (is_number value) (is_between d converted) inside)
        | inr outside ↦
            inr (special_sent (special_of d value) sent (sym (prepared_special outside) ∙ h))
      ]

text_index :
    (t : Text) (values : List Text) (sent : Value)
    → prepare_select values (text t) ≡ some sent
    → (i : ℕ) × ((sent ≡ int (pos i)) × (i < length values))
unfolding prepare_select
text_index t values sent h = elim (Option-cases (index_of t values)) [
  | inl missing ↦ absurd (ground (arith, h, missing))
  | inr (i, found) ↦ (i, (ground (arith, h, found), (index_of-found t values i found).1))
]

power_positive : (s : ℕ) → 0 < 2 ^ s
power_positive zero = omega arith
power_positive (suc s) = ground (arith, power_positive s)

quotient_below : (m s n : ℕ) → m < n * 2 ^ s → m / 2 ^ s < n
quotient_below m s n h = (div-lt_iff_lt-mul (power_positive s)).1 h

trunc_below :
    (n : ℕ) (x : Double)
    → double_le (exact (pos 0)) x ≡ true
    → double_le (exact (pos n)) x ≡ false
    → (i : ℕ) × ((trunc x ≡ pos i) × (i < n))
unfolding double_le trunc
trunc_below n x low high = elim (Bool-cases x.negative) [
  | inl minus ↦
      let nothing : x.mantissa ≡ 0 = ground (arith, low, minus) in
      let quotient : 0 / 2 ^ x.shift ≡ 0 =
        ground (arith, quotient_below 0 x.shift 1 (ground (arith, power_positive x.shift))) in
      (0, (rw (minus, nothing, quotient) refl, ground (arith, high, minus)))
  | inr plus ↦ (
    x.mantissa / 2 ^ x.shift,
    (rw plus refl, quotient_below x.mantissa x.shift n (ground (arith, high, plus))),
  )
]

both : (a b : Bool) → (a && not b) ≡ true → (a ≡ true) × (b ≡ false)
both a b h = (ground (arith, h), ground (arith, h))

-- the index that follows two tests, for any number
index_after :
    (a b : Bool) (t : ℤ) (sent : Value)
    → elim (if a && not b then some t else none) as (λ x. Option Value) [
      | none ↦ none
      | some n ↦ some (int n)
    ]
      ≡ some sent
    → ((a && not b) ≡ true) × (sent ≡ int t)
index_after a b t sent h = (ground (arith, h), ground (arith, h))

number_index :
    (values : List Text) (v sent : Value)
    → elim (index_in values v) as (λ x. Option Value) [ none ↦ none | some n ↦ some (int n) ]
      ≡ some sent
    → (i : ℕ) × ((sent ≡ int (pos i)) × (i < length values))
number_index values v sent h = of_number (numeric v) h
  where
    of_number :
        (o : Option Double)
        → elim (elim o as (λ x. Option ℤ) [
          | none ↦ none
          | some x ↦
              if double_le (exact (pos 0)) x && not (double_le (exact (pos (length values))) x)
              then some (trunc x)
              else none
        ])
            as (λ x. Option Value) [ none ↦ none | some n ↦ some (int n) ]
          ≡ some sent
        → (i : ℕ) × ((sent ≡ int (pos i)) × (i < length values))
    of_number none e = absurd (ground (arith, e))
    of_number (some x) e =
        let above = double_le (exact (pos 0)) x in
        let beyond = double_le (exact (pos (length values))) x in
        let (inside, index) = index_after above beyond (trunc x) sent e in
        let (low, high) = both above beyond inside in
        let (i, (found, below)) = trunc_below (length values) x low high in
        (i, (index ∙ ap int found, below))

-- A select that accepts a value, by its text or by its number, sends an index of one of its options.
pub prepare_select-index :
    (values : List Text) (value sent : Value)
    → prepare_select values value ≡ some sent
    → (i : ℕ) × ((sent ≡ int (pos i)) × (i < length values))
unfolding prepare_select
prepare_select-index values null sent h = number_index values null sent h
prepare_select-index values (boolean b) sent h = number_index values (boolean b) sent h
prepare_select-index values (int n) sent h = number_index values (int n) sent h
prepare_select-index values (real x) sent h = number_index values (real x) sent h
prepare_select-index values (text t) sent h = text_index t values sent h
