-- ===== src/Generic/Shown.antt =====
-- What the data points of hahomematic/model/generic show.
use hahomematic.Base.{
  ℕ, ◌-◌, ◌<◌, ◌≡◌, refl, sym, ap, ◌∙◌, true, list_eq, nat_eq, list_beq_iff, some, List, [], ◌∷◌,
  ltb, length, arith, Option-cases, inl, inr,
}
use Prim.{absurd}
use hahomematic.Base.Text.{Text}
use hahomematic.Base.Double.{ℤ, pos, negsuc}
use hahomematic.Base.Value.{Value, int, text}
use hahomematic.Generic.{
  index_of, get_at, prepare_select, value_of, read_at, get_value_from_value_list, select_value,
  int_lt, minus, negate, fix_rssi_int, fix_rssi,
}

pub index_of-found :
    (t : Text) (values : List Text) (i : ℕ)
    → index_of t values ≡ some i
    → (get_at i values ≡ some t) × (i < length values)
unfolding index_of get_at
index_of-found t [] i h = ground (arith, h)
index_of-found t (u ∷ rest) i h = elim (Option-cases (index_of t rest)) [
  | inl missing ↦ ground (arith, h, missing, list_beq_iff u t)
  | inr (j, found) ↦ ground (arith, h, found, list_beq_iff u t, index_of-found t rest j found)
]

read_inside :
    (t : Text) (values : List Text) (i : ℕ)
    → ltb i (length values) ≡ true
    → get_at i values ≡ some t
    → read_at (pos i) values ≡ value_of t
unfolding read_at
read_inside t values i inside there = rw (read_at, inside, there) refl

shown_at :
    (default t : Text) (values : List Text) (i : ℕ)
    → index_of t values ≡ some i
    → select_value default (some values) (int (pos i)) ≡ value_of t
unfolding select_value get_value_from_value_list
shown_at default t values i found =
    let (there, below) = index_of-found t values i found in
    let inside : ltb i (length values) ≡ true = ground (arith, below) in
    rw (select_value, get_value_from_value_list, read_inside t values i inside there) refl

-- A text that a select sends is shown again when the device reports the index that was sent.
pub select_value-prepare_select :
    (default t : Text) (values : List Text) (sent : Value)
    → prepare_select values (text t) ≡ some sent
    → select_value default (some values) sent ≡ value_of t
unfolding prepare_select
select_value-prepare_select default t values sent h = elim (Option-cases (index_of t values)) [
  | inl missing ↦ absurd (ground (arith, h, missing))
  | inr (i, found) ↦
      let index : int (pos i) ≡ sent = ground (arith, h, found) in
      sym (ap (select_value default (some values)) index) ∙ shown_at default t values i found
]

-- Every value that the fix of the RSSI returns lies between -127 and 0, both excluded, and is left as
-- it is by another fix.
pub fix_rssi-range :
    (value : Value) (r : ℤ)
    → fix_rssi value ≡ some r
    → (int_lt (negsuc 126) r ≡ true) × (int_lt r (pos 0) ≡ true) × (fix_rssi (int r) ≡ some r)
unfolding fix_rssi fix_rssi_int int_lt minus negate
fix_rssi-range value r h = ground (arith, h)

-- A strength from -126 to -2 dBm is read from each of the four ways to report it: as it is, without
-- its sign, and with an offset of 256 with either sign.
pub fix_rssi-reports :
    (n : ℕ)
    → 1 < n
    → n < 127
    → (fix_rssi (int (negsuc (n - 1))) ≡ some (negsuc (n - 1)))
      × (fix_rssi (int (pos n)) ≡ some (negsuc (n - 1)))
      × (fix_rssi (int (pos (256 - n))) ≡ some (negsuc (n - 1)))
      × (fix_rssi (int (negsuc (255 - n))) ≡ some (negsuc (n - 1)))
unfolding fix_rssi fix_rssi_int int_lt minus negate
fix_rssi-reports n more less = ground (arith, more, less)
