-- ===== src/Generic.antt =====
-- What the classes of hahomematic/model/generic do with a value: how a number, a select and an action
-- prepare it for sending, and how a select and a sensor show it; with the two functions on value lists
-- of hahomematic/model/support.py. A value that is sent is a number or a text, as the signatures say.
-- How Python reads a number from a text is an argument. `none` is a ValueError.
pub mod Prepared
pub mod Shown
use hahomematic.Base.{
  ℕ, zero, suc, ◌+◌, ◌-◌, Bool, true, false, not, ◌&&◌, ◌||◌, ◌==◌, list_eq, nat_eq, Option, none,
  some, List, [], ◌∷◌, if◌then◌else◌, ltb, leb, length,
}
use hahomematic.Base.Dict.{Dict, lookup}
use hahomematic.Base.Text.{Text}
use hahomematic.Base.Double.{ℤ, pos, negsuc, Double, trunc, of_int, exact, double_le}
use hahomematic.Base.Value.{Value, null, boolean, int, real, text, numeric}

-- `DpFloat` and `DpInteger`
pub data NumberClass : Type 0 where
  float_number integer_number : NumberClass

pub record NumberDp : Type 0 where
  pub class : NumberClass
  pub min : Double
  pub max : Double
  pub special : Dict Text Value

abbrev pub as_int : Bool → ℤ
as_int true = pos 1
as_int false = pos 0

-- The type converter, `float` or `int`; the reading of a text is an argument.
unfoldable pub type_converter :
    (NumberClass → Text → Option Value) → NumberClass → Value → Option Value
type_converter read float_number (int n) = some (real (of_int n))
type_converter read float_number (boolean b) = some (real (of_int (as_int b)))
type_converter read float_number (real x) = some (real x)
type_converter read integer_number (int n) = some (int n)
type_converter read integer_number (boolean b) = some (int (as_int b))
type_converter read integer_number (real x) = some (int (trunc x))
type_converter read c (text t) = read c t
type_converter read c null = none

-- The comparison with the two bounds is exact.
abbrev pub is_between : NumberDp → Option Value → Bool
is_between d none = false
is_between d (some v) = elim (numeric v) [
  | none ↦ false
  | some x ↦ double_le d.min x && double_le x d.max
]

-- `isinstance(value, int | float)`
abbrev pub is_number : Value → Bool
is_number (int n) = true
is_number (boolean b) = true
is_number (real x) = true
is_number _ = false

abbrev pub special_of : NumberDp → Value → Option Value
special_of d (text t) = lookup t d.special
special_of d _ = none

-- `_prepare_number_for_sending`
unfoldable pub prepare_number :
    (NumberClass → Text → Option Value) → NumberDp → Bool → Value → Option Value
unfolding type_converter
prepare_number read d do_validate value =
    let converted = type_converter read d.class value in
    if not do_validate || (is_number value && is_between d converted)
    then converted
    else elim (special_of d value) [ none ↦ none | some v ↦ type_converter read d.class v ]

unfoldable pub index_of : Text → List Text → Option ℕ
index_of t [] = none
index_of t (u ∷ rest) =
    let later = index_of t rest in
    if u == t then some 0 else elim later [ none ↦ none | some i ↦ some (suc i) ]

unfoldable pub get_at : ℕ → List Text → Option Text
get_at n [] = none
get_at zero (t ∷ rest) = some t
get_at (suc n) (t ∷ rest) = get_at n rest

-- A number that is at least 0 and below the length, cut off to an int.
abbrev pub index_in : List Text → Value → Option ℤ
index_in value_list v = elim (numeric v) [
  | none ↦ none
  | some x ↦
      if double_le (exact (pos 0)) x && not (double_le (exact (pos (length value_list))) x)
      then some (trunc x)
      else none
]

-- `_prepare_value_for_sending` of a select; a missing list is empty.
unfoldable pub prepare_select : List Text → Value → Option Value
unfolding index_of
prepare_select value_list (text t) = elim (index_of t value_list) [
  | none ↦ none
  | some i ↦ some (int (pos i))
]
prepare_select value_list v = elim (index_in value_list v) [ none ↦ none | some n ↦ some (int n) ]

-- What reading a value list gives; a negative index counts from the end.
pub data Read : Type 0 where
  no_value index_error : Read
  value_of : Text → Read

abbrev pub read_of : Option Text → Read
read_of none = index_error
read_of (some t) = value_of t

unfoldable pub read_at : ℤ → List Text → Read
unfolding get_at
read_at (pos n) value_list =
    if ltb n (length value_list) then read_of (get_at n value_list) else no_value
read_at (negsuc n) value_list =
    if ltb n (length value_list)
    then read_of (get_at (length value_list - suc n) value_list)
    else index_error

-- `get_value_from_value_list`
unfoldable pub get_value_from_value_list : Value → Option (List Text) → Read
unfolding read_at
get_value_from_value_list (int n) (some value_list) = read_at n value_list
get_value_from_value_list (boolean b) (some value_list) = read_at (as_int b) value_list
get_value_from_value_list _ _ = no_value

-- `get_index_of_value_from_value_list`
unfoldable pub get_index_of_value_from_value_list : Value → Option (List Text) → Option ℕ
unfolding index_of
get_index_of_value_from_value_list (text t) (some value_list) = index_of t value_list
get_index_of_value_from_value_list _ _ = none

-- `_prepare_value_for_sending` of an action
unfoldable pub prepare_action : Option (List Text) → Value → Value
unfolding get_index_of_value_from_value_list
prepare_action value_list value = elim (get_index_of_value_from_value_list value value_list) [
  | none ↦ value
  | some i ↦ int (pos i)
]

-- `value` of a select, with the text of its default
unfoldable pub select_value : Text → Option (List Text) → Value → Read
unfolding get_value_from_value_list
select_value default value_list value = elim (get_value_from_value_list value value_list) [
  | no_value ↦ value_of default
  | index_error ↦ index_error
  | value_of t ↦ value_of t
]

-- `a < b`
unfoldable pub int_lt : ℤ → ℤ → Bool
int_lt (pos m) (pos n) = ltb m n
int_lt (pos m) (negsuc n) = false
int_lt (negsuc m) (pos n) = true
int_lt (negsuc m) (negsuc n) = ltb n m

unfoldable pub minus : ℤ → ℕ → ℤ
minus (pos m) n = if leb n m then pos (m - n) else negsuc (n - m - 1)
minus (negsuc m) n = negsuc (m + n)

-- `value * -1`
unfoldable pub negate : ℤ → ℤ
negate (pos zero) = pos zero
negate (pos (suc n)) = negsuc n
negate (negsuc n) = pos (suc n)

-- `_fix_rssi` on an int
unfoldable pub fix_rssi_int : ℤ → Option ℤ
unfolding int_lt minus negate
fix_rssi_int value =
    if int_lt (negsuc 126) value && int_lt value (pos 0)
    then some value
    else if int_lt (pos 1) value && int_lt value (pos 127)
    then some (negate value)
    else if int_lt (negsuc 255) value && int_lt value (negsuc 128)
    then some (minus (negate value) 256)
    else if int_lt (pos 129) value && int_lt value (pos 256)
    then some (minus value 256)
    else none

unfoldable pub fix_rssi : Value → Option ℤ
unfolding fix_rssi_int
fix_rssi (int n) = fix_rssi_int n
fix_rssi (boolean b) = fix_rssi_int (as_int b)
fix_rssi _ = none
