-- ===== src/Base/Value.antt =====
-- The values that the backend and the program exchange (`Any` of the source), with Python's `==`.
use mathlib.Core.Bool.{Bool, true, false}
use mathlib.Core.Option.{Option, none, some}
use hahomematic.Base.Tests.{nat_eq, list_eq, ◌==◌}
use hahomematic.Base.Text.{Text}
use hahomematic.Base.Double.{ℤ, pos, Double, exact, double_eq}

pub data Value : Type 0 where
  null : Value
  boolean : Bool → Value
  int : ℤ → Value
  real : Double → Value
  text : Text → Value

-- `True` is 1 and `False` is 0.
abbrev pub numeric : Value → Option Double
numeric (boolean true) = some (exact (pos 1))
numeric (boolean false) = some (exact (pos 0))
numeric (int n) = some (exact n)
numeric (real x) = some x
numeric _ = none

abbrev numeric_eq : Option Double → Option Double → Bool
numeric_eq (some x) (some y) = double_eq x y
numeric_eq _ _ = false

unfoldable pub value_eq : Value → Value → Bool
value_eq null null = true
value_eq (text s) (text t) = s == t
value_eq v w = numeric_eq (numeric v) (numeric w)

-- `v is None`
abbrev pub is_null : Value → Bool
is_null null = true
is_null _ = false
