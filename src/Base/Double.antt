-- ===== src/Base/Double.antt =====
-- Python's int and float. An int is ℤ over the native numbers. A finite float is a signed number
-- over a power of two; an operation rounds to the nearest float, ties to even. What is infinite or
-- not a number does not occur, and overflow is not modelled.
use Prim.Native.Nat.{ℕ, zero, suc, ◌+◌, ◌*◌, ◌/◌, ◌%◌, ◌^◌}
use mathlib.Core.Bool.{Bool, true, false, ◌&&◌, ◌||◌}
use mathlib.Core.Path.{◌≡◌}
use native.Mathlib.Omega.{arith}
use mathlib.Core.Logic.{◌↔◌}
use hahomematic.Base.Tests.{Eq, ltb, leb, eqb, if◌then◌else◌}

-- `negsuc n` is -(n + 1).
pub data ℤ : Type 0 where
  pos : ℕ → ℤ
  negsuc : ℕ → ℤ

abbrev pub is_negative : ℤ → Bool
is_negative (pos n) = false
is_negative (negsuc n) = true

abbrev pub abs : ℤ → ℕ
abs (pos n) = n
abs (negsuc n) = suc n

abbrev pub to_ℤ : Bool → ℕ → ℤ
to_ℤ false n = pos n
to_ℤ true zero = pos 0
to_ℤ true (suc n) = negsuc n

unfoldable pub int_eq : ℤ → ℤ → Bool
int_eq (pos m) (pos n) = eqb m n
int_eq (negsuc m) (negsuc n) = eqb m n
int_eq _ _ = false

pub int_eq_sound : (a b : ℤ) → int_eq a b ≡ true → a ≡ b
unfolding int_eq
int_eq_sound a b h = ground (arith, h)

pub int_eq_iff : (a b : ℤ) → (int_eq a b ≡ true) ↔ (a ≡ b)
unfolding int_eq
int_eq_iff a b = ground arith

instance abbrev pub ℤ_eq : Eq ℤ
ℤ_eq = record { test = int_eq; test_iff = int_eq_iff }

-- The value is `mantissa / 2 ^ shift`, below 0 if `negative`.
pub record Double : Type 0 where
  pub negative : Bool
  pub mantissa : ℕ
  pub shift : ℕ

-- Doubles the numerator until the quotient has 53 binary digits; 1074 is the smallest exponent.
unfoldable pub scale_up : ℕ → ℕ → ℕ → ℕ → ℕ × ℕ
scale_up zero e num den = (e, num)
scale_up (suc fuel) e num den = elim (leb (2 ^ 52 * den) num) [
  | true ↦ (e, num)
  | false ↦ scale_up fuel (e + 1) (2 * num) den
]

-- Doubles the denominator while the quotient has more than 53 binary digits.
unfoldable pub scale_down : ℕ → ℕ → ℕ → ℕ → ℕ × ℕ
scale_down zero k num den = (k, den)
scale_down (suc fuel) k num den = elim (leb (2 ^ 53 * den) num) [
  | true ↦ scale_down fuel (k + 1) num (2 * den)
  | false ↦ (k, den)
]

unfoldable pub round_half_even : ℕ → ℕ → ℕ
round_half_even num den =
    let q = num / den in
    let r = num % den in if ltb den (2 * r) then q + 1 else if ltb (2 * r) den then q else q + q % 2

-- The float nearest to `num / den`, for a positive `den`.
unfoldable pub round_div : Bool → ℕ → ℕ → Double
unfolding scale_up scale_down round_half_even
round_div neg num den =
    let (e, num') = scale_up 1074 0 num den in
    let (k, den') = scale_down 971 0 num' den in
    record { negative = neg; mantissa = round_half_even num' den' * 2 ^ k; shift = e }

-- `a / b` of two ints, `b` positive
unfoldable pub div_int : ℤ → ℕ → Double
unfolding round_div
div_int a b = round_div (is_negative a) (abs a) b

-- `x / b` and `x * b` for a positive whole number `b` that a float holds exactly
unfoldable pub div_by : Double → ℕ → Double
unfolding round_div
div_by x b = round_div x.negative x.mantissa (2 ^ x.shift * b)

unfoldable pub mul_by : Double → ℕ → Double
unfolding round_div
mul_by x b = round_div x.negative (x.mantissa * b) (2 ^ x.shift)

-- `int(x)`, which rounds towards 0
unfoldable pub trunc : Double → ℤ
trunc x = to_ℤ x.negative (x.mantissa / 2 ^ x.shift)

unfoldable pub of_int : ℤ → Double
unfolding round_div
of_int a = round_div (is_negative a) (abs a) 1

-- the exact value, as a comparison of an int with a float takes it
abbrev pub exact : ℤ → Double
exact a = record { negative = is_negative a; mantissa = abs a; shift = 0 }

-- `x == y`: 0.0 and -0.0 are equal
unfoldable pub double_eq : Double → Double → Bool
double_eq x y =
    eqb (x.mantissa * 2 ^ y.shift) (y.mantissa * 2 ^ x.shift)
    && (eqb x.mantissa 0 || (if x.negative then y.negative else if y.negative then false else true))

-- `x <= y`
unfoldable pub double_le : Double → Double → Bool
double_le x y =
    if x.negative
    then (if y.negative then leb (y.mantissa * 2 ^ x.shift) (x.mantissa * 2 ^ y.shift) else true)
    else if y.negative
    then eqb x.mantissa 0 && eqb y.mantissa 0
    else leb (x.mantissa * 2 ^ y.shift) (y.mantissa * 2 ^ x.shift)
