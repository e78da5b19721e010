-- ===== src/Base/DoubleOrder.antt =====
-- `<=` of floats is transitive.
use Prim.Native.Nat.{ℕ, ◌*◌, ◌^◌, ◌≤◌, ◌<◌}
use mathlib.Core.Path.{◌≡◌}
use mathlib.Core.Bool.{true}
use native.Mathlib.Omega.{arith}
use native.Mathlib.Nat.{one-le-pow, mul-le-mul_right, le_of_mul-le-mul_right}
use hahomematic.Base.Double.{Double, double_eq, double_le}

-- Fractions `a / p`, `x / q` and `b / r`, cleared of their denominators.
scaled_le : (a x b p q r : ℕ) → 0 < q → a * q ≤ x * p → x * r ≤ b * q → a * r ≤ b * p
scaled_le a x b p q r positive h k =
    le_of_mul-le-mul_right {m = a * r} {n = b * p} {k = q}
      (omega (
        arith,
        mul-le-mul_right {m = a * q} {n = x * p} r h,
        mul-le-mul_right {m = x * r} {n = b * q} p k,
      ))
      positive

two_pos : (n : ℕ) → 0 < 2 ^ n
two_pos n = omega (arith, one-le-pow n 2 (omega arith))

no_factor : (a q : ℕ) → 0 < q → a * q ≤ 0 → a ≡ 0
no_factor a q h k =
    omega (arith, le_of_mul-le-mul_right {m = a} {n = 0} {k = q} (omega (arith, k)) h)

times_none : (a q : ℕ) → a ≡ 0 → a * q ≡ 0
times_none a q h = rw h (omega arith)

pub double_le_trans :
    (x y z : Double) → double_le x y ≡ true → double_le y z ≡ true → double_le x z ≡ true
unfolding double_le
double_le_trans x y z h k =
    let p = 2 ^ x.shift in
    let q = 2 ^ y.shift in
    let r = 2 ^ z.shift in
    ground (
      arith,
      h,
      k,
      scaled_le x.mantissa y.mantissa z.mantissa p q r (two_pos y.shift),
      scaled_le z.mantissa y.mantissa x.mantissa r q p (two_pos y.shift),
      no_factor x.mantissa q (two_pos y.shift),
      no_factor z.mantissa q (two_pos y.shift),
      times_none x.mantissa r,
      times_none y.mantissa p,
      times_none y.mantissa r,
      times_none z.mantissa p,
    )

-- Equal floats are in order, and only a float with a mantissa of 0 is equal to such a float.
pub double_eq-double_le : (x y : Double) → double_eq x y ≡ true → double_le x y ≡ true
unfolding double_eq double_le
double_eq-double_le x y h = ground (
  arith,
  h,
  no_factor y.mantissa (2 ^ x.shift) (two_pos x.shift),
  times_none x.mantissa (2 ^ y.shift),
)

pub double_eq-zero :
    (x y z : Double) → double_eq x y ≡ true → z.mantissa ≡ 0 → double_eq y z ≡ true → x.mantissa ≡ 0
unfolding double_eq
double_eq-zero x y z h none_left k = ground (
  arith,
  h,
  k,
  none_left,
  no_factor y.mantissa (2 ^ z.shift) (two_pos z.shift),
  times_none z.mantissa (2 ^ y.shift),
  times_none y.mantissa (2 ^ x.shift),
  no_factor x.mantissa (2 ^ y.shift) (two_pos y.shift),
)

pub double_eq_sym : (x y : Double) → double_eq x y ≡ true → double_eq y x ≡ true
unfolding double_eq
double_eq_sym x y h = ground (
  arith,
  h,
  times_none x.mantissa (2 ^ y.shift),
  no_factor y.mantissa (2 ^ x.shift) (two_pos x.shift),
)
