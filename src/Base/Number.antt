-- ===== src/Base/Number.antt =====
-- `int(s)` and `ast.literal_eval(s)` on whole numbers, `str(n)` and `format(n, "#04x")`.
pub mod Decimal
use Prim.Native.Nat.{ℕ, zero, suc, ◌+◌, ◌*◌, ◌-◌, ◌/◌, ◌%◌, ◌≤◌, ◌<◌}
use mathlib.Core.Path.{◌≡◌, refl, ap, ◌∙◌}
use mathlib.Core.Bool.{Bool, true, false, ◌&&◌, ◌||◌}
use mathlib.Core.Option.{Option, none, some}
use mathlib.Core.List.{List, [], ◌∷◌, ◌++◌}
use native.Mathlib.Omega.{arith}
use hahomematic.Base.Tests.{ltb, leb, eqb, if◌then◌else◌, Bool-cases}
use mathlib.Core.Logic.{inl, inr}
use hahomematic.Base.Text.{Text, codes, strip, to_lower}
use hahomematic.Base.Double.{ℤ, to_ℤ, is_negative, abs}

-- The value of a digit in a base up to 16.
unfoldable pub digit_value : ℕ → Option ℕ
digit_value c =
    if leb b'0' c && leb c b'9'
    then some (c - b'0')
    else if leb b'a' c && leb c b'f'
    then some (c - b'a' + 10)
    else if leb b'A' c && leb c b'F'
    then some (c - b'A' + 10)
    else none

abbrev in_base : ℕ → Option ℕ → Option ℕ
in_base base none = none
in_base base (some d) = if ltb d base then some d else none

-- Digits with single underscores between them. The flag says that an underscore may stand here.
unfoldable pub digits : ℕ → Bool → ℕ → Text → Option ℕ
unfolding digit_value
digits base sep n [] = if sep then some n else none
digits base sep n (c ∷ cs) =
    let after = digits base false n cs in
    if eqb c b'_' then (if sep then after else none) else elim (in_base base (digit_value c)) [
      | none ↦ none
      | some d ↦ digits base true (n * base + d) cs
    ]

unfoldable pub signed_int : Text → Option ℤ
signed_int [] = none
signed_int (c ∷ cs) =
    let row = digits 10 false 0 (if eqb c b'-' || eqb c b'+' then cs else c ∷ cs) in
    elim row [ none ↦ none | some n ↦ some (to_ℤ (eqb c b'-') n) ]

-- `int(s)`; `none` stands for the ValueError
unfoldable pub int_of : Text → Option ℤ
unfolding signed_int digits
int_of s = signed_int (strip s)

-- `ast.literal_eval(s)` of a text that begins with "0x", where it is one hexadecimal literal; this
-- is given what follows the "0x".
unfoldable pub hex_of : Text → Option ℕ
unfolding digits
hex_of [] = none
hex_of (c ∷ cs) = digits 16 true 0 (c ∷ cs)

unfoldable pub digit_of : ℕ → ℕ
digit_of d = if ltb d 10 then b'0' + d else b'a' + (d - 10)

-- The digits of `n`, in front of what follows; a fuel of `n` is enough.
unfoldable pub show_onto : ℕ → ℕ → ℕ → Text → Text
unfolding digit_of
show_onto base zero n rest = digit_of n ∷ rest
show_onto base (suc fuel) n rest = elim (ltb n base) [
  | true ↦ digit_of n ∷ rest
  | false ↦ show_onto base fuel (n / base) (digit_of (n % base) ∷ rest)
]

-- `str(n)` of a whole number that is not negative
unfoldable pub show : ℕ → Text
unfolding show_onto
show n = show_onto 10 n n []

unfoldable pub show_int : ℤ → Text
unfolding show
show_int n = if is_negative n then b'-' ∷ show (abs n) else show (abs n)

abbrev pad : Text → Text
pad (c ∷ []) = b'0' ∷ c ∷ []
pad s = s

-- `format(n, "#04x")`: at least four characters, the sign and the prefix included
unfoldable pub format_hex : ℤ → Text
unfolding show_onto
format_hex n =
    let hex : Text = show_onto 16 (abs n) (abs n) [] in
    if is_negative n then codes "-0x" ++ hex else codes "0x" ++ pad hex

digit_value-digit_of : (d : ℕ) → d < 16 → digit_value (digit_of d) ≡ some d
unfolding digit_value digit_of
digit_value-digit_of d h = ground arith

digit_of-ne-underscore : (d : ℕ) → d < 16 → eqb (digit_of d) b'_' ≡ false
unfolding digit_of
digit_of-ne-underscore d h = ground arith

digits-cons :
    (base n d : ℕ) (sep : Bool) (rest : Text)
    → d < base
    → base ≤ 16
    → digits base sep n (digit_of d ∷ rest) ≡ digits base true (n * base + d) rest
unfolding digits
digits-cons base n d sep rest h k =
    rw (digit_of-ne-underscore d (omega arith), digit_value-digit_of d (omega arith)) (ground arith)

-- Reading the digits that were written goes on from the number.
digits-show_onto :
    (base fuel n : ℕ) (sep : Bool) (rest : Text)
    → n ≤ fuel
    → 1 < base
    → base ≤ 16
    → digits base sep 0 (show_onto base fuel n rest) ≡ digits base true n rest
unfolding show_onto
digits-show_onto base zero n sep rest h k l =
    digits-cons base 0 n sep rest (omega arith) l ∙ ap (λ m. digits base true m rest) (omega arith)
digits-show_onto base (suc fuel) n sep rest h k l = elim (Bool-cases (ltb n base)) [
  | inl small ↦
      rw (small, show_onto)
        (digits-cons base 0 n sep rest (ground arith) l
          ∙ ap (λ m. digits base true m rest) (omega arith))
  | inr large ↦
      rw (large, show_onto)
        (digits-show_onto base fuel (n / base) sep (digit_of (n % base) ∷ rest) (grind arith) k l
          ∙ digits-cons base (n / base) (n % base) true rest (grind arith) l
          ∙ ap (λ m. digits base true m rest) (grind arith))
]

-- `int(str(n))` is `n`, in the form that a text without sign and spaces takes.
pub digits-show : (n : ℕ) → digits 10 false 0 (show n) ≡ some n
unfolding show digits
digits-show n = digits-show_onto 10 n n false [] (omega arith) (omega arith) (omega arith)
