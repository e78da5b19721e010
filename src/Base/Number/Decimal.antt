-- ===== src/Base/Number/Decimal.antt =====
-- The decimal digits that `show` writes are read back by `int_of`.
use mathlib.Core.List.{reverse, reverse-reverse}
use hahomematic.Base.{
  ℕ, zero, suc, ◌%◌, ◌/◌, ◌≤◌, ◌<◌, ◌≡◌, refl, true, false, none, some, [], ◌∷◌, arith, eqb, ltb,
  all, all-reverse, Bool-cases, inl, inr,
}
use hahomematic.Base.Text.{Text, has_char, is_digit, strip_left, strip}
use hahomematic.Base.Double.{pos}
use hahomematic.Base.Number.{digit_of, show_onto, show, signed_int, int_of, digits, digits-show}

digit_of-is_digit : (d : ℕ) → d < 10 → is_digit (digit_of d) ≡ true
unfolding digit_of is_digit
digit_of-is_digit d h = ground arith

show_onto-is_digit :
    (fuel n : ℕ) (rest : Text)
    → n ≤ fuel
    → all is_digit rest ≡ true
    → all is_digit (show_onto 10 fuel n rest) ≡ true
unfolding show_onto all
show_onto-is_digit zero n rest h d = rw (digit_of-is_digit n (omega arith), d)
show_onto-is_digit (suc fuel) n rest h d = elim (Bool-cases (ltb n 10)) [
  | inl small ↦ rw (small, show_onto) (rw (digit_of-is_digit n (ground arith), d))
  | inr large ↦
      rw (large, show_onto)
        (show_onto-is_digit fuel (n / 10) (digit_of (n % 10) ∷ rest) (omega arith)
          (rw (digit_of-is_digit (n % 10) (omega arith), d)))
]

pub show-is_digit : (n : ℕ) → all is_digit (show n) ≡ true
unfolding show all
show-is_digit n = show_onto-is_digit n n [] (omega arith) refl

-- A row of digits holds no character that is no digit.
pub has_char-digits :
    (c : ℕ) (s : Text) → is_digit c ≡ false → all is_digit s ≡ true → has_char c s ≡ false
unfolding has_char all is_digit
has_char-digits c [] h d = refl
has_char-digits c (x ∷ xs) h d = ground (arith, has_char-digits c xs)

strip_left-digits : (s : Text) → all is_digit s ≡ true → strip_left s ≡ s
unfolding strip_left all is_digit
strip_left-digits [] d = refl
strip_left-digits (x ∷ xs) d = ground arith

strip-digits : (s : Text) → all is_digit s ≡ true → strip s ≡ s
unfolding strip
strip-digits s d =
    rw (strip_left-digits s d, strip_left-digits (reverse s) (all-reverse is_digit s d))
      (reverse-reverse s)

not_minus : (c : ℕ) → is_digit c ≡ true → eqb c b'-' ≡ false
unfolding is_digit
not_minus c h = ground arith

not_plus : (c : ℕ) → is_digit c ≡ true → eqb c b'+' ≡ false
unfolding is_digit
not_plus c h = ground arith

digits-nil : digits 10 false 0 [] ≡ none
unfolding digits
digits-nil = refl

signed_int-digits :
    (s : Text) (n : ℕ)
    → all is_digit s ≡ true
    → digits 10 false 0 s ≡ some n
    → signed_int s ≡ some (pos n)
unfolding signed_int all is_digit
signed_int-digits [] n d h = cc (digits-nil, h)
signed_int-digits (c ∷ cs) n d h =
    let first : is_digit c ≡ true = ground arith in
    rw (not_minus c first, not_plus c first, h, signed_int) (rw (not_minus c first))

pub int_of-show : (n : ℕ) → int_of (show n) ≡ some (pos n)
unfolding int_of
int_of-show n =
    rw (strip-digits (show n) (show-is_digit n))
      (signed_int-digits (show n) n (show-is_digit n) (digits-show n))
