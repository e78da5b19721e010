-- ===== src/Base/Text.antt =====
-- Texts as lists of code points, and the methods of `str` that the program calls. `lower` and
-- `strip` treat the ASCII characters; other characters are kept.
use Prim.Native.Nat.{ℕ, ◌+◌, ◌*◌, ◌-◌}
use Prim.Native.Char.{code}
use Prim.Native.String.{String}
use mathlib.Core.Path.{◌≡◌, refl}
use mathlib.Core.Bool.{Bool, true, false, ◌&&◌, ◌||◌}
use mathlib.Core.Option.{Option, none, some}
use mathlib.Core.List.{List, [], ◌∷◌, ◌++◌, map, reverse}
use native.Mathlib.Omega.{arith}
use hahomematic.Base.Tests.{leb, eqb, eqb_iff, if◌then◌else◌}

abbrev pub Text : Type 0
Text = List ℕ

-- A literal.
abbrev pub codes : String → Text
codes String.[] = []
codes (String.◌∷◌ c s) = code c ∷ codes s

-- `c in s` for a character
unfoldable pub has_char : ℕ → Text → Bool
has_char c [] = false
has_char c (x ∷ xs) = eqb x c || has_char c xs

-- `s.startswith(prefix)`
unfoldable pub starts_with : Text → Text → Bool
starts_with s [] = true
starts_with [] (p ∷ ps) = false
starts_with (x ∷ xs) (p ∷ ps) = eqb x p && starts_with xs ps

unfoldable pub ends_with : Text → Text → Bool
unfolding starts_with
ends_with s suffix = starts_with (reverse s) (reverse suffix)

-- `s.split(c)`: never empty. The head is what has been read of the current part.
unfoldable pub cons_head : ℕ → List Text → List Text
cons_head x [] = (x ∷ []) ∷ []
cons_head x (p ∷ ps) = (x ∷ p) ∷ ps

unfoldable pub split : ℕ → Text → List Text
unfolding cons_head
split c [] = [] ∷ []
split c (x ∷ xs) = let rest = split c xs in if eqb x c then [] ∷ rest else cons_head x rest

unfoldable pub to_lower : ℕ → ℕ
to_lower c = if leb b'A' c && leb c b'Z' then c + 32 else c

-- `s.lower()`
unfoldable pub lower : Text → Text
unfolding to_lower
lower = map to_lower

unfoldable pub is_space : ℕ → Bool
is_space c = eqb c 32 || (leb 9 c && leb c 13)

unfoldable pub strip_left : Text → Text
unfolding is_space
strip_left [] = []
strip_left (x ∷ xs) = let rest = strip_left xs in if is_space x then rest else x ∷ xs

-- `s.strip()`
unfoldable pub strip : Text → Text
unfolding strip_left
strip s = reverse (strip_left (reverse (strip_left s)))

unfoldable pub is_digit : ℕ → Bool
is_digit c = leb b'0' c && leb c b'9'

unfoldable pub digits_value : ℕ → Text → Option ℕ
unfolding is_digit
digits_value n [] = some n
digits_value n (c ∷ cs) =
    let rest = digits_value (n * 10 + (c - b'0')) cs in if is_digit c then rest else none

-- The number that a non-empty row of ASCII digits stands for.
unfoldable pub number : Text → Option ℕ
unfolding digits_value
number [] = none
number (c ∷ cs) = digits_value 0 (c ∷ cs)

-- A text without the separator is its only part.
pub split_none : (c : ℕ) (s : Text) → has_char c s ≡ false → split c s ≡ s ∷ []
unfolding has_char split
split_none c [] h = refl
split_none c (x ∷ xs) h = ground (arith, split_none c xs)

-- What stands before the first separator is the first part.
pub split_cons : (c : ℕ) (s t : Text) → has_char c s ≡ false → split c (s ++ c ∷ t) ≡ s ∷ split c t
unfolding has_char split
split_cons c [] t h = ground (arith, eqb_iff c c)
split_cons c (x ∷ xs) t h = ground (arith, split_cons c xs t)

pub has_char_mid : (c : ℕ) (s t : Text) → has_char c (s ++ c ∷ t) ≡ true
unfolding has_char
has_char_mid c [] t = ground arith
has_char_mid c (x ∷ xs) t = ground (arith, has_char_mid c xs t)

pub starts_with-append : (s t : Text) → starts_with (s ++ t) s ≡ true
unfolding starts_with
starts_with-append [] t = refl
starts_with-append (x ∷ xs) t = ground (arith, starts_with-append xs t)
