-- ===== src/Converter/RoundTrip.antt =====
-- Round trips of hahomematic/converter.py with the texts that hahomematic/model/custom/cover.py
-- builds for blinds.
use hahomematic.Base.{
  ℕ, ◌+◌, ◌*◌, ◌≤◌, ◌<◌, ◌≡◌, refl, ap, ◌∙◌, Bool, true, false, ◌&&◌, some, none, [], ◌∷◌, ◌++◌,
  arith, leb, list_eq, nat_eq,
}
use hahomematic.Base.Table.{holds_below, holds_below_lem}
use hahomematic.Base.Text.{Text, codes, split, has_char, split_none, split_cons, is_digit}
use hahomematic.Base.Dict.{Dict, insert}
use hahomematic.Base.Double.{pos, div_int}
use hahomematic.Base.Value.{Value, real, text}
use hahomematic.Base.Number.{show, hex_of}
use hahomematic.Base.Number.Decimal.{show-is_digit, has_char-digits, int_of-show}
use hahomematic.Const.{combined_parameter, level, level_2}
use hahomematic.Converter.{
  add_part, add_parts, convert_combined, convert_combined_parameter_to_paramset,
  convert_cpv_to_hmip_level, combined_parameter_names, convert_hm_level_to_cpv,
}

show-has_char : (c n : ℕ) → is_digit c ≡ false → has_char c (show n) ≡ false
show-has_char c n h = has_char-digits c (show n) h (show-is_digit n)

-- the text `L2=…,L=…` that the blind of HomematicIP sends, at whole percents
abbrev pub ip_text : ℕ → ℕ → Text
ip_text tilt position = codes "L2=" ++ (show tilt ++ b',' ∷ (codes "L=" ++ show position))

split-comma :
    (tilt position : ℕ)
    → split b',' (ip_text tilt position)
      ≡ (codes "L2=" ++ show tilt) ∷ (codes "L=" ++ show position) ∷ []
unfolding is_digit has_char
split-comma tilt position =
    split_cons b',' (codes "L2=" ++ show tilt) (codes "L=" ++ show position)
      (show-has_char b',' tilt refl)
    ∙ ap (λ parts. (codes "L2=" ++ show tilt) ∷ parts)
        (split_none b',' (codes "L=" ++ show position) (show-has_char b',' position refl))

convert-percent : (n : ℕ) → convert_cpv_to_hmip_level (show n) ≡ some (real (div_int (pos n) 100))
unfolding convert_cpv_to_hmip_level
convert-percent n = rw (int_of-show n)

-- A part of the text is split at its only `=`.
split-equals :
    (name : Text) (n : ℕ)
    → has_char b'=' name ≡ false
    → split b'=' (name ++ b'=' ∷ show n) ≡ name ∷ show n ∷ []
unfolding is_digit
split-equals name n h =
    split_cons b'=' name (show n) h
    ∙ ap (λ parts. name ∷ parts) (split_none b'=' (show n) (show-has_char b'=' n refl))

add_part-level_2 :
    (n : ℕ) (d : Dict Text Value)
    → add_part (codes "L2" ∷ show n ∷ []) d ≡ some (insert level_2 (real (div_int (pos n) 100)) d)
unfolding add_part combined_parameter_names
add_part-level_2 n d = rw (convert-percent n)

add_part-level :
    (n : ℕ) (d : Dict Text Value)
    → add_part (codes "L" ∷ show n ∷ []) d ≡ some (insert level (real (div_int (pos n) 100)) d)
unfolding add_part combined_parameter_names
add_part-level n d = rw (convert-percent n)

convert_combined-ip_text :
    (tilt position : ℕ)
    → convert_combined (ip_text tilt position)
      ≡ some (
          (level_2, real (div_int (pos tilt) 100))
          ∷ (level, real (div_int (pos position) 100))
          ∷ [])
unfolding convert_combined add_parts insert has_char
convert_combined-ip_text tilt position = rw (
  split-comma tilt position,
  split-equals (codes "L2") tilt refl,
  add_part-level_2 tilt [],
  split-equals (codes "L") position refl,
  add_part-level position,
)

-- The paramset that the combined parameter `L2=…,L=…` of a blind stands for: the level of the slats
-- and the level of the blind, each a hundredth of the percents in the text.
pub convert-ip_text :
    (tilt position : ℕ)
    → convert_combined_parameter_to_paramset combined_parameter (text (ip_text tilt position))
      ≡ (level_2, real (div_int (pos tilt) 100)) ∷ (level, real (div_int (pos position) 100)) ∷ []
unfolding convert_combined_parameter_to_paramset
convert-ip_text tilt position = rw (convert_combined-ip_text tilt position)

-- What the texts of levels below 2.56 stand for, in half percents: the number in the text
-- `0x…` that is written for the level of a whole percent is twice the percents, or one less.
pub cpv_steps : Text → ℕ
cpv_steps (b0 ∷ bx ∷ hex) = elim (hex_of hex) [ none ↦ 0 | some n ↦ n ]
cpv_steps _ = 0

is_near : ℕ → Bool
is_near p =
    let n = cpv_steps (convert_hm_level_to_cpv (div_int (pos p) 100)) in
    leb n (2 * p) && leb (2 * p) (n + 1)

near_table : holds_below 102 is_near ≡ true
unfolding holds_below is_near cpv_steps hex_of convert_hm_level_to_cpv div_int
near_table = refl

-- For a level of whole percents up to 101, the number in the text `0x…` is twice the percents, or
-- one less where the product of floats falls just below it.
pub convert_hm_level_to_cpv-near :
    (p : ℕ)
    → p < 102
    → let n = cpv_steps (convert_hm_level_to_cpv (div_int (pos p) 100)) in
      (n ≤ 2 * p) × (2 * p ≤ n + 1)
convert_hm_level_to_cpv-near p h =
    let table : is_near p ≡ true = holds_below_lem 102 is_near p near_table h in
    unfold is_near in ground arith
