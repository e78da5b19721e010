-- ===== src/Converter.antt =====
-- hahomematic/converter.py: the combined parameters of blinds. An exception inside a converter is
-- `none`; `convert_combined_parameter_to_paramset` catches it.
pub mod RoundTrip
use hahomematic.Base.{
  Option, none, some, Bool, true, false, List, [], ◌∷◌, ◌==◌, list_eq, nat_eq, if◌then◌else◌,
}
use hahomematic.Base.Dict.{Dict, insert}
use hahomematic.Base.Text.{Text, codes, split, has_char}
use hahomematic.Base.Double.{Double, pos, div_int, div_by, mul_by, trunc}
use hahomematic.Base.Value.{Value, real, text}
use hahomematic.Base.Number.{int_of, hex_of, format_hex}
use hahomematic.Const.{combined_parameter, level, level_2, level_combined, level_slats}

infixl 5 ◌>>=◌
abbrev ◌>>=◌ : {A B : Type 0} → Option A → (A → Option B) → Option B
none >>= f = none
some a >>= f = f a

-- `_convert_cpv_to_hm_level`
unfoldable pub convert_cpv_to_hm_level : Text → Option Value
unfolding hex_of div_int div_by
convert_cpv_to_hm_level (b0 ∷ bx ∷ hex) =
    if (b0 ∷ bx ∷ []) == codes "0x"
    then (do n ← hex_of hex; some (real (div_by (div_int (pos n) 100) 2)))
    else some (text (b0 ∷ bx ∷ hex))
convert_cpv_to_hm_level cpv = some (text cpv)

-- `_convert_cpv_to_hmip_level`
unfoldable pub convert_cpv_to_hmip_level : Text → Option Value
convert_cpv_to_hmip_level cpv = do n ← int_of cpv; some (real (div_int n 100))

unfoldable pub convert_hm_level_to_cpv : Double → Text
unfolding mul_by trunc format_hex
convert_hm_level_to_cpv hm_level = format_hex (trunc (mul_by (mul_by hm_level 100) 2))

-- `_COMBINED_PARAMETER_NAMES`; both names have the same converter
unfoldable pub combined_parameter_names : Text → Option Text
combined_parameter_names name =
    if name == codes "L" then some level else if name == codes "L2" then some level_2 else none

-- One round of the loop; the unpacking wants exactly two parts.
unfoldable pub add_part : List Text → Dict Text Value → Option (Dict Text Value)
add_part (cp_param ∷ value ∷ []) paramset = elim (combined_parameter_names cp_param) [
  | none ↦ some paramset
  | some parameter ↦ do v ← convert_cpv_to_hmip_level value; some (insert parameter v paramset)
]
add_part _ paramset = none

unfoldable pub add_parts : List Text → Dict Text Value → Option (Dict Text Value)
add_parts [] paramset = some paramset
add_parts (part ∷ parts) paramset = do
  paramset' ← add_part (split b'=' part) paramset
  add_parts parts paramset'

-- `_convert_combined_parameter_to_paramset`
unfoldable pub convert_combined : Text → Option (Dict Text Value)
convert_combined cpv = add_parts (split b',' cpv) []

unfoldable pub convert_levels : List Text → Option (Dict Text Value)
convert_levels (l1_value ∷ l2_value ∷ []) = do
  l1 ← convert_cpv_to_hm_level l1_value
  l2 ← convert_cpv_to_hm_level l2_value
  some ((level, l1) ∷ (level_slats, l2) ∷ [])
convert_levels _ = none

-- `_convert_level_combined_to_paramset`
unfoldable pub convert_level_combined : Text → Option (Dict Text Value)
convert_level_combined lcv = if has_char b',' lcv then convert_levels (split b',' lcv) else some []

abbrev or_empty : Option (Dict Text Value) → Dict Text Value
or_empty none = []
or_empty (some paramset) = paramset

-- `CONVERTABLE_PARAMETERS`
unfoldable pub is_convertable : Text → Bool
is_convertable parameter =
    if parameter == combined_parameter then true else parameter == level_combined

-- The text methods of `cpv` fail on what is no text.
unfoldable pub convert_combined_parameter_to_paramset : Text → Value → Dict Text Value
convert_combined_parameter_to_paramset parameter (text cpv) =
    if parameter == combined_parameter
    then or_empty (convert_combined cpv)
    else if parameter == level_combined
    then or_empty (convert_level_combined cpv)
    else []
convert_combined_parameter_to_paramset parameter _ = []
