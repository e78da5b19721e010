-- ===== src/Light/Color.antt =====
-- Colours and times of the lights of hahomematic/model/custom/light.py: the fixed colours, the colour
-- of a dimmer with colours, and the unit of a time. A method gives the values that it collects for
-- them, after the test for a change.
pub mod Nearest
pub mod Times
use hahomematic.Base.{
  ℕ, ◌+◌, Eq, Bool, true, false, not, ◌&&◌, ◌||◌, ◌==◌, list_eq, nat_eq, Option, none, some, List,
  [], ◌∷◌, ◌++◌, if◌then◌else◌, ltb, leb, eqb, contains, keep,
}
use hahomematic.Base.Text.{Text, codes}
use hahomematic.Base.Double.{
  ℤ, pos, negsuc, Double, div_by, mul_by, trunc, of_int, exact, double_eq, double_le,
}

-- `_FixedColor`
pub data FixedColor : Type 0 where
  black blue do_not_care green old_value purple red turquoise white yellow : FixedColor

-- A hue and a saturation.
abbrev pub HsColor : Type 0
HsColor = Double × Double

abbrev whole : ℕ → Double
whole n = of_int (pos n)

-- `_FIXED_COLOR_SWITCHER.get`
unfoldable pub fixed_color : FixedColor → Option HsColor
unfolding of_int
fixed_color white = some (whole 0, whole 0)
fixed_color red = some (whole 0, whole 100)
fixed_color yellow = some (whole 60, whole 100)
fixed_color green = some (whole 120, whole 100)
fixed_color turquoise = some (whole 180, whole 100)
fixed_color blue = some (whole 240, whole 100)
fixed_color purple = some (whole 300, whole 100)
fixed_color _ = none

-- `lo < n <= hi`
abbrev is_between : ℕ → ℕ → ℤ → Bool
is_between lo hi (pos n) = ltb lo n && leb n hi
is_between lo hi (negsuc n) = false

abbrev is_below : ℕ → ℤ → Bool
is_below hi (pos n) = ltb n hi
is_below hi (negsuc n) = true

unfoldable pub color_of_hue : ℤ → FixedColor
color_of_hue hue =
    if is_between 30 90 hue
    then yellow
    else if is_between 90 150 hue
    then green
    else if is_between 150 210 hue
    then turquoise
    else if is_between 210 270 hue
    then blue
    else if is_between 270 330 hue
    then purple
    else red

-- `_convert_color`
unfoldable pub convert_color : HsColor → FixedColor
unfolding color_of_hue trunc
convert_color (hue, saturation) =
    if is_below 5 (trunc saturation) then white else color_of_hue (trunc hue)

-- What a light of fixed colours shows.
pub record FixedLight : Type 0 where
  pub color : Option FixedColor
  pub channel_color : Option FixedColor
  pub color_behaviour : Option Text
  pub behaviours : List Text

abbrev or_white : Option HsColor → HsColor
unfolding of_int
or_white none = (whole 0, whole 0)
or_white (some c) = c

-- `hs_color` and `channel_hs_color`
unfoldable pub hs_color : FixedLight → HsColor
unfolding fixed_color or_white of_int
hs_color l = elim l.color [ none ↦ or_white none | some c ↦ or_white (fixed_color c) ]

unfoldable pub channel_hs_color : FixedLight → Option HsColor
unfolding fixed_color or_white of_int
channel_hs_color l = elim l.channel_color [ none ↦ none | some c ↦ some (or_white (fixed_color c)) ]

-- `_effect_list`
unfoldable pub effect_list : FixedLight → List Text
unfolding contains
effect_list l =
    keep (λ t. not (contains t (codes "DO_NOT_CARE" ∷ codes "OFF" ∷ codes "OLD_VALUE" ∷ [])))
      l.behaviours

unfoldable pub effect : FixedLight → Option Text
unfolding effect_list contains
effect l = elim l.color_behaviour [
  | none ↦ none
  | some t ↦ if contains t (effect_list l) then some t else none
]

pub data ColorCommand : Type 0 where
  send_color : FixedColor → ColorCommand
  send_behaviour : Text → ColorCommand
  send_color_value send_time_unit : ℕ → ColorCommand
  send_time : Double → ColorCommand

abbrev is_no_color : Option FixedColor → Bool
is_no_color (some black) = true
is_no_color (some do_not_care) = true
is_no_color (some old_value) = true
is_no_color _ = false

unfoldable pub color_commands : Option HsColor → FixedLight → List ColorCommand
unfolding convert_color
color_commands (some c) l = send_color (convert_color c) ∷ []
color_commands none l = if is_no_color l.color then send_color white ∷ [] else []

-- A behaviour that is not on the list, or missing, becomes ON.
abbrev shown_behaviour : Option Text → FixedLight → List ColorCommand
shown_behaviour none l = send_behaviour (codes "ON") ∷ []
shown_behaviour (some t) l =
    if contains t (effect_list l) then send_behaviour t ∷ [] else send_behaviour (codes "ON") ∷ []

unfoldable pub behaviour_commands : Option Text → FixedLight → List ColorCommand
unfolding effect_list contains
behaviour_commands none l = shown_behaviour l.color_behaviour l
behaviour_commands (some t) l =
    if contains t (effect_list l)
    then send_behaviour t ∷ []
    else shown_behaviour l.color_behaviour l

-- `turn_on` of a light of fixed colours, before that of the dimmer
unfoldable pub turn_on_color : Option HsColor → Option Text → FixedLight → List ColorCommand
unfolding color_commands behaviour_commands
turn_on_color c t l = color_commands c l ++ behaviour_commands t l

-- `time > 16343`
abbrev is_long : Double → Bool
unfolding double_le
is_long x = not (double_le x (exact (pos 16343)))

-- `_recalc_unit_timer`: the units are 0 for seconds, 1 for minutes and 2 for hours.
unfoldable pub recalc_unit_timer : Double → Double × Option ℕ
unfolding double_eq double_le div_by is_long
recalc_unit_timer x =
    if double_eq x (exact (pos 111600))
    then (x, none)
    else if not (is_long x)
    then (x, some 0)
    else if not (is_long (div_by x 60))
    then (div_by x 60, some 1)
    else (div_by (div_by x 60) 60, some 2)

abbrev pub unit_command : Option ℕ → List ColorCommand
unit_command none = []
unit_command (some u) = send_time_unit u ∷ []

-- `if on_time_unit:`, where 0 counts as missing
abbrev pub unit_command_truthy : Option ℕ → List ColorCommand
unit_command_truthy none = []
unit_command_truthy (some u) = if eqb u 0 then [] else send_time_unit u ∷ []

-- `_set_on_time_value` of an RGBW light
unfoldable pub set_time_rgbw : Double → List ColorCommand
set_time_rgbw x =
    let (time, unit) = recalc_unit_timer x in unit_command unit ++ (send_time time ∷ [])

-- `_set_on_time_value` of a DALI light and of a light of fixed colours
unfoldable pub set_time_fixed : Double → List ColorCommand
set_time_fixed x =
    let (time, unit) = recalc_unit_timer x in unit_command_truthy unit ++ (send_time time ∷ [])
