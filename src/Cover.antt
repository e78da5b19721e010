-- ===== src/Cover.antt =====
-- `CustomDpCover` and `CustomDpWindowDrive` of hahomematic/model/custom/cover.py. The values of the
-- data points that a cover reads are the fields of its state; a method returns the values that it
-- sends. What the data points do with a sent value (its validation, the collector) is not here.
pub mod Positions
pub mod Blind
pub mod Garage
use hahomematic.Base.{
  ℕ, Bool, true, false, not, ◌&&◌, ◌||◌, Option, none, some, List, [], ◌∷◌, ◌==◌, list_eq, nat_eq,
  if◌then◌else◌, ltb,
}
use hahomematic.Base.Text.{Text, codes}
use hahomematic.Base.Double.{
  ℤ, pos, negsuc, Double, div_int, mul_by, trunc, double_eq, double_le, int_eq,
}

pub data CoverClass : Type 0 where
  cover window_drive : CoverClass

-- `is_primary` is the test of the usage.
pub record Cover : Type 0 where
  pub class : CoverClass
  pub level : Option Double
  pub channel_level : Option Double
  pub is_primary : Bool
  pub direction : Option Text
  pub state_uncertain : Bool

-- What is sent to the level, to the level of the slats, to the stop action and to the combined
-- parameter.
pub data Command : Type 0 where
  send_level send_level_2 : Double → Command
  send_stop : Command
  send_combined : Text → Command

-- `_CLOSED_LEVEL`, `_OPEN_LEVEL` and `_WD_CLOSED_LEVEL`
unfoldable pub fully_closed : Double
unfolding div_int
fully_closed = div_int (pos 0) 1

unfoldable pub open_level : Double
unfolding div_int
open_level = div_int (pos 1) 1

unfoldable pub wd_closed : Double
unfolding div_int
wd_closed = div_int (negsuc 4) 1000

unfoldable pub one_percent : Double
unfolding div_int
one_percent = div_int (pos 1) 100

-- `_closed_level`
unfoldable pub closed_level : CoverClass → Double
unfolding fully_closed wd_closed
closed_level cover = fully_closed
closed_level window_drive = wd_closed

abbrev pub or_level : Double → Option Double → Double
or_level d none = d
or_level d (some x) = x

-- `_channel_level`
unfoldable pub get_channel_level : Cover → Double
get_channel_level c = elim c.channel_level [
  | none ↦ or_level (closed_level c.class) c.level
  | some x ↦ if c.is_primary then x else or_level (closed_level c.class) c.level
]

unfoldable pub to_position : Double → ℤ
unfolding mul_by trunc
to_position x = trunc (mul_by x 100)

-- What the window drive reads as its level.
unfoldable pub read_wd_level : Double → Double
unfolding double_eq fully_closed wd_closed one_percent
read_wd_level x =
    if double_eq x wd_closed
    then fully_closed
    else if double_eq x fully_closed
    then one_percent
    else x

unfoldable pub position_of : CoverClass → Cover → ℤ
position_of cover c = to_position (get_channel_level c)
position_of window_drive c = to_position (read_wd_level (or_level wd_closed c.level))

unfoldable pub current_position : Cover → ℤ
unfolding position_of
current_position c = position_of c.class c

unfoldable pub is_closed : Cover → Bool
is_closed c = double_eq (get_channel_level c) (closed_level c.class)

-- `is_opening` and `is_closing`, with the activities `UP` and `DOWN`.
unfoldable pub has_direction : Text → Cover → Option Bool
has_direction activity c = elim c.direction [ none ↦ none | some d ↦ some (d == activity) ]

-- The arguments of `is_state_change`; those of the slats and of the vent are in the children.
pub data StateChangeArg : Type 0 where
  to_open to_close : StateChangeArg
  to_position_of : Option ℤ → StateChangeArg

unfoldable pub differs : Option ℤ → ℤ → Bool
unfolding int_eq
differs none current = false
differs (some position) current = not (int_eq position current)

unfoldable pub is_state_change : StateChangeArg → Cover → Bool
is_state_change to_open c = not (double_eq (get_channel_level c) open_level) || c.state_uncertain
is_state_change to_close c = not (is_closed c) || c.state_uncertain
is_state_change (to_position_of p) c = differs p (current_position c) || c.state_uncertain

-- `min(100.0, max(0.0, position)) / 100.0`
unfoldable pub level_of : ℤ → Double
unfolding div_int
level_of (pos n) = div_int (pos (if ltb 100 n then 100 else n)) 100
level_of (negsuc n) = div_int (pos 0) 100

-- The level that the window drive sends.
unfoldable pub wd_level : Double → Double
unfolding double_eq double_le fully_closed wd_closed one_percent
wd_level x =
    if double_eq x fully_closed
    then wd_closed
    else if not (double_le x fully_closed) && double_le x one_percent
    then fully_closed
    else x

-- `_set_level`
unfoldable pub set_level : CoverClass → Option Double → List Command
set_level class none = []
set_level cover (some x) = send_level x ∷ []
set_level window_drive (some x) = send_level (wd_level x) ∷ []

abbrev pub map_level : Option ℤ → Option Double
map_level none = none
map_level (some p) = some (level_of p)

unfoldable pub set_position : Option ℤ → Cover → List Command
unfolding is_state_change set_level
set_position p c =
    if is_state_change (to_position_of p) c then set_level c.class (map_level p) else []

unfoldable pub open_cover : Cover → List Command
unfolding is_state_change set_level
open_cover c = if is_state_change to_open c then set_level c.class (some open_level) else []

unfoldable pub close_cover : Cover → List Command
unfolding is_state_change set_level
close_cover c =
    if is_state_change to_close c then set_level c.class (some (closed_level c.class)) else []

unfoldable pub stop_cover : Cover → List Command
stop_cover c = send_stop ∷ []

-- The device reports the level that it was sent, on both channels.
unfoldable pub report : List Command → Cover → Cover
report [] c = c
report (send_level x ∷ rest) c = report rest (record c { level = some x; channel_level = some x })
report (_ ∷ rest) c = report rest c
