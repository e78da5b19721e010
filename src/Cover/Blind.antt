-- ===== src/Cover/Blind.antt =====
-- `CustomDpBlind` and `CustomDpIpBlind` of hahomematic/model/custom/cover.py. The targets are the
-- levels of the last service call that the device has not confirmed.
pub mod Slats
use hahomematic.Base.{
  Bool, true, false, not, ◌||◌, Option, none, some, List, [], ◌∷◌, ◌++◌, if◌then◌else◌,
}
use hahomematic.Base.Text.{Text, codes}
use hahomematic.Base.Double.{ℤ, pos, Double, int_eq}
use hahomematic.Base.Number.{show_int}
use hahomematic.Converter.{convert_hm_level_to_cpv}
use hahomematic.Cover.{
  stop_cover, Cover, Command, send_level, send_level_2, send_stop, send_combined, or_level,
  closed_level, open_level, get_channel_level, to_position, map_level, differs, to_open, to_close,
  to_position_of, is_state_change, set_level, report,
}

pub data BlindClass : Type 0 where
  blind ip_blind : BlindClass

-- `drive` is what a blind has in common with a cover.
pub record Blind : Type 0 where
  pub kind : BlindClass
  pub drive : Cover
  pub level_2 : Option Double
  pub channel_level_2 : Option Double
  pub target_level : Option Double
  pub target_tilt_level : Option Double
  pub is_hmtype : Bool

-- `_channel_tilt_level`
unfoldable pub get_channel_tilt_level : Blind → Double
get_channel_tilt_level b = elim b.channel_level_2 [
  | none ↦ or_level (closed_level b.drive.class) b.level_2
  | some x ↦ if b.drive.is_primary then x else or_level (closed_level b.drive.class) b.level_2
]

unfoldable pub current_tilt_position : Blind → ℤ
current_tilt_position b = to_position (get_channel_tilt_level b)

-- The tests of `is_state_change`, first those of the slats; an argument that is missing is `false`
-- or `none`.
unfoldable pub is_blind_change : Option ℤ → Option ℤ → Blind → Bool
unfolding differs is_state_change int_eq
is_blind_change position tilt_position b =
    differs tilt_position (current_tilt_position b)
    || is_state_change (to_position_of position) b.drive

unfoldable pub is_open_change : Blind → Bool
unfolding is_state_change int_eq
is_open_change b =
    not (int_eq (current_tilt_position b) (pos 100)) || is_state_change to_open b.drive

unfoldable pub is_close_change : Blind → Bool
unfolding is_state_change int_eq
is_close_change b =
    not (int_eq (current_tilt_position b) (pos 0)) || is_state_change to_close b.drive

unfoldable pub is_tilt_change : ℤ → Blind → Bool
unfolding int_eq
is_tilt_change wanted b = not (int_eq (current_tilt_position b) wanted) || b.drive.state_uncertain

-- `_get_combined_value`, which is only called with both levels
unfoldable pub get_combined_value : BlindClass → Double → Double → Text
unfolding convert_hm_level_to_cpv show_int
get_combined_value blind level tilt_level =
    convert_hm_level_to_cpv level ++ b',' ∷ convert_hm_level_to_cpv tilt_level
get_combined_value ip_blind level tilt_level =
    codes "L2="
    ++ (show_int (to_position tilt_level) ++ b',' ∷ (codes "L=" ++ show_int (to_position level)))

-- `_send_level`. The combined value is never empty.
unfoldable pub send_levels : Double → Double → Blind → List Command
unfolding set_level
send_levels level tilt_level b =
    if b.is_hmtype
    then send_combined (get_combined_value b.kind level tilt_level) ∷ []
    else send_level_2 tilt_level ∷ set_level b.drive.class (some level)

-- What is asked for, or the target of a movement, or where the device stands.
unfoldable pub choose_level : Option Double → Option Double → Double → Double
choose_level (some x) target now = x
choose_level none (some x) now = x
choose_level none none now = now

-- Whether a level is not asked for and a movement towards a target is on.
unfoldable pub is_moving : Option Double → Option Double → Bool
is_moving none (some x) = true
is_moving _ _ = false

-- `_set_level`
unfoldable pub set_levels : Option Double → Option Double → Blind → List Command
set_levels level tilt_level b =
    let sent =
      send_levels (choose_level level b.target_level (get_channel_level b.drive))
        (choose_level tilt_level b.target_tilt_level (get_channel_tilt_level b)) b in
    if is_moving level b.target_level || is_moving tilt_level b.target_tilt_level
    then send_stop ∷ sent
    else sent

unfoldable pub set_blind_position : Option ℤ → Option ℤ → Blind → List Command
set_blind_position position tilt_position b =
    if is_blind_change position tilt_position b
    then set_levels (map_level position) (map_level tilt_position) b
    else []

unfoldable pub open_blind : Blind → List Command
open_blind b = if is_open_change b then set_levels (some open_level) (some open_level) b else []

unfoldable pub close_blind : Blind → List Command
close_blind b =
    let closed = closed_level b.drive.class in
    if is_close_change b then set_levels (some closed) (some closed) b else []

unfoldable pub open_tilt : Blind → List Command
open_tilt b = if is_tilt_change (pos 100) b then set_levels none (some open_level) b else []

unfoldable pub close_tilt : Blind → List Command
close_tilt b =
    if is_tilt_change (pos 0) b then set_levels none (some (closed_level b.drive.class)) b else []

-- `_stop`, which `stop` and `stop_tilt` call
unfoldable pub stop_blind : Blind → List Command
unfolding stop_cover
stop_blind b = stop_cover b.drive

abbrev report_tilt : List Command → Blind → Blind
report_tilt [] b = b
report_tilt (send_level_2 x ∷ rest) b =
    report_tilt rest (record b { level_2 = some x; channel_level_2 = some x })
report_tilt (_ ∷ rest) b = report_tilt rest b

-- The device reports the levels that it was sent one by one.
unfoldable pub report_levels : List Command → Blind → Blind
unfolding report
report_levels commands b = report_tilt commands (record b { drive = report commands b.drive })
