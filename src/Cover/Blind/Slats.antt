-- ===== src/Cover/Blind/Slats.antt =====
-- What the blinds of hahomematic/model/custom/cover.py send, what the combined parameter stands for
-- in hahomematic/converter.py, and what the blinds read afterwards.
use hahomematic.Base.{ℕ, ◌<◌, ◌≡◌, refl, true, false, none, some, [], ◌∷◌, arith}
use hahomematic.Base.Double.{pos, div_int, int_eq_sound}
use hahomematic.Base.Value.{real, text}
use hahomematic.Base.Number.{show_int, show}
use hahomematic.Const.{combined_parameter, level, level_2}
use hahomematic.Converter.{convert_combined_parameter_to_paramset}
use hahomematic.Converter.RoundTrip.{ip_text, convert-ip_text}
use hahomematic.Cover.{
  send_combined, level_of, to_position, current_position, cover, set_level, report, open_level,
  position_of, get_channel_level,
}
use hahomematic.Cover.Positions.{seen, to_position-level_of}
use hahomematic.Cover.Blind.{
  Blind, ip_blind, is_blind_change, set_blind_position, set_levels, send_levels, choose_level,
  is_moving, get_combined_value, open_tilt, report_levels, current_tilt_position,
  get_channel_tilt_level, is_tilt_change,
}

show_pos : (n : ℕ) → show_int (pos n) ≡ show n
unfolding show_int
show_pos n = refl

combined_text :
    (p t : ℕ)
    → p < 101
    → t < 101
    → get_combined_value ip_blind (level_of (pos p)) (level_of (pos t)) ≡ ip_text (seen t) (seen p)
unfolding get_combined_value
combined_text p t hp ht =
    rw (to_position-level_of p hp, to_position-level_of t ht, show_pos (seen t), show_pos (seen p))

-- A blind of HomematicIP whose combined parameter exists, set to a position and a position of its
-- slats from 0 to 100 that change its state, sends this parameter alone, and the converter reads
-- from it the two levels of these positions, or of one percent less where `seen` says so.
pub set_blind_position-converts :
    (p t : ℕ) (b : Blind)
    → p < 101
    → t < 101
    → b.kind ≡ ip_blind
    → b.is_hmtype ≡ true
    → is_blind_change (some (pos p)) (some (pos t)) b ≡ true
    → (set_blind_position (some (pos p)) (some (pos t)) b
        ≡ send_combined (ip_text (seen t) (seen p)) ∷ [])
      × (convert_combined_parameter_to_paramset combined_parameter
            (text (ip_text (seen t) (seen p)))
          ≡ (level_2, real (div_int (pos (seen t)) 100))
            ∷ (level, real (div_int (pos (seen p)) 100))
            ∷ [])
unfolding set_blind_position set_levels send_levels choose_level is_moving
set_blind_position-converts p t b hp ht k hm change =
    (ground (arith, combined_text p t hp ht), convert-ip_text (seen t) (seen p))

open_position : to_position open_level ≡ pos 100
unfolding to_position open_level
open_position = refl

-- A blind at a standstill without a combined parameter that opens its slats stays at its position,
-- and after the report its slats are open.
pub open_tilt-stays :
    (b : Blind)
    → b.is_hmtype ≡ false
    → b.drive.class ≡ cover
    → b.target_level ≡ none
    → let b' = report_levels (open_tilt b) b in
      (current_position b'.drive ≡ current_position b.drive) × (current_tilt_position b' ≡ pos 100)
unfolding open_tilt set_levels send_levels choose_level is_moving report_levels set_level report
    current_position position_of get_channel_level current_tilt_position get_channel_tilt_level
    is_tilt_change
open_tilt-stays b h k t =
    ground (arith, open_position, int_eq_sound (current_tilt_position b) (pos 100))
