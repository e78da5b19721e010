-- ===== src/Climate/Warm.antt =====
-- Commands that a thermostat of hahomematic/model/custom/climate.py obeys, and temperatures over the
-- one for off.
use hahomematic.Base.{
  ◌≡◌, ◌⊎◌, refl, ap, Bool, true, false, not, ◌&&◌, Option, none, some, List, [], ◌∷◌,
  if◌then◌else◌, eqb, arith, Bool-cases, inl, inr,
}
use hahomematic.Base.Text.{codes}
use hahomematic.Base.Double.{pos, Double, of_int, double_eq, double_le}
use hahomematic.Base.DoubleOrder.{
  double_le_trans, double_eq-double_le, double_eq-zero, double_eq_sym,
}
use hahomematic.Schedule.{done}
use hahomematic.Climate.{
  mode_eq, RfFields, IpFields, Model, simple_rf, rf, ip, Climate, Command, send_setpoint, send_auto,
  send_manu, send_boost, send_control_mode, send_active_profile, off_temperature, is_off, min_temp,
}
use hahomematic.Climate.Setting.{is_other_temperature}
use hahomematic.Climate.Setting.{
  is_in_range, is_temperature_change, set_temperature, min_or_target_temperature, or_lowest,
  is_validated,
}

-- what the device does with a value, as its next reports show
abbrev pub obey_rf : Command → RfFields → RfFields
obey_rf send_auto f = record f { control_mode = some (codes "AUTO-MODE") }
obey_rf (send_manu x) f = record f { control_mode = some (codes "MANU-MODE") }
obey_rf (send_boost b) f = record f { control_mode = some (codes "BOOST-MODE") }
obey_rf _ f = f

abbrev pub obey_ip : Command → IpFields → IpFields
obey_ip (send_control_mode n) f = record f { set_point_mode = some n }
obey_ip (send_boost b) f = record f { boost_mode = some b }
obey_ip (send_active_profile n) f = record f { active_profile = some n }
obey_ip _ f = f

abbrev pub obey_model : Command → Model → Model
obey_model x simple_rf = simple_rf
obey_model x (rf f) = rf (obey_rf x f)
obey_model x (ip f) = ip (obey_ip x f)

abbrev pub new_setpoint : Command → Option Double → Option Double
new_setpoint (send_setpoint x b) old = some x
new_setpoint (send_manu (some x)) old = some x
new_setpoint _ old = old

abbrev pub reported : List Command → Climate → Climate
reported [] c = c
reported (x ∷ rest) c =
    reported rest (record c { model = obey_model x c.model; setpoint = new_setpoint x c.setpoint })

-- The larger of two temperatures is not the one for off if the first is over it.
pub over_off :
    (low x : Double)
    → double_le low off_temperature ≡ false
    → double_le (if not (double_le low x) then low else x) off_temperature ≡ false
over_off low x over = ground (arith, over, double_le_trans low x off_temperature)

pub not_off : (x : Double) → double_le x off_temperature ≡ false → is_off (some x) ≡ false
unfolding is_off
not_off x over = ground (arith, over)

-- A float that is equal to one over the temperature for off is over it, too.
pub equal_over_off :
    (x y : Double)
    → double_le x off_temperature ≡ false
    → double_eq x y ≡ true
    → double_le y off_temperature ≡ false
equal_over_off x y over equal =
    ground (arith, over, double_le_trans x y off_temperature, double_eq-double_le x y equal)

off_counts : eqb off_temperature.mantissa 0 ≡ false
unfolding off_temperature
off_counts = refl

pub is_off_self : is_off (some off_temperature) ≡ true
unfolding is_off off_temperature
is_off_self = refl

pub equal_off : (y : Double) → double_eq off_temperature y ≡ true → is_off (some y) ≡ true
unfolding is_off of_int
equal_off y equal =
    let below = double_eq-double_le y off_temperature (double_eq_sym off_temperature y equal) in
    let truthy : double_eq y (of_int (pos 0)) ≡ false =
      elim (Bool-cases (double_eq y (of_int (pos 0)))) [
        | inl none_left ↦ cc (
          off_counts,
          ap (λ n. eqb n 0)
              (double_eq-zero off_temperature y (of_int (pos 0)) equal refl none_left),
        )
        | inr fine ↦ fine
      ] in
    rw (truthy, below)

module _ (c : Climate) (x : Double) (do_validate : Bool) where
  -- Setting a temperature that is valid or not validated: nothing is sent if it is the target.
  pub temperature_sent :
      (is_validated do_validate c && not (is_in_range x c)) ≡ false
      → ((set_temperature x do_validate c ≡ done []) × (is_temperature_change x c ≡ false))
        ⊎ (set_temperature x do_validate c
            ≡ done (send_setpoint x (is_validated do_validate c) ∷ []))
  unfolding set_temperature
  temperature_sent fine = elim (Bool-cases (is_temperature_change x c)) [
    | inl changes ↦ inr (rw (changes, fine) refl)
    | inr stays ↦ inl (rw stays refl, stays)
  ]

pub min_over_off :
    (c : Climate)
    → double_le (min_temp c) off_temperature ≡ false
    → double_le (min_or_target_temperature c) off_temperature ≡ false
unfolding min_or_target_temperature
min_over_off c over = over_off (min_temp c) (or_lowest c.setpoint (min_temp c)) over

-- What is no change is equal to the target.
other_or_equal :
    (x : Double) (o : Option Double)
    → is_other_temperature x o ≡ false
    → (y : Double) × (o ≡ some y) × (double_eq x y ≡ true)
other_or_equal x none h = cc h
other_or_equal x (some y) h = (y, refl, ground (arith, h))

pub no_change :
    (x : Double) (c : Climate)
    → is_temperature_change x c ≡ false
    → (y : Double) × (c.setpoint ≡ some y) × (double_eq x y ≡ true)
unfolding is_temperature_change
no_change x c h = other_or_equal x c.setpoint (ground (arith, h))
