-- ===== src/Climate/Obeyed.antt =====
-- What a thermostat of hahomematic/model/custom/climate.py shows after it obeyed the commands for a
-- mode.
use hahomematic.Base.{
  ◌≡◌, refl, ap, ◌∙◌, Bool, true, false, Option, some, List, [], ◌∷◌, if◌then◌else◌, arith,
  Bool-cases, inl, inr,
}
use hahomematic.Base.Text.{codes}
use hahomematic.Base.Double.{Double, double_le}
use hahomematic.Schedule.{Attempt, done}
use hahomematic.Climate.{
  ClimateMode, auto, heat, off, mode_eq, RfFields, IpFields, rf, ip, Climate, Command,
  send_setpoint, send_auto, send_manu, send_control_mode, off_temperature, is_off, min_temp, mode,
  is_heating_mode, warm_mode,
}
use hahomematic.Climate.{is_text, mode_of}
use hahomematic.Climate.Setting.{and_then}
use hahomematic.Climate.Setting.{
  is_in_range, set_temperature, min_or_target_temperature, set_rf_mode, set_ip_mode, or_lowest,
  is_validated,
}
use hahomematic.Climate.Warm.{
  obey_model, reported, over_off, not_off, equal_over_off, is_off_self, equal_off, temperature_sent,
  min_over_off, no_change,
}

-- The method returns, and after the reports of what it sent the mode is `m`.
abbrev pub Leads : Attempt (List Command) → Climate → ClimateMode → Type 0
Leads r c m = (sent : List Command) × (r ≡ done sent) × (mode (reported sent c) ≡ m)

-- The mode that follows from reports to the two classes.
rf_switched_off :
    (f : RfFields) (m : Option Double) (v : Bool)
    → mode_of
        (obey_model (send_setpoint off_temperature v) (obey_model (send_manu m) (rf f)))
        (some off_temperature)
      ≡ off
rf_switched_off f m v = rw is_off_self refl

ip_switched_off :
    (f : IpFields) (v : Bool)
    → mode_of
        (obey_model (send_setpoint off_temperature v) (obey_model (send_control_mode 1) (ip f)))
        (some off_temperature)
      ≡ off
ip_switched_off f v = rw is_off_self refl

ip_warmed :
    (f : IpFields) (x : Double) (v : Bool)
    → is_off (some x) ≡ false
    → mode_of (obey_model (send_setpoint x v) (obey_model (send_control_mode 1) (ip f))) (some x)
      ≡ warm_mode f
unfolding is_heating_mode
ip_warmed f x v on = rw on refl

module _ (c : Climate) (f : RfFields) (classic : c.model ≡ rf f) where
  mode_rf : mode c ≡ (
      if is_off c.setpoint
      then off
      else if is_text (codes "MANU-MODE") f.control_mode
      then heat
      else auto)
  unfolding mode
  mode_rf = rw classic refl

  pub rf_auto : is_off c.setpoint ≡ false → Leads (set_rf_mode auto c) c auto
  unfolding set_rf_mode mode
  rf_auto on = (send_auto ∷ [], refl, rw (classic, on) refl)

  pub rf_heat : double_le (min_temp c) off_temperature ≡ false → Leads (set_rf_mode heat c) c heat
  unfolding set_rf_mode mode min_or_target_temperature
  rf_heat over = (
    send_manu (some (min_or_target_temperature c)) ∷ [],
    refl,
    rw
        (
          classic,
          not_off (min_or_target_temperature c)
              (over_off (min_temp c) (or_lowest c.setpoint (min_temp c)) over),
        )
        refl,
  )

  pub rf_off : Leads (set_rf_mode off c) c off
  unfolding set_rf_mode mode
  rf_off = elim (temperature_sent c off_temperature false refl) [
    | inl (nothing, same) ↦
        let (y, target, equal) = no_change off_temperature c same in
        (send_manu c.setpoint ∷ [], rw nothing refl, rw (classic, target, equal_off y equal) refl)
    | inr sent ↦ (
      send_manu c.setpoint ∷ send_setpoint off_temperature (is_validated false c) ∷ [],
      rw sent refl,
      ap
            (λ k.
              mode_of
                (obey_model (send_setpoint off_temperature (is_validated false c))
                  (obey_model (send_manu c.setpoint) k))
                (some off_temperature))
            classic
          ∙ rf_switched_off f c.setpoint (is_validated false c),
    )
  ]

module _ (c : Climate) (f : IpFields) (newer : c.model ≡ ip f) where
  pub ip_auto : is_off c.setpoint ≡ false → Leads (set_ip_mode auto c) c auto
  unfolding set_ip_mode mode
  ip_auto on = (send_control_mode 0 ∷ [], refl, rw (newer, on) refl)

  pub ip_off : Leads (set_ip_mode off c) c off
  unfolding set_ip_mode mode
  ip_off = elim (temperature_sent c off_temperature false refl) [
    | inl (nothing, same) ↦
        let (y, target, equal) = no_change off_temperature c same in
        (send_control_mode 1 ∷ [], rw nothing refl, rw (newer, target, equal_off y equal) refl)
    | inr sent ↦ (
      send_control_mode 1 ∷ send_setpoint off_temperature (is_validated false c) ∷ [],
      rw sent refl,
      ap
            (λ k.
              mode_of
                (obey_model (send_setpoint off_temperature (is_validated false c))
                  (obey_model (send_control_mode 1) k))
                (some off_temperature))
            newer
          ∙ ip_switched_off f (is_validated false c),
    )
  ]

  warm_clause :
      set_ip_mode (warm_mode f) c
      ≡ and_then (send_control_mode 1 ∷ []) (set_temperature (min_or_target_temperature c) true c)
  unfolding set_ip_mode
  warm_clause = elim (Bool-cases (is_heating_mode f)) [ inl h ↦ rw h refl | inr h ↦ rw h refl ]

  pub ip_warm :
      double_le (min_temp c) off_temperature ≡ false
      → is_in_range (min_or_target_temperature c) c ≡ true
      → Leads (set_ip_mode (warm_mode f) c) c (warm_mode f)
  unfolding mode is_heating_mode
  ip_warm over valid =
      let x = min_or_target_temperature c in
      let hot = min_over_off c over in
      elim (temperature_sent c x true (ground (arith, valid))) [
        | inl (nothing, same) ↦
            let (y, target, equal) = no_change x c same in
            (
              send_control_mode 1 ∷ [],
              warm_clause ∙ rw nothing refl,
              rw (newer, target, not_off y (equal_over_off x y hot equal)) refl,
            )
        | inr sent ↦ (
          send_control_mode 1 ∷ send_setpoint x (is_validated true c) ∷ [],
          warm_clause ∙ rw sent refl,
          ap
                (λ k.
                  mode_of
                    (obey_model (send_setpoint x (is_validated true c))
                      (obey_model (send_control_mode 1) k))
                    (some x))
                newer
              ∙ ip_warmed f x (is_validated true c) (not_off x hot),
        )
      ]
