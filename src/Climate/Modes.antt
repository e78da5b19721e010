-- ===== src/Climate/Modes.antt =====
-- The mode of a thermostat (hahomematic/model/custom/climate.py) after the device reported what it was
-- sent.
use hahomematic.Base.{
  ◌≡◌, refl, sym, ap, ◌∙◌, Bool, true, false, ◌&&◌, Option, some, List, [], ◌∷◌, contains, arith,
  Bool-cases, inl, inr,
}
use hahomematic.Base.Double.{Double, double_le}
use hahomematic.Schedule.{Attempt, done}
use hahomematic.Climate.{
  ClimateMode, auto, cool, heat, off, mode_eq, mode_beq, RfFields, IpFields, Model, simple_rf, rf,
  ip, Climate, Command, send_setpoint, send_auto, send_manu, send_boost, send_comfort,
  send_lowering, send_control_mode, send_active_profile, off_temperature, is_off, min_temp, mode,
  modes, profile, is_set, is_heating_mode, warm_mode,
}
use hahomematic.Climate.{modes_of, mode_beq_iff}
use hahomematic.Climate.Setting.{and_then, set_model_mode}
use hahomematic.Climate.Setting.{
  is_mode_change, is_in_range, min_or_target_temperature, set_rf_mode, set_ip_mode, end_boost,
  set_mode, is_profile_change,
}
use hahomematic.Climate.Obeyed.{Leads, rf_auto, rf_heat, rf_off, ip_auto, ip_off, ip_warm}
use hahomematic.Climate.Warm.{obey_model, new_setpoint, reported}

-- Whether the boost mode is on does not change the mode.
boost_apart :
    (sent : List Command) (c : Climate) (f : IpFields) (o : Option Double) (b : Option Bool)
    → mode (reported sent (record c { model = ip (record f { boost_mode = b }); setpoint = o }))
      ≡ mode (reported sent (record c { model = ip f; setpoint = o }))
unfolding mode is_heating_mode
boost_apart [] c f o b = refl
boost_apart (send_setpoint x v ∷ rest) c f o b = boost_apart rest c f (some x) b
boost_apart (send_auto ∷ rest) c f o b = boost_apart rest c f o b
boost_apart (send_manu x ∷ rest) c f o b = boost_apart rest c f (new_setpoint (send_manu x) o) b
boost_apart (send_boost a ∷ rest) c f o b = refl
boost_apart (send_comfort ∷ rest) c f o b = boost_apart rest c f o b
boost_apart (send_lowering ∷ rest) c f o b = boost_apart rest c f o b
boost_apart (send_control_mode n ∷ rest) c f o b =
    boost_apart rest c (record f { set_point_mode = some n }) o b
boost_apart (send_active_profile n ∷ rest) c f o b =
    boost_apart rest c (record f { active_profile = some n }) o b

module _ (m : ClimateMode) (c : Climate) (f : IpFields) (newer : c.model ≡ ip f) where
  known : c ≡ record c { model = ip f; setpoint = c.setpoint }
  known = ap (λ k. let c' : Climate = record c { model = k; setpoint = c.setpoint } in c') newer

  boost_ended : is_set f.boost_mode ≡ true → end_boost c ≡ done (send_boost false ∷ [])
  unfolding end_boost is_profile_change profile
  boost_ended boosted = rw (newer, boosted) refl

  from_boost :
      (r : Attempt (List Command)) → Leads r c m → Leads (and_then (send_boost false ∷ []) r) c m
  from_boost r (sent, returns, leads) = (
    send_boost false ∷ sent,
    rw returns refl,
    ap
          (λ k. mode (
            reported sent
              (record c { model = obey_model (send_boost false) k; setpoint = c.setpoint })))
          newer
        ∙ boost_apart sent c f c.setpoint (some false)
        ∙ ap (λ k. mode (reported sent k)) (sym known)
        ∙ leads,
  )

  ip_changes :
      is_mode_change m c ≡ true
      → Leads (set_ip_mode m c) c m
      → Leads (set_model_mode (ip f) m c) c m
  ip_changes changes after = elim (Bool-cases (is_set f.boost_mode)) [
    | inl boosted ↦ rw (changes, boosted, boost_ended boosted) (from_boost (set_ip_mode m c) after)
    | inr plain ↦
        let (sent, returns, leads) = after in (sent, rw (changes, plain, returns) refl, leads)
  ]

-- What a mode other than AUTO asks for; AUTO asks that the target is not the one for off.
ip-Leads :
    (m : ClimateMode) (c : Climate) (f : IpFields)
    → c.model ≡ ip f
    → contains m (modes_of (ip f)) ≡ true
    → double_le (min_temp c) off_temperature ≡ false
    → is_in_range (min_or_target_temperature c) c ≡ true
    → (mode_beq m auto && is_off c.setpoint) ≡ false
    → Leads (set_ip_mode m c) c m
unfolding contains
ip-Leads auto c f newer there over valid on = ip_auto c f newer on
ip-Leads off c f newer there over valid on = ip_off c f newer
ip-Leads heat c f newer there over valid on =
    let same : warm_mode f ≡ heat = ground (arith, there) in
    rw same at (ip_warm c f newer over valid)
ip-Leads cool c f newer there over valid on =
    let same : warm_mode f ≡ cool = ground (arith, there) in
    rw same at (ip_warm c f newer over valid)

rf-Leads :
    (m : ClimateMode) (c : Climate) (f : RfFields)
    → c.model ≡ rf f
    → contains m (modes_of (rf f)) ≡ true
    → double_le (min_temp c) off_temperature ≡ false
    → (mode_beq m auto && is_off c.setpoint) ≡ false
    → Leads (set_rf_mode m c) c m
unfolding contains
rf-Leads auto c f classic there over on = rf_auto c f classic on
rf-Leads off c f classic there over on = rf_off c f classic
rf-Leads heat c f classic there over on = rf_heat c f classic over
rf-Leads cool c f classic there over on = cc there

stays : (m : ClimateMode) (c : Climate) → is_mode_change m c ≡ false → mode c ≡ m
unfolding is_mode_change
stays m c same = ground (arith, same, mode_beq_iff m (mode c))

model-Leads :
    (k : Model) (m : ClimateMode) (c : Climate)
    → c.model ≡ k
    → contains m (modes_of k) ≡ true
    → double_le (min_temp c) off_temperature ≡ false
    → is_in_range (min_or_target_temperature c) c ≡ true
    → (mode_beq m auto && is_off c.setpoint) ≡ false
    → Leads (set_model_mode k m c) c m
unfolding contains
model-Leads simple_rf m c is there over valid on =
    let only : m ≡ heat = ground (arith, there, mode_beq_iff heat m) in
    ([], refl, (unfold mode in rw is (sym only)))
model-Leads (rf f) m c is there over valid on = elim (Bool-cases (is_mode_change m c)) [
  | inl changes ↦ rw changes (rf-Leads m c f is there over on)
  | inr same ↦ ([], rw same refl, stays m c same)
]
model-Leads (ip f) m c is there over valid on = elim (Bool-cases (is_mode_change m c)) [
  | inl changes ↦ ip_changes m c f is changes (ip-Leads m c f is there over valid on)
  | inr same ↦ ([], rw same refl, stays m c same)
]

-- Setting one of the modes that a thermostat offers returns, and after the device obeyed what it was
-- sent the mode is the one that was set, if the lowest temperature is over the one for off, the
-- temperature that goes with heating is in the range, and AUTO is not set while the target is the
-- one for off.
pub set_mode-reported :
    (m : ClimateMode) (c : Climate)
    → contains m (modes c) ≡ true
    → double_le (min_temp c) off_temperature ≡ false
    → is_in_range (min_or_target_temperature c) c ≡ true
    → (mode_beq m auto && is_off c.setpoint) ≡ false
    → (sent : List Command) × (set_mode m c ≡ done sent) × (mode (reported sent c) ≡ m)
unfolding set_mode modes
set_mode-reported m c there over valid on = model-Leads c.model m c refl there over valid on
