-- ===== src/Const.antt =====
-- The enums and constants of hahomematic/const.py that more than one component uses.
use hahomematic.Base.{
  ◌≡◌, ◌↔◌, Bool, true, false, ◌&&◌, arith, Eq, ◌==◌, list_eq, nat_eq, list_beq_iff,
}
use hahomematic.Base.Text.{Text, codes}

pub data ParamsetKey : Type 0 where
  link master service values : ParamsetKey

abbrev pub paramset_key_beq : ParamsetKey → ParamsetKey → Bool
paramset_key_beq link link = true
paramset_key_beq master master = true
paramset_key_beq service service = true
paramset_key_beq values values = true
paramset_key_beq _ _ = false

pub paramset_key_beq_iff : (a b : ParamsetKey) → (paramset_key_beq a b ≡ true) ↔ (a ≡ b)
paramset_key_beq_iff link b = ground arith
paramset_key_beq_iff master b = ground arith
paramset_key_beq_iff service b = ground arith
paramset_key_beq_iff values b = ground arith

instance abbrev pub paramset_key_eq : Eq ParamsetKey
paramset_key_eq = record { test = paramset_key_beq; test_iff = paramset_key_beq_iff }

pub data Interface : Type 0 where
  bidcos_rf bidcos_wired ccu_jack cuxd hmip_rf virtual_devices : Interface

abbrev pub interface_beq : Interface → Interface → Bool
interface_beq bidcos_rf bidcos_rf = true
interface_beq bidcos_wired bidcos_wired = true
interface_beq ccu_jack ccu_jack = true
interface_beq cuxd cuxd = true
interface_beq hmip_rf hmip_rf = true
interface_beq virtual_devices virtual_devices = true
interface_beq _ _ = false

pub interface_beq_iff : (a b : Interface) → (interface_beq a b ≡ true) ↔ (a ≡ b)
interface_beq_iff bidcos_rf b = ground arith
interface_beq_iff bidcos_wired b = ground arith
interface_beq_iff ccu_jack b = ground arith
interface_beq_iff cuxd b = ground arith
interface_beq_iff hmip_rf b = ground arith
interface_beq_iff virtual_devices b = ground arith

instance abbrev pub interface_eq : Eq Interface
interface_eq = record { test = interface_beq; test_iff = interface_beq_iff }

-- `DP_KEY`: interface id, channel address, paramset key and parameter
pub record DpKey : Type 0 where
  pub interface_id : Text
  pub channel_address : Text
  pub paramset_key : ParamsetKey
  pub parameter : Text

abbrev pub dp_key_beq : DpKey → DpKey → Bool
dp_key_beq a b =
    (a.interface_id == b.interface_id && a.channel_address == b.channel_address)
    && (a.paramset_key == b.paramset_key && a.parameter == b.parameter)

pub dp_key_beq_iff : (a b : DpKey) → (dp_key_beq a b ≡ true) ↔ (a ≡ b)
dp_key_beq_iff a b = ground (
  arith,
  list_beq_iff a.interface_id b.interface_id,
  list_beq_iff a.channel_address b.channel_address,
  paramset_key_beq_iff a.paramset_key b.paramset_key,
  list_beq_iff a.parameter b.parameter,
)

instance abbrev pub dp_key_eq : Eq DpKey
dp_key_eq = record { test = dp_key_beq; test_iff = dp_key_beq_iff }

-- `Parameter`
abbrev pub combined_parameter : Text
combined_parameter = codes "COMBINED_PARAMETER"

abbrev pub level : Text
level = codes "LEVEL"

abbrev pub level_2 : Text
level_2 = codes "LEVEL_2"

abbrev pub level_combined : Text
level_combined = codes "LEVEL_COMBINED"

abbrev pub level_slats : Text
level_slats = codes "LEVEL_SLATS"
