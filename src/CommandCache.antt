-- ===== src/CommandCache.antt =====
-- `CommandCache` of hahomematic/caches/dynamic.py: the values that were sent and are not confirmed.
-- A method takes the readings of the clock that it makes, in their order.
pub mod Commands
pub mod Aging
use hahomematic.Base.{
  ℕ, suc, Bool, true, false, not, ◌&&◌, ◌||◌, Option, none, some, List, [], ◌∷◌, if◌then◌else◌,
}
use hahomematic.Base.Dict.{Dict, lookup, insert, erase}
use hahomematic.Base.Text.{Text}
use hahomematic.Base.Value.{Value, value_eq}
use hahomematic.Clock.{changed_within_seconds}
use hahomematic.Const.{ParamsetKey, values, DpKey, dp_key_eq}
use hahomematic.Converter.{is_convertable, convert_combined_parameter_to_paramset}

-- a value, and when it was sent
pub record Sent : Type 0 where
  pub value : Value
  pub send_dt : ℕ

pub record CommandCache : Type 0 where
  pub interface_id : Text
  pub last_send_command : Dict DpKey Sent

-- config.py: `LAST_COMMAND_SEND_STORE_TIMEOUT`, in seconds
abbrev pub store_timeout : ℕ
store_timeout = 60

-- `get_data_point_key`
abbrev pub dp_key : CommandCache → Text → ParamsetKey → Text → DpKey
dp_key c channel_address paramset_key parameter = record {
  interface_id = c.interface_id;
  channel_address = channel_address;
  paramset_key = paramset_key;
  parameter = parameter;
}

abbrev pub store : DpKey → Value → ℕ → CommandCache → CommandCache
store key value now c = record c {
  last_send_command = insert key (record { value = value; send_dt = now }) c.last_send_command;
}

-- The loop of `add_put_paramset`; round `i` reads the clock once.
unfoldable pub put_from :
    ℕ
    → Text
    → ParamsetKey
    → (ℕ → ℕ)
    → Dict Text Value
    → CommandCache
    → CommandCache × Dict DpKey Value
put_from i address key now [] c = (c, [])
put_from i address key now ((parameter, value) ∷ rest) c =
    let k = dp_key c address key parameter in
    let (c', sent) = put_from (suc i) address key now rest (store k value (now i) c) in
    (c', (k, value) ∷ sent)

unfoldable pub add_put_paramset :
    Text → ParamsetKey → (ℕ → ℕ) → Dict Text Value → CommandCache → CommandCache × Dict DpKey Value
unfolding put_from
add_put_paramset address key now paramset c = put_from 0 address key now paramset c

-- An empty paramset is falsy, and storing none changes nothing.
unfoldable pub add_combined_parameter :
    Text → Text → (ℕ → ℕ) → Value → CommandCache → CommandCache × Dict DpKey Value
add_combined_parameter parameter address now combined c =
    elim (convert_combined_parameter_to_paramset parameter combined) [
      | [] ↦ (c, [])
      | entry ∷ rest ↦ add_put_paramset address values now (entry ∷ rest) c
    ]

unfoldable pub add_set_value :
    Text → Text → (ℕ → ℕ) → Value → CommandCache → CommandCache × Dict DpKey Value
add_set_value address parameter now value c =
    if is_convertable parameter
    then add_combined_parameter parameter address now value c
    else (let k = dp_key c address values parameter in (store k value (now 0) c, (k, value) ∷ []))

-- `value is not None and stored_value == value`
abbrev confirms : Value → Value → Bool
confirms Value.null stored = false
confirms value stored = value_eq stored value

unfoldable pub remove_last_value_send : DpKey → Value → ℕ → ℕ → CommandCache → CommandCache
remove_last_value_send key value max_age now c = elim (lookup key c.last_send_command) [
  | none ↦ c
  | some sent ↦
      if not (changed_within_seconds now sent.send_dt max_age) || confirms value sent.value
      then record c { last_send_command = erase key c.last_send_command }
      else c
]

unfoldable pub get_last_value_send : DpKey → ℕ → (ℕ → ℕ) → CommandCache → Value × CommandCache
get_last_value_send key max_age now c = elim (lookup key c.last_send_command) [
  | none ↦ (Value.null, c)
  | some sent ↦
      if changed_within_seconds (now 0) sent.send_dt max_age
      then (sent.value, c)
      else (Value.null, remove_last_value_send key Value.null max_age (now 1) c)
]
