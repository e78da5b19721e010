-- ===== src/DataPoint.antt =====
-- The values of a data point: hahomematic/model/data_point.py (`_value`, `write_value`,
-- `write_temporary_value` and the four times) and hahomematic/model/generic/data_point.py (`event`,
-- `send_value`, `is_state_change`). The conversion of a value (hahomematic/model/support.py) and its
-- preparation for sending are arguments. The four setters of a time take `datetime.now()` as the
-- default of their parameter, which Python reads once, when the class is made: these readings are
-- the record `Defaults`. The callbacks are not here.
pub mod Temporary
pub mod Events
use hahomematic.Base.{
  ℕ, Bool, true, false, not, ◌&&◌, ◌||◌, Option, none, some, List, [], ◌∷◌, ◌++◌, ◌==◌, list_eq,
  nat_eq, if◌then◌else◌, ltb, eqb,
}
use hahomematic.Base.Text.{Text, codes}
use hahomematic.Base.Value.{Value, null, boolean, text, value_eq}
use hahomematic.Clock.{init_datetime}
use hahomematic.Const.{DpKey}
use hahomematic.CommandCache.{CommandCache, store_timeout, remove_last_value_send}

-- When the defaults of `_set_modified_at`, `_set_refreshed_at`, `_set_temporary_modified_at` and
-- `_set_temporary_refreshed_at` were read.
pub record Defaults : Type 0 where
  pub modified : ℕ
  pub refreshed : ℕ
  pub temporary_modified : ℕ
  pub temporary_refreshed : ℕ

pub record DataPoint : Type 0 where
  pub current_value : Value
  pub previous_value : Value
  pub temporary_value : Value
  pub modified_at : ℕ
  pub refreshed_at : ℕ
  pub temporary_modified_at : ℕ
  pub temporary_refreshed_at : ℕ
  pub state_uncertain : Bool

unfoldable pub new : DataPoint
new = record {
  current_value = null;
  previous_value = null;
  temporary_value = null;
  modified_at = init_datetime;
  refreshed_at = init_datetime;
  temporary_modified_at = init_datetime;
  temporary_refreshed_at = init_datetime;
  state_uncertain = true;
}

-- `_value`
unfoldable pub value_of : DataPoint → Value
value_of d =
    if ltb d.refreshed_at d.temporary_refreshed_at then d.temporary_value else d.current_value

-- `_reset_temporary_value`
unfoldable pub reset_temporary_value : DataPoint → DataPoint
reset_temporary_value d = record d {
  temporary_value = null;
  temporary_modified_at = init_datetime;
  temporary_refreshed_at = init_datetime;
}

abbrev pub no_cache_entry : Value
no_cache_entry = text (codes "NO_CACHE_ENTRY")

-- `write_value`: the data point, and the old and the new value
unfoldable pub write_value :
    Defaults → (Value → Value) → Value → DataPoint → DataPoint × (Value × Value)
unfolding reset_temporary_value value_eq
write_value t convert value d =
    let d1 = reset_temporary_value d in
    let old_value = d1.current_value in
    let new_value = convert value in
    if value_eq value no_cache_entry
    then (
      (if eqb d1.refreshed_at init_datetime then d1 else record d1 { state_uncertain = true }),
      (old_value, null),
    )
    else if value_eq old_value new_value
    then (record d1 { refreshed_at = t.refreshed; state_uncertain = false }, (old_value, new_value))
    else (
      record d1 {
        modified_at = t.modified;
        refreshed_at = t.modified;
        previous_value = old_value;
        current_value = new_value;
        state_uncertain = false;
      },
      (old_value, new_value),
    )

unfoldable pub write_temporary_value : Defaults → (Value → Value) → Value → DataPoint → DataPoint
unfolding reset_temporary_value value_eq value_of
write_temporary_value t convert value d =
    let d1 = reset_temporary_value d in
    let temp_value = convert value in
    if value_eq (value_of d1) temp_value
    then record d1 { temporary_refreshed_at = t.temporary_refreshed }
    else record d1 {
      temporary_modified_at = t.temporary_modified;
      temporary_refreshed_at = t.temporary_modified;
      temporary_value = temp_value;
      state_uncertain = true;
    }

unfoldable pub is_state_change : Value → DataPoint → Bool
unfolding value_of value_eq
is_state_change value d = not (value_eq value (value_of d)) || d.state_uncertain

-- What an event of the backend sets off besides the new value.
pub data Reaction : Type 0 where
  reload_paramset_descriptions fire_availability : Reaction

abbrev is_true : Value → Bool
is_true (boolean true) = true
is_true _ = false

abbrev is_false : Value → Bool
is_false (boolean false) = true
is_false _ = false

-- The tests of `event` on a changed value.
unfoldable pub reactions : Text → Value → Value → List Reaction
unfolding value_eq
reactions parameter old_value new_value =
    if value_eq old_value new_value
    then []
    else ((if parameter == codes "CONFIG_PENDING" && (is_false new_value && is_true old_value)
          then reload_paramset_descriptions ∷ []
          else [])
        ++ (if parameter == codes "UNREACH" || parameter == codes "STICKY_UNREACH"
            then fire_availability ∷ []
            else []))

-- `event`, with the cache of sent values and the reading of the clock that it makes
unfoldable pub event :
    Defaults
    → (Value → Value)
    → DpKey
    → Value
    → ℕ
    → CommandCache
    → DataPoint
    → CommandCache × (DataPoint × List Reaction)
unfolding write_value remove_last_value_send reactions
event t convert key value now c d =
    let (d', (old_value, new_value)) = write_value t convert value d in
    (
      remove_last_value_send key value store_timeout now c,
      (d', reactions key.parameter old_value new_value),
    )

-- Where a value goes that is sent.
pub data Target : Type 0 where
  dropped : Target
  to_collector to_client : Value → Target

-- `send_value`; `prepare` is `none` for a ValueError.
unfoldable pub send_value :
    Bool → Bool → Bool → (Value → Option Value) → (Value → Value) → Value → DataPoint → Target
unfolding is_state_change
send_value is_writeable validates has_collector prepare convert value d =
    if not is_writeable then dropped else elim (prepare value) [
      | none ↦ dropped
      | some prepared ↦
          if has_collector
          then to_collector (convert prepared)
          else if validates && not (is_state_change (convert prepared) d)
          then dropped
          else to_client (convert prepared)
    ]

pub data Op : Type 0 where
  op_write op_write_temporary : Value → Op

unfoldable pub apply : Defaults → (Value → Value) → Op → DataPoint → DataPoint
apply t convert (op_write v) d = (write_value t convert v d).0
apply t convert (op_write_temporary v) d = write_temporary_value t convert v d

unfoldable pub run : Defaults → (Value → Value) → List Op → DataPoint → DataPoint
run t convert [] d = d
run t convert (op ∷ ops) d = run t convert ops (apply t convert op d)
