-- ===== src/Writing.antt =====
-- Writing values to the backend: `_set_value`, `set_value`, `put_paramset` and the checks against the
-- paramset descriptions of hahomematic/client/__init__.py, up to the wait for the callback. The
-- conversion of a value to its type (hahomematic/model/support.py), the devices' receive modes and
-- the answer of the backend are arguments. The temporary values of the data points are not here.
pub mod Outcomes
use hahomematic.Base.{
  ℕ, ◌*◌, ◌/◌, ◌%◌, Eq, list_eq, nat_eq, Bool, true, false, not, ◌&&◌, ◌||◌, Option, none, some,
  List, [], ◌∷◌, if◌then◌else◌, eqb, any,
}
use hahomematic.Base.Dict.{Dict, insert}
use hahomematic.Base.Text.{Text}
use hahomematic.Base.Value.{Value}
use hahomematic.Const.{ParamsetKey, link, values, DpKey}
use hahomematic.CommandCache.{CommandCache, add_set_value, add_put_paramset}
use hahomematic.Paramsets.{ParameterData, ParamsetDescriptionCache, get_parameter_data}

pub data CommandRxMode : Type 0 where
  rx_burst rx_wakeup : CommandRxMode

pub data RxMode : Type 0 where
  undefined always burst config wakeup lazy_config : RxMode

-- The paramset key of `put_paramset`: a key, the address of a channel, or another text.
pub data PutKey : Type 0 where
  of_key : ParamsetKey → PutKey
  of_address other_text : Text → PutKey

-- The calls of the backend.
pub data Call : Type 0 where
  call_set_value : Text → Text → Value → Option CommandRxMode → Call
  call_put_paramset : Text → PutKey → Dict Text Value → Option CommandRxMode → Call

-- What a method returns, or that it raises a ClientException, or a ValueError or TypeError.
pub data Outcome : Type 0 where
  returns : Dict DpKey Value → Outcome
  raises_client_exception raises_value_error : Outcome

-- What a check or a conversion gives: a value, a ClientException, or the ValueError or TypeError of a
-- conversion.
pub data Checked {ℓ} (A : Type ℓ) : Type ℓ where
  passed : A → Checked A
  not_passed conversion_error : Checked A

-- A finished method: its outcome, the cache and the calls that it made.
pub record Done : Type 0 where
  pub outcome : Outcome
  pub cache : CommandCache
  pub calls : List Call

-- The rest of the system, as one method meets it.
pub record Backend : Type 0 where
  pub interface_id : Text
  pub convert_value : Text → List Text → Value → Checked Value
  pub rx_modes : Text → Option (List RxMode)
  pub answers : Bool
  pub descriptions : ParamsetDescriptionCache

-- The operation WRITE as a bit.
abbrev pub write_bit : ℕ → ℕ
write_bit operations = operations / 2 % 2 * 2

-- `_convert_value` for WRITE: the test asks that the same number is zero and not zero.
unfoldable pub convert_checked : Backend → Text → ParamsetKey → Text → Value → Checked Value
unfolding get_parameter_data
convert_checked b address key parameter value =
    elim (get_parameter_data b.interface_id address key parameter b.descriptions) [
      | none ↦ not_passed
      | some pd ↦
          if eqb (write_bit pd.operations) 0 && not (eqb (write_bit pd.operations) 0)
          then not_passed
          else b.convert_value pd.pd_type pd.pd_value_list value
    ]

-- `_check_put_paramset`
unfoldable pub check_put_paramset :
    Backend → Text → ParamsetKey → Dict Text Value → Dict Text Value → Checked (Dict Text Value)
check_put_paramset b address key [] checked = passed checked
check_put_paramset b address key ((p, v) ∷ rest) checked =
    elim (convert_checked b address key p v) [
      | not_passed ↦ not_passed
      | conversion_error ↦ conversion_error
      | passed w ↦ check_put_paramset b address key rest (insert p w checked)
    ]

abbrev same_mode : CommandRxMode → RxMode → Bool
same_mode rx_burst burst = true
same_mode rx_wakeup wakeup = true
same_mode _ _ = false

-- support.py: `supports_rx_mode`
unfoldable pub supports_rx_mode : CommandRxMode → List RxMode → Bool
unfolding any
supports_rx_mode mode modes = any (same_mode mode) modes

-- How a command goes out: with a mode, without one, or not at all.
pub data Route : Type 0 where
  with_mode : CommandRxMode → Route
  plain_call unsupported : Route

unfoldable pub route : Backend → Text → Option CommandRxMode → Route
unfolding supports_rx_mode
route b address none = plain_call
route b address (some mode) = elim (b.rx_modes address) [
  | none ↦ plain_call
  | some modes ↦ if supports_rx_mode mode modes then with_mode mode else unsupported
]

abbrev pub refused : List Call → CommandCache → Done
refused calls c = record { outcome = raises_client_exception; cache = c; calls = calls }

-- The ValueError or TypeError of a conversion is not caught.
abbrev pub unconverted : CommandCache → Done
unconverted c = record { outcome = raises_value_error; cache = c; calls = [] }

-- What follows the call of `_set_value`.
unfoldable pub store_value :
    Backend → Text → Text → Value → (ℕ → ℕ) → List Call → CommandCache → Done
unfolding add_set_value
store_value b address parameter checked_value now calls c =
    let (c', sent) = add_set_value address parameter now checked_value c in
    if b.answers
    then record { outcome = returns sent; cache = c'; calls = calls }
    else refused calls c

-- `_set_value`: what goes out is the value as it was given.
unfoldable pub exec_set_value :
    Backend → Text → Text → Value → Option CommandRxMode → Bool → (ℕ → ℕ) → CommandCache → Done
unfolding route store_value convert_checked
exec_set_value b address parameter value rx_mode check_against_pd now c =
    elim (if check_against_pd
      then convert_checked b address values parameter value
      else passed value) [
        | not_passed ↦ refused [] c
        | conversion_error ↦ unconverted c
        | passed checked_value ↦
            let send : Option CommandRxMode → Done = λ mode.
              store_value b address parameter checked_value now
                (call_set_value address parameter value mode ∷ []) c in
            elim (route b address rx_mode) [
              | with_mode mode ↦ send (some mode)
              | plain_call ↦ send none
              | unsupported ↦ refused [] c
            ]
      ]

-- What follows the call of `put_paramset`; an address is no paramset key.
unfoldable pub store_paramset :
    Backend → Text → PutKey → Bool → Dict Text Value → (ℕ → ℕ) → List Call → CommandCache → Done
unfolding add_put_paramset
store_paramset b address key is_link_call checked_values now calls c =
    if not b.answers
    then refused calls c
    else if is_link_call
    then record { outcome = returns []; cache = c; calls = calls }
    else elim key [
      | of_key k ↦
          let (c', sent) = add_put_paramset address k now checked_values c in
          record { outcome = returns sent; cache = c'; calls = calls }
      | of_address a ↦ record { outcome = raises_value_error; cache = c; calls = calls }
      | other_text t ↦ record { outcome = raises_value_error; cache = c; calls = calls }
    ]

-- The paramset key that the check takes.
abbrev pub check_key : PutKey → Option ParamsetKey
check_key (of_key k) = some k
check_key (of_address a) = some link
check_key (other_text t) = none

abbrev pub is_link : PutKey → Bool
is_link (of_address a) = true
is_link _ = false

-- The values that go out, if the check passes.
unfoldable pub checked_paramset :
    Backend → Text → PutKey → Dict Text Value → Bool → Checked (Dict Text Value)
unfolding check_put_paramset
checked_paramset b address key paramset false = passed paramset
checked_paramset b address key paramset true = elim (check_key key) [
  | none ↦ not_passed
  | some k ↦ check_put_paramset b address k paramset []
]

unfoldable pub put_paramset :
    Backend
    → Text
    → PutKey
    → Dict Text Value
    → Option CommandRxMode
    → Bool
    → (ℕ → ℕ)
    → CommandCache
    → Done
unfolding route store_paramset checked_paramset
put_paramset b address key paramset rx_mode check_against_pd now c =
    elim (checked_paramset b address key paramset check_against_pd) [
      | not_passed ↦ refused [] c
      | conversion_error ↦ unconverted c
      | passed checked_values ↦
          let send : Option CommandRxMode → Done = λ mode.
            store_paramset b address key (check_against_pd && is_link key) checked_values now
              (call_put_paramset address key checked_values mode ∷ []) c in
          elim (route b address rx_mode) [
            | with_mode mode ↦ send (some mode)
            | plain_call ↦ send none
            | unsupported ↦ refused [] c
          ]
    ]

-- `set_value`, whose decorator turns a ClientException into an empty set.
unfoldable pub set_value :
    Backend
    → Text
    → ParamsetKey
    → Text
    → Value
    → Option CommandRxMode
    → Bool
    → (ℕ → ℕ)
    → CommandCache
    → Done
unfolding exec_set_value put_paramset
set_value b address key parameter value rx_mode check_against_pd now c =
    let done : Done = elim key [
      | values ↦ exec_set_value b address parameter value rx_mode check_against_pd now c
      | other ↦
          put_paramset b address (of_key other) ((parameter, value) ∷ []) rx_mode check_against_pd
            now c
    ] in
    elim done.outcome [ raises_client_exception ↦ record done { outcome = returns [] } | _ ↦ done ]
