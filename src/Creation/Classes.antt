-- ===== src/Creation/Classes.antt =====
-- Which class of data point a parameter gets: hahomematic/model/generic/__init__.py, with the
-- constants of hahomematic/const.py that it asks.
use hahomematic.Base.{
  ℕ, ◌/◌, ◌%◌, Bool, not, ◌||◌, ◌==◌, list_eq, nat_eq, Option, none, some, List, [], ◌∷◌,
  if◌then◌else◌, eqb, contains,
}
use hahomematic.Base.Text.{Text, codes}
use hahomematic.Const.{paramset_key_eq}
use hahomematic.Paramsets.{ParameterData}

abbrev pub has_bit : ℕ → ℕ → Bool
has_bit n bit = not (eqb (n / bit % 2) 0)

-- `Operations`
abbrev pub op_write : ℕ
op_write = 2

abbrev pub click_events : List Text
click_events =
    codes "PRESS"
    ∷ codes "PRESS_CONT"
    ∷ codes "PRESS_LOCK"
    ∷ codes "PRESS_LONG"
    ∷ codes "PRESS_LONG_RELEASE"
    ∷ codes "PRESS_LONG_START"
    ∷ codes "PRESS_SHORT"
    ∷ codes "PRESS_UNLOCK"
    ∷ []

abbrev pub virtual_remote_models : List Text
virtual_remote_models = codes "HM-RCV-50" ∷ codes "HMW-RCV-50" ∷ codes "HmIP-RCV-50" ∷ []

abbrev pub button_actions : List Text
button_actions = codes "RESET_MOTION" ∷ codes "RESET_PRESENCE" ∷ []

pub data DpClass : Type 0 where
  dp_action dp_binary_sensor dp_button dp_float dp_integer dp_select dp_sensor dp_switch dp_text :
      DpClass

-- support.py of the model: `is_binary_sensor`
unfoldable pub is_binary_sensor : ParameterData → Bool
unfolding contains
is_binary_sensor pd =
    pd.pd_type == codes "BOOL"
    || contains pd.pd_value_list (
        (codes "CLOSED" ∷ codes "OPEN" ∷ [])
        ∷ (codes "DRY" ∷ codes "RAIN" ∷ [])
        ∷ (codes "STABLE" ∷ codes "NOT_STABLE" ∷ [])
        ∷ [])

-- The types of a parameter that can be written and has another operation.
abbrev pub writable_class : Text → Option DpClass
writable_class p_type =
    if p_type == codes "BOOL"
    then some dp_switch
    else if p_type == codes "ENUM"
    then some dp_select
    else if p_type == codes "FLOAT"
    then some dp_float
    else if p_type == codes "INTEGER"
    then some dp_integer
    else if p_type == codes "STRING"
    then some dp_text
    else none

-- The choice of `create_data_point_and_append_to_channel` for a parameter that can be written.
unfoldable pub written_class : Text → Text → ParameterData → Option DpClass
written_class model parameter pd =
    if pd.pd_type == codes "ACTION"
    then if eqb pd.operations op_write
      then if contains parameter button_actions || contains model virtual_remote_models
        then some dp_button
        else some dp_action
      else if contains parameter click_events
      then some dp_button
      else some dp_switch
    else if eqb pd.operations op_write
    then some dp_action
    else writable_class pd.pd_type

-- The choice for any parameter.
unfoldable pub choose_class : Text → Text → ParameterData → Option DpClass
unfolding written_class is_binary_sensor
choose_class model parameter pd =
    if has_bit pd.operations op_write
    then written_class model parameter pd
    else if contains parameter click_events
    then none
    else if is_binary_sensor pd
    then some dp_binary_sensor
    else some dp_sensor
