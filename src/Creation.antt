-- ===== src/Creation.antt =====
-- Which data points and events a device gets: hahomematic/model/__init__.py, with the choices of
-- hahomematic/model/generic/__init__.py and hahomematic/model/event.py. The code changes the
-- parameter data in place, and with it the paramset descriptions of the cache: the changed data is
-- part of the result. The data points' own initialisation is not here, nor that it can raise.
pub mod Classes
pub mod Choices
pub mod Again
pub mod Keeping
use hahomematic.Base.{
  ℕ, ◌/◌, ◌%◌, Bool, true, false, not, ◌&&◌, ◌||◌, ◌==◌, list_eq, nat_eq, Option, none, some, List,
  [], ◌∷◌, ◌++◌, if◌then◌else◌, eqb, contains, any,
}
use hahomematic.Base.Dict.{Dict}
use hahomematic.Base.Text.{Text, codes, starts_with}
use hahomematic.Const.{ParamsetKey, master, paramset_key_eq, level}
use hahomematic.Paramsets.{ParameterData, Description, Paramsets}
use hahomematic.Visibility.{
  Tables, VisibilityCache, ChannelNo, is_relevant_paramset, parameter_is_ignored,
  parameter_is_un_ignored, element_matches,
}
use hahomematic.Creation.Classes.{
  has_bit, op_write, click_events, virtual_remote_models, button_actions, DpClass, dp_action,
  dp_binary_sensor, dp_button, dp_float, dp_integer, dp_select, dp_sensor, dp_switch, dp_text,
  is_binary_sensor, writable_class, written_class, choose_class,
}

-- `Operations` and `Flag`
abbrev pub op_event : ℕ
op_event = 4

abbrev pub flag_internal : ℕ
flag_internal = 2

abbrev pub impulse_events : List Text
impulse_events = codes "SEQUENCE_OK" ∷ []

abbrev pub is_device_error : Text → Bool
is_device_error parameter =
    starts_with parameter (codes "ERROR") || starts_with parameter (codes "SENSOR_ERROR")

abbrev pub allowed_internal_parameters : List Text
allowed_internal_parameters = codes "DIRECTION" ∷ []

pub data EventClass : Type 0 where
  click_event device_error_event impulse_event : EventClass

-- What a channel gets: an event, or a data point that may be forced to be a sensor.
pub data Item : Type 0 where
  event : EventClass → Text → Item
  data_point : DpClass → ParamsetKey → Text → Bool → Item

-- `force_to_sensor` changes the category of a number, a select or a text only.
abbrev pub can_be_sensor : DpClass → Bool
can_be_sensor dp_float = true
can_be_sensor dp_integer = true
can_be_sensor dp_select = true
can_be_sensor dp_text = true
can_be_sensor _ = false

-- `_check_switch_to_sensor`, for a parameter that is un-ignored or not
unfoldable pub check_switch_to_sensor : Bool → Text → Text → Bool
unfolding element_matches
check_switch_to_sensor un_ignored model parameter =
    not un_ignored
    && (element_matches true (codes "HmIP-eTRV" ∷ codes "HmIP-HEATING" ∷ []) model
        && parameter == level)

-- The change of TYPE for a binary sensor.
abbrev pub left_behind : Option DpClass → ParameterData → ParameterData
left_behind (some dp_binary_sensor) pd = record pd { pd_type = codes "BOOL" }
left_behind _ pd = pd

-- `create_data_point_and_append_to_channel`
unfoldable pub create_data_point :
    Bool → Text → ParamsetKey → Text → ParameterData → ParameterData × List Item
unfolding choose_class check_switch_to_sensor
create_data_point un_ignored model key parameter pd =
    let sensor = check_switch_to_sensor un_ignored model parameter in
    let chosen = choose_class model parameter pd in
    (
      left_behind chosen pd,
      elim chosen [
        | none ↦ []
        | some c ↦ data_point c key parameter (can_be_sensor c && sensor) ∷ []
      ],
    )

-- `create_event_and_append_to_channel`: the last test that holds decides.
unfoldable pub create_event : Text → ℕ → List Item
create_event parameter operations =
    if not (has_bit operations op_event)
    then []
    else if contains parameter impulse_events
    then event impulse_event parameter ∷ []
    else if is_device_error parameter
    then event device_error_event parameter ∷ []
    else if contains parameter click_events
    then event click_event parameter ∷ []
    else []

-- The OPERATIONS of a MASTER parameter that are 0 become 3.
abbrev pub fix_operations : ParamsetKey → ParameterData → ParameterData
fix_operations key pd =
    if key == master && eqb pd.operations 0 then record pd { operations = 3 } else pd

-- The test behind which a parameter gets no data point: no event and no write, or internal.
abbrev pub is_skipped : Bool → Text → ℕ → ℕ → Bool
is_skipped un_ignored parameter operations flags =
    (not (has_bit operations op_event) && not (has_bit operations op_write))
    || (has_bit flags flag_internal
        && not (contains parameter allowed_internal_parameters)
        && not un_ignored)

abbrev pub is_wanted : Bool → Text → Bool
is_wanted un_ignored parameter =
    not (contains parameter impulse_events) && (not (is_device_error parameter) || un_ignored)

-- The body of the loops of `create_data_points_and_events`, after the test whether the parameter is
-- ignored: whether it is un-ignored is an argument.
unfoldable pub create_visible :
    Bool → Text → ParamsetKey → Text → ParameterData → ParameterData × List Item
unfolding create_event create_data_point
create_visible un_ignored model key parameter pd =
    let pd1 = fix_operations key pd in
    let events = create_event parameter pd1.operations in
    let (pd2, data_points) = create_data_point un_ignored model key parameter pd1 in
    if key == master && not un_ignored
    then (pd, [])
    else if is_skipped un_ignored parameter pd1.operations pd1.flags
    then (pd1, events)
    else if is_wanted un_ignored parameter
    then (pd2, events ++ data_points)
    else (pd1, events)

unfoldable pub create_parameter :
    Tables
    → VisibilityCache
    → Text
    → ChannelNo
    → ParamsetKey
    → Text
    → ParameterData
    → ParameterData × List Item
unfolding create_visible parameter_is_ignored parameter_is_un_ignored
create_parameter t v model channel_no key parameter pd =
    if parameter_is_ignored t model channel_no key parameter v
    then (pd, [])
    else create_visible (parameter_is_un_ignored t model channel_no key parameter false v) model key
        parameter pd

unfoldable pub create_paramset :
    Tables
    → VisibilityCache
    → Text
    → ChannelNo
    → ParamsetKey
    → Description
    → Description × List Item
unfolding create_parameter
create_paramset t v model channel_no key [] = ([], [])
create_paramset t v model channel_no key ((parameter, pd) ∷ rest) =
    let (pd', items) = create_parameter t v model channel_no key parameter pd in
    let (rest', more) = create_paramset t v model channel_no key rest in
    ((parameter, pd') ∷ rest', items ++ more)

unfoldable pub create_channel :
    Tables → VisibilityCache → Text → ChannelNo → Paramsets → Paramsets × List Item
unfolding create_paramset is_relevant_paramset
create_channel t v model channel_no [] = ([], [])
create_channel t v model channel_no ((key, description) ∷ rest) =
    let (description', items) = create_paramset t v model channel_no key description in
    let (rest', more) = create_channel t v model channel_no rest in
    if is_relevant_paramset model key channel_no v
    then ((key, description') ∷ rest', items ++ more)
    else ((key, description) ∷ rest', more)

-- `create_data_points_and_events`, over the channels of a device
unfoldable pub create_data_points_and_events :
    Tables → VisibilityCache → Text → List (ChannelNo × Paramsets) → List Paramsets × List Item
unfolding create_channel
create_data_points_and_events t v model [] = ([], [])
create_data_points_and_events t v model ((channel_no, paramsets) ∷ rest) =
    let (paramsets', items) = create_channel t v model channel_no paramsets in
    let (rest', more) = create_data_points_and_events t v model rest in
    (paramsets' ∷ rest', items ++ more)
