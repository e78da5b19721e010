-- ===== src/Tests/Creation.antt =====
-- The theorems about the creation of data points at a concrete device.
use hahomematic.Base.{◌≡◌, refl, true, List, [], ◌∷◌, list_eq, nat_eq, add}
use hahomematic.Base.Text.{Text, codes, has_char, starts_with, strip}
use hahomematic.Base.Dict.{lookup}
use hahomematic.Base.Double.{pos}
use hahomematic.Const.{values}
use hahomematic.Paramsets.{ParameterData, Paramsets}
use hahomematic.Visibility.{
  Tables, VisibilityCache, ChannelNo, number, get_search_key, is_un_ignored, custom_un_ignored,
  is_at, value_by_wildcard_key,
}
use hahomematic.Visibility.Lines.{add_line_to_cache, add_details, get_un_ignore_line_details}
use hahomematic.Creation.{create_data_points_and_events, create_parameter, create_visible}
use hahomematic.Creation.Again.{numbered, create_data_points_and_events-again}
use hahomematic.Creation.Keeping.{has_data_point, create_parameter-add_line_to_cache}

abbrev tables : Tables
tables = record {
  ignored_parameters = [];
  wildcards_end = [];
  wildcards_start = [];
  required_parameters = [];
  hidden_parameters = [];
  ignore_parameters_by_device_lower = [];
  ignore_devices_for_data_point_events_lower = [];
  un_ignore_parameters_by_device_lower = [];
  accept_parameter_only_on_channel = [];
  un_ignore_parameters_by_device_paramset_key = [];
}

abbrev cache : VisibilityCache
cache = record {
  custom_un_ignore_values_parameters = [];
  custom_un_ignore_complex = [];
  ignore_custom = [];
  relevant_master_paramsets_by_device = [];
}

abbrev model : Text
model = codes "HmIP-SWDO"

-- the state of a window, which is told by two words and becomes a BOOL
abbrev state : ParameterData
state = record {
  pd_type = codes "ENUM";
  pd_value_list = codes "CLOSED" ∷ codes "OPEN" ∷ [];
  operations = 5;
  flags = 1;
}

abbrev channels : List (ChannelNo × Paramsets)
channels = (number (pos 1), (values, (codes "STATE", state) ∷ []) ∷ []) ∷ []

create_data_points_and_events-again_example :
    let made = create_data_points_and_events tables cache model channels in
    create_data_points_and_events tables cache model (numbered tables cache model channels made.0)
    ≡ made
create_data_points_and_events-again_example =
    create_data_points_and_events-again tables cache model channels

abbrev un_ignored : VisibilityCache
un_ignored = record cache { custom_un_ignore_values_parameters = codes "STATE" ∷ [] }

create_parameter-add_line_to_cache_example :
    has_data_point
      (create_parameter tables un_ignored model (number (pos 1)) values (codes "STATE") state).1
    ≡ true
unfolding add_line_to_cache get_un_ignore_line_details create_parameter create_visible has_char
    starts_with strip add_details add get_search_key is_un_ignored custom_un_ignored is_at lookup
    value_by_wildcard_key
create_parameter-add_line_to_cache_example =
    create_parameter-add_line_to_cache (codes "STATE") tables cache un_ignored model
      (number (pos 1)) (codes "STATE") state refl refl
