-- ===== src/Tests/Visibility.antt =====
-- The theorems about hahomematic/caches/visibility.py at concrete lines.
use hahomematic.Base.{◌≡◌, refl, true, some, [], ◌∷◌, list_eq, nat_eq}
use hahomematic.Base.Text.{Text, codes, lower, has_char, starts_with, to_lower}
use hahomematic.Base.Double.{pos}
use hahomematic.Const.{values, paramset_key_eq}
use hahomematic.Visibility.{number, channel_no_eq, VisibilityCache, Tables, parameter_is_un_ignored}
use hahomematic.Visibility.Lines.{add_line_to_cache, channel_of}
use hahomematic.Visibility.Files.{line_of, line_of-un_ignored}

abbrev no_lines : VisibilityCache
no_lines = record {
  custom_un_ignore_values_parameters = codes "LEVEL" ∷ [];
  custom_un_ignore_complex = [];
  ignore_custom = [];
  relevant_master_paramsets_by_device = [];
}

abbrev few_tables : Tables
few_tables = record {
  ignored_parameters = codes "AES_KEY" ∷ [];
  wildcards_end = codes "_OVERFLOW" ∷ [];
  wildcards_start = codes "ADJUSTING_" ∷ [];
  required_parameters = [];
  hidden_parameters = codes "CONFIG_PENDING" ∷ [];
  ignore_parameters_by_device_lower = [];
  ignore_devices_for_data_point_events_lower = [];
  un_ignore_parameters_by_device_lower = [];
  accept_parameter_only_on_channel = [];
  un_ignore_parameters_by_device_paramset_key = [];
}

abbrev model : Text
model = codes "HmIP-eTRV"

abbrev parameter : Text
parameter = codes "VALVE_STATE"

line_of-un_ignored_example :
    (c' : VisibilityCache) × (add_line_to_cache
        (line_of parameter (codes "VALUES") model (codes "all"))
        no_lines
      ≡ some c')
    × (parameter_is_un_ignored few_tables model (number (pos 7)) values parameter true c' ≡ true)
unfolding has_char lower to_lower starts_with channel_of
line_of-un_ignored_example =
    line_of-un_ignored few_tables parameter (codes "VALUES") model (codes "all") model
      (number (pos 7)) values true no_lines refl refl refl refl refl refl refl refl refl refl refl
      refl refl refl
