-- ===== src/Tests/Devices.antt =====
-- The theorems about the caches of hahomematic/caches/persistent.py at concrete devices.
use hahomematic.Base.{◌≡◌, refl, true, [], ◌∷◌, list_eq, nat_eq, keep, contains}
use hahomematic.Base.Text.{Text, codes, has_char, split, strip}
use hahomematic.Base.Number.{int_of}
use hahomematic.Base.Dict.{Dict, lookup, insert, has}
use hahomematic.Address.{unpack, channel_part}
use hahomematic.Const.{values, paramset_key_eq}
use hahomematic.DeviceDescriptions.{
  DeviceDescription, DeviceDescriptionCache, empty, find_device_description, add_device_description,
  remove_device, remove_addresses, remove_address, convert_device_descriptions,
  convert_device_description, note_address, convert_interfaces, get_raw_device_descriptions,
  interface_addresses, get_device_descriptions,
}
use hahomematic.DeviceDescriptions.Index.{IsSynced, find-reload, add_device_description-IsSynced}
use hahomematic.Paramsets.{
  ParameterData, ParamsetDescriptionCache, add_paramset, add_address_parameter,
  get_paramset_key_descriptions, get_channel_paramset_descriptions,
}
use hahomematic.Paramsets.Index.{IsIndexed, add_paramset-IsIndexed}

abbrev rf : Text
rf = codes "ccu-BidCos-RF"

abbrev valve : DeviceDescription
valve = record {
  address = codes "VCU1";
  model = codes "HM-CC-RT-DN";
  children = codes "VCU1:1" ∷ [];
}

empty-IsSynced : IsSynced empty
unfolding empty find_device_description lookup get_raw_device_descriptions
empty-IsSynced = record { at_address = λ i a. refl }

abbrev one_device : DeviceDescriptionCache
one_device = (add_device_description rf valve empty).0

one_device-IsSynced : IsSynced one_device
one_device-IsSynced = add_device_description-IsSynced rf valve empty empty-IsSynced

find-reload_example :
    find_device_description rf
      (codes "VCU1")
      (convert_interfaces one_device.raw_device_descriptions empty).0
    ≡ find_device_description rf (codes "VCU1") one_device
unfolding add_device_description convert_interfaces convert_device_descriptions
    convert_device_description note_address remove_device remove_addresses remove_address
    get_raw_device_descriptions interface_addresses get_device_descriptions lookup insert has keep
    contains has_char empty
find-reload_example = find-reload rf (codes "VCU1") one_device one_device-IsSynced (refl, tt) refl

abbrev mode : ParameterData
mode = record { pd_type = codes "INTEGER"; pd_value_list = []; operations = 5; flags = 1 }

abbrev no_paramsets : ParamsetDescriptionCache
no_paramsets = record { raw_paramset_descriptions = []; address_parameter_cache = [] }

abbrev described : Dict Text ParameterData
described = (codes "STATE", mode) ∷ []

abbrev one_channel : ParamsetDescriptionCache
one_channel = (add_paramset rf (codes "VCU1:1") values described no_paramsets).0

abbrev two_channels : ParamsetDescriptionCache
two_channels = (add_paramset rf (codes "VCU1:2") values described one_channel).0

no_paramsets-IsIndexed : IsIndexed no_paramsets
unfolding get_paramset_key_descriptions lookup has get_channel_paramset_descriptions
no_paramsets-IsIndexed = record { at_channel = λ i ch device p n k split there. cc (there) }

first_added : (add_paramset rf (codes "VCU1:1") values described no_paramsets).1 ≡ true
unfolding add_paramset add_address_parameter has_char unpack split channel_part int_of strip
first_added = refl

add_paramset-IsIndexed_example : IsIndexed one_channel
add_paramset-IsIndexed_example =
    add_paramset-IsIndexed rf (codes "VCU1:1") values described no_paramsets no_paramsets-IsIndexed
      first_added
