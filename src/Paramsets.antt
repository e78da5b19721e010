-- ===== src/Paramsets.antt =====
-- `ParamsetDescriptionCache` of hahomematic/caches/persistent.py. Its file is in PersistentCache. A
-- method that can raise a ValueError, for an address that is no address, returns `false` beside the
-- state that it left. A set of channel numbers is a list without repetitions.
pub mod Lookups
pub mod Index
use hahomematic.Base.{
  ℕ, Bool, true, false, not, ◌&&◌, Option, none, some, List, [], ◌∷◌, ◌++◌, ◌==◌, list_eq, nat_eq,
  pair_eq, option_eq, if◌then◌else◌, ltb, length, contains, add,
}
use hahomematic.Base.Dict.{Dict, get_or, lookup, has, insert, erase, keys, values}
use hahomematic.Base.Text.{Text, has_char, starts_with}
use hahomematic.Base.Double.{ℤ, ℤ_eq}
use hahomematic.Address.{colon, get_device_address, get_split_channel_address}
use hahomematic.Const.{ParamsetKey, paramset_key_eq}

-- The keys TYPE, VALUE_LIST, OPERATIONS and FLAGS; a missing list is empty.
pub record ParameterData : Type 0 where
  pub pd_type : Text
  pub pd_value_list : List Text
  pub operations : ℕ
  pub flags : ℕ

abbrev pub Description : Type 0
Description = Dict Text ParameterData

abbrev pub Paramsets : Type 0
Paramsets = Dict ParamsetKey Description

abbrev pub AddressIndex : Type 0
AddressIndex = Dict (Text × Text) (List (Option ℤ))

pub record ParamsetDescriptionCache : Type 0 where
  pub raw_paramset_descriptions : Dict Text (Dict Text Paramsets)
  pub address_parameter_cache : AddressIndex

unfoldable pub empty : ParamsetDescriptionCache
empty = record { raw_paramset_descriptions = []; address_parameter_cache = [] }

abbrev pub of_interface : Text → ParamsetDescriptionCache → Dict Text Paramsets
of_interface i c = get_or [] (lookup i c.raw_paramset_descriptions)

unfoldable pub get_channel_paramset_descriptions :
    Text → Text → ParamsetDescriptionCache → Paramsets
get_channel_paramset_descriptions i channel_address c =
    get_or [] (lookup channel_address (of_interface i c))

unfoldable pub get_paramset_keys : Text → Text → ParamsetDescriptionCache → List ParamsetKey
unfolding keys get_channel_paramset_descriptions
get_paramset_keys i channel_address c = keys (get_channel_paramset_descriptions i channel_address c)

unfoldable pub get_paramset_key_descriptions :
    Text → Text → ParamsetKey → ParamsetDescriptionCache → Description
unfolding get_channel_paramset_descriptions
get_paramset_key_descriptions i channel_address key c =
    get_or [] (lookup key (get_channel_paramset_descriptions i channel_address c))

unfoldable pub get_parameter_data :
    Text → Text → ParamsetKey → Text → ParamsetDescriptionCache → Option ParameterData
unfolding get_paramset_key_descriptions
get_parameter_data i channel_address key parameter c =
    lookup parameter (get_paramset_key_descriptions i channel_address key c)

unfoldable pub has_interface_id : Text → ParamsetDescriptionCache → Bool
has_interface_id i c = has i c.raw_paramset_descriptions

-- `is_in_multiple_channels`; `none` is the ValueError of the address
unfoldable pub is_in_multiple_channels : Text → Text → ParamsetDescriptionCache → Option Bool
unfolding get_device_address
is_in_multiple_channels channel_address parameter c =
    if has_char colon channel_address
    then elim (get_device_address channel_address) [
      | none ↦ none
      | some device_address ↦ some (
          ltb 1 (length (get_or [] (lookup (device_address, parameter) c.address_parameter_cache))))
    ]
    else some false

-- The inner loop of `get_channel_addresses_by_paramset_key`.
unfoldable pub append_channel :
    Text → List ParamsetKey → Dict ParamsetKey (List Text) → Dict ParamsetKey (List Text)
append_channel channel_address [] found = found
append_channel channel_address (key ∷ rest) found =
    append_channel channel_address rest
      (insert key (get_or [] (lookup key found) ++ (channel_address ∷ [])) found)

unfoldable pub collect_channels :
    Text → Dict Text Paramsets → Dict ParamsetKey (List Text) → Dict ParamsetKey (List Text)
unfolding append_channel starts_with keys
collect_channels device_address [] found = found
collect_channels device_address ((channel_address, paramsets) ∷ rest) found =
    collect_channels device_address rest (
      if starts_with channel_address device_address
      then append_channel channel_address (keys paramsets) found
      else found)

-- `none` is the KeyError of an unknown interface.
unfoldable pub get_channel_addresses_by_paramset_key :
    Text → Text → ParamsetDescriptionCache → Option (Dict ParamsetKey (List Text))
unfolding collect_channels
get_channel_addresses_by_paramset_key i device_address c =
    elim (lookup i c.raw_paramset_descriptions) [
      | none ↦ none
      | some channels ↦ some (collect_channels device_address channels [])
    ]

-- The innermost loop of `_add_address_parameter`, over the parameters of a paramset.
unfoldable pub note_parameters : Text → Option ℤ → List Text → AddressIndex → AddressIndex
note_parameters device channel_no [] index = index
note_parameters device channel_no (p ∷ rest) index =
    note_parameters device channel_no rest
      (insert (device, p) (add channel_no (get_or [] (lookup (device, p) index))) index)

-- An empty paramset adds nothing, as its loop does.
unfoldable pub note_paramsets : Text → Option ℤ → List Description → AddressIndex → AddressIndex
unfolding keys
note_paramsets device channel_no [] index = index
note_paramsets device channel_no (d ∷ rest) index =
    note_paramsets device channel_no rest (note_parameters device channel_no (keys d) index)

-- `_add_address_parameter`
unfoldable pub add_address_parameter : Text → List Description → AddressIndex → AddressIndex × Bool
unfolding get_split_channel_address
add_address_parameter channel_address paramsets index =
    elim (get_split_channel_address channel_address) [
      | none ↦ (index, false)
      | some (device, channel_no) ↦ (note_paramsets device channel_no paramsets index, true)
    ]

-- `add`: the three tests put the dicts there that are missing.
unfoldable pub add_paramset :
    Text
    → Text
    → ParamsetKey
    → Description
    → ParamsetDescriptionCache
    → ParamsetDescriptionCache × Bool
add_paramset i channel_address key description c =
    let paramsets =
      insert key description (get_channel_paramset_descriptions i channel_address c) in
    let (index, fine) =
      add_address_parameter channel_address (description ∷ []) c.address_parameter_cache in
    (
      record c {
        raw_paramset_descriptions =
            insert i (insert channel_address paramsets (of_interface i c))
              c.raw_paramset_descriptions;
        address_parameter_cache = index;
      },
      fine,
    )

unfoldable pub remove_channels : List Text → Dict Text Paramsets → Dict Text Paramsets
remove_channels [] channels = channels
remove_channels (a ∷ rest) channels = remove_channels rest (erase a channels)

-- `remove_device`, with the interface and the channels of the device. It leaves the index alone.
unfoldable pub remove_paramsets :
    Text → List Text → ParamsetDescriptionCache → ParamsetDescriptionCache
remove_paramsets i channels c = record c {
  raw_paramset_descriptions = elim (lookup i c.raw_paramset_descriptions) [
    | none ↦ c.raw_paramset_descriptions
    | some known ↦ insert i (remove_channels channels known) c.raw_paramset_descriptions
  ];
}

-- The loops of `_init_address_parameter_list`; a ValueError ends both.
unfoldable pub index_channels : Dict Text Paramsets → AddressIndex → AddressIndex × Bool
unfolding values
index_channels [] index = (index, true)
index_channels ((channel_address, paramsets) ∷ rest) index =
    let (index', fine) = add_address_parameter channel_address (values paramsets) index in
    let others = index_channels rest index' in if fine then others else (index', false)

unfoldable pub index_interfaces :
    Dict Text (Dict Text Paramsets) → AddressIndex → AddressIndex × Bool
index_interfaces [] index = (index, true)
index_interfaces ((i, channels) ∷ rest) index =
    let (index', fine) = index_channels channels index in
    let others = index_interfaces rest index' in if fine then others else (index', false)
