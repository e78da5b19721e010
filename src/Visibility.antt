-- ===== src/Visibility.antt =====
-- `ParameterVisibilityCache` of hahomematic/caches/visibility.py: what the lines of the un-ignore
-- file add, and which parameters are ignored, un-ignored or hidden. The module's tables, as the
-- class keeps them, are a record that every question takes.
pub mod Lines
pub mod Entries
pub mod Files
pub mod Parts
use hahomematic.Base.{
  ◌≡◌, ◌↔◌, refl, ℕ, Bool, true, false, not, ◌&&◌, ◌||◌, Option, none, some, List, [], ◌∷◌, ◌++◌,
  arith, Eq, ◌==◌, list_eq, nat_eq, list_beq_iff, if◌then◌else◌, contains, add, any, all,
}
use hahomematic.Base.Dict.{Dict, get_or, lookup, insert, keys}
use hahomematic.Base.Text.{Text, codes, lower, starts_with, ends_with, is_digit}
use hahomematic.Base.Double.{ℤ, int_eq, int_eq_iff}
use hahomematic.Base.Number.{int_of}
use hahomematic.Const.{ParamsetKey, master, values, paramset_key_eq}

-- A channel is a number, a word, or missing (`None`).
pub data ChannelNo : Type 0 where
  number : ℤ → ChannelNo
  word : Text → ChannelNo
  no_channel : ChannelNo

abbrev pub channel_no_beq : ChannelNo → ChannelNo → Bool
channel_no_beq (number m) (number n) = int_eq m n
channel_no_beq (word s) (word t) = s == t
channel_no_beq no_channel no_channel = true
channel_no_beq _ _ = false

pub channel_no_beq_iff : (a b : ChannelNo) → (channel_no_beq a b ≡ true) ↔ (a ≡ b)
channel_no_beq_iff (number m) (number n) = ground (arith, int_eq_iff m n)
channel_no_beq_iff (number m) (word t) = ground arith
channel_no_beq_iff (number m) no_channel = ground arith
channel_no_beq_iff (word s) (number n) = ground arith
channel_no_beq_iff (word s) (word t) = ground (arith, list_beq_iff s t)
channel_no_beq_iff (word s) no_channel = ground arith
channel_no_beq_iff no_channel b = ground arith

instance abbrev pub channel_no_eq : Eq ChannelNo
channel_no_eq = record { test = channel_no_beq; test_iff = channel_no_beq_iff }

abbrev pub ByModel : Type 0
ByModel = Dict Text (Dict ChannelNo (Dict ParamsetKey (List Text)))

pub record Tables : Type 0 where
  pub ignored_parameters : List Text
  pub wildcards_end : List Text
  pub wildcards_start : List Text
  pub required_parameters : List Text
  pub hidden_parameters : List Text
  pub ignore_parameters_by_device_lower : Dict Text (List Text)
  pub ignore_devices_for_data_point_events_lower : Dict Text (List Text)
  pub un_ignore_parameters_by_device_lower : Dict Text (List Text)
  pub accept_parameter_only_on_channel : Dict Text ℤ
  pub un_ignore_parameters_by_device_paramset_key : ByModel

pub record VisibilityCache : Type 0 where
  pub custom_un_ignore_values_parameters : List Text
  pub custom_un_ignore_complex : ByModel
  pub ignore_custom : List Text
  pub relevant_master_paramsets_by_device : Dict Text (List ChannelNo)

-- `UN_IGNORE_WILDCARD`
abbrev pub wildcard : Text
wildcard = codes "all"

unfoldable pub parameters_at : Text → ChannelNo → ParamsetKey → ByModel → List Text
parameters_at model channel_no key d =
    get_or [] (lookup key (get_or [] (lookup channel_no (get_or [] (lookup model d)))))

-- support.py: `element_matches_key` with elements and without a search key
unfoldable pub element_matches : Bool → List Text → Text → Bool
unfolding any lower starts_with
element_matches do_wildcard_search elements compare_with =
    any
      (λ e.
        if do_wildcard_search
        then starts_with (lower compare_with) (lower e)
        else lower compare_with == lower e)
      elements

-- support.py: `_get_search_key`
unfoldable pub get_search_key : List Text → Text → Option Text
unfolding starts_with
get_search_key [] search_key = none
get_search_key (e ∷ rest) search_key =
    let other = get_search_key rest search_key in if starts_with search_key e then some e else other

-- support.py: `element_matches_key` with a dict and a search key; with no key that matches, the
-- elements are the keys of the dict.
unfoldable pub element_matches_key : Bool → Dict Text (List Text) → Text → Text → Bool
unfolding keys
element_matches_key do_wildcard_search elements search_key compare_with =
    elim (get_search_key (keys elements) search_key) [
      | none ↦ element_matches do_wildcard_search (keys elements) compare_with
      | some key ↦ element_matches do_wildcard_search (get_or [] (lookup key elements)) compare_with
    ]

-- `_get_value_from_dict_by_wildcard_key`: the test is for a key that begins with the model.
unfoldable pub value_by_wildcard_key : Dict Text (List Text) → Text → Option (List Text)
unfolding lower starts_with
value_by_wildcard_key [] compare_with = none
value_by_wildcard_key ((key, value) ∷ rest) compare_with =
    let other = value_by_wildcard_key rest compare_with in
    if starts_with (lower key) (lower compare_with) then some value else other

unfoldable pub model_is_ignored : Text → VisibilityCache → Bool
model_is_ignored model c = element_matches true c.ignore_custom (lower model)

unfoldable pub is_at : Text → ChannelNo → ParamsetKey → Text → VisibilityCache → Bool
unfolding parameters_at contains
is_at model channel_no key parameter c =
    contains parameter (parameters_at model channel_no key c.custom_un_ignore_complex)

-- The loop over the search matrix.
unfoldable pub custom_un_ignored : Text → ChannelNo → ParamsetKey → Text → VisibilityCache → Bool
custom_un_ignored model_l channel_no key parameter c =
    is_at model_l channel_no key parameter c
    || (key == values
        && (is_at model_l (word wildcard) key parameter c
            || is_at wildcard channel_no key parameter c
            || is_at wildcard (word wildcard) key parameter c))

-- `_parameter_is_un_ignored`
unfoldable pub is_un_ignored :
    Tables → Text → ChannelNo → ParamsetKey → Text → Bool → VisibilityCache → Bool
unfolding lower contains
is_un_ignored t model channel_no key parameter custom_only c =
    (key == values && contains parameter c.custom_un_ignore_values_parameters)
    || custom_un_ignored (lower model) channel_no key parameter c
    || (not custom_only
        && contains parameter (
            get_or [] (value_by_wildcard_key t.un_ignore_parameters_by_device_lower (lower model))))

-- What the first model of the table that the model begins with has at the channel.
unfoldable pub relevant_parameters : Tables → Text → ChannelNo → ParamsetKey → Option (List Text)
relevant_parameters t model_l channel_no key =
    let table = t.un_ignore_parameters_by_device_paramset_key in
    elim (get_search_key (keys table) model_l) [
      | none ↦ none
      | some dt_short ↦ some (parameters_at dt_short channel_no key table)
    ]

unfoldable pub parameter_is_un_ignored :
    Tables → Text → ChannelNo → ParamsetKey → Text → Bool → VisibilityCache → Bool
unfolding relevant_parameters
parameter_is_un_ignored t model channel_no key parameter custom_only c =
    (not custom_only
      && contains parameter (get_or [] (relevant_parameters t (lower model) channel_no key)))
    || is_un_ignored t model channel_no key parameter custom_only c

-- Whether a parameter of VALUES that is not un-ignored is ignored.
unfoldable pub values_ignored : Tables → Text → ChannelNo → Text → Bool
unfolding ends_with element_matches_key
values_ignored t model_l channel_no parameter =
    ((contains parameter t.ignored_parameters
        || any (ends_with parameter) t.wildcards_end
        || any (starts_with parameter) t.wildcards_start)
      && not (contains parameter t.required_parameters))
    || element_matches true (get_or [] (lookup parameter t.ignore_parameters_by_device_lower))
        model_l
    || element_matches_key false t.ignore_devices_for_data_point_events_lower model_l parameter
    || elim (lookup parameter t.accept_parameter_only_on_channel) [
      | none ↦ false
      | some n ↦ not (number n == channel_no)
    ]

unfoldable pub parameter_is_ignored :
    Tables → Text → ChannelNo → ParamsetKey → Text → VisibilityCache → Bool
unfolding parameter_is_un_ignored values_ignored
parameter_is_ignored t model channel_no values parameter c =
    not (parameter_is_un_ignored t model channel_no values parameter false c)
    && values_ignored t (lower model) channel_no parameter
parameter_is_ignored t model channel_no master parameter c =
    not (
      contains parameter (parameters_at (lower model) channel_no master c.custom_un_ignore_complex))
    && elim (relevant_parameters t (lower model) channel_no master) [
      | none ↦ false
      | some parameters ↦ not (contains parameter parameters)
    ]
parameter_is_ignored t model channel_no _ parameter c = false

unfoldable pub parameter_is_hidden :
    Tables → Text → ChannelNo → ParamsetKey → Text → VisibilityCache → Bool
unfolding is_un_ignored
parameter_is_hidden t model channel_no key parameter c =
    contains parameter t.hidden_parameters
    && not (is_un_ignored t model channel_no key parameter false c)

abbrev relevant_at : ChannelNo → Text → Dict Text (List ChannelNo) → Bool
relevant_at channel_no model [] = false
relevant_at channel_no model ((d_type, channel_nos) ∷ rest) =
    (contains channel_no channel_nos
      && (not (d_type == []) && element_matches true (d_type ∷ []) model))
    || relevant_at channel_no model rest

unfoldable pub is_relevant_paramset : Text → ParamsetKey → ChannelNo → VisibilityCache → Bool
is_relevant_paramset model values channel_no c = true
is_relevant_paramset model master channel_no c =
    relevant_at channel_no model c.relevant_master_paramsets_by_device
is_relevant_paramset model _ channel_no c = false
