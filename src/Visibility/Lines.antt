-- ===== src/Visibility/Lines.antt =====
-- The lines of the un-ignore file: `_add_line_to_cache`, `_get_un_ignore_line_details` and
-- `_add_complex_un_ignore_entry` of hahomematic/caches/visibility.py. The ValueError of a name that
-- is no paramset key is `none` around what the line changes.
use hahomematic.Base.{
  ℕ, zero, suc, Bool, true, false, ◌&&◌, Option, none, some, List, [], ◌∷◌, ◌++◌, ◌==◌, list_eq,
  nat_eq, if◌then◌else◌, add, all,
}
use hahomematic.Base.Dict.{get_or, lookup, insert}
use hahomematic.Base.Text.{Text, codes, lower, strip, split, has_char, starts_with, is_digit}
use hahomematic.Base.Number.{int_of}
use hahomematic.Const.{ParamsetKey, link, master, service, values, paramset_key_eq}
use hahomematic.Visibility.{
  ChannelNo, number, word, no_channel, channel_no_eq, ByModel, VisibilityCache, wildcard,
  parameters_at,
}

pub data LineDetails : Type 0 where
  no_details : LineDetails
  plain : Text → LineDetails
  entry : Text → ChannelNo → Text → ParamsetKey → LineDetails
  wrong_key : LineDetails

-- `ParamsetKey(…)`
abbrev pub paramset_key_of : Text → Option ParamsetKey
paramset_key_of s =
    if s == codes "LINK"
    then some link
    else if s == codes "MASTER"
    then some master
    else if s == codes "SERVICE"
    then some service
    else if s == codes "VALUES"
    then some values
    else none

unfoldable pub channel_of : Text → ChannelNo
unfolding all is_digit int_of
channel_of [] = no_channel
channel_of (c ∷ cs) =
    if all is_digit (c ∷ cs)
    then elim (int_of (c ∷ cs)) [ none ↦ word (c ∷ cs) | some n ↦ number n ]
    else word (c ∷ cs)

-- The last tests, for a line that has an `@`.
unfoldable pub to_details : Text → ParamsetKey → Text → ChannelNo → LineDetails
to_details parameter key model channel_no =
    if model == wildcard && (channel_no == word wildcard && key == values)
    then plain parameter
    else entry model channel_no parameter key

unfoldable pub channel_details : Text → ParamsetKey → List Text → LineDetails
unfolding channel_of to_details lower
channel_details parameter key (model ∷ channel ∷ []) =
    to_details parameter key (lower model) (channel_of channel)
channel_details parameter key _ = no_details

unfoldable pub parameter_details : List Text → Text → LineDetails
parameter_details (parameter ∷ key ∷ []) channel_data = elim (paramset_key_of key) [
  | none ↦ wrong_key
  | some k ↦ channel_details parameter k (split b':' channel_data)
]
parameter_details _ channel_data = no_details

-- A part without a colon is one part of its split, which no clause above takes.
unfoldable pub at_details : List Text → LineDetails
at_details (data0 ∷ data1 ∷ []) = parameter_details (split b':' data0) data1
at_details _ = no_details

-- `_get_un_ignore_line_details`; an empty parameter is the plain detail that is falsy
unfoldable pub get_un_ignore_line_details : Text → LineDetails
unfolding has_char split
get_un_ignore_line_details line =
    if has_char b'@' line
    then at_details (split b'@' line)
    else if has_char b':' line
    then no_details
    else plain line

unfoldable pub insert_parameter : Text → ChannelNo → ParamsetKey → Text → ByModel → ByModel
unfolding parameters_at
insert_parameter model channel_no key parameter d =
    let channels = get_or [] (lookup model d) in
    let paramsets = get_or [] (lookup channel_no channels) in
    let parameters = add parameter (parameters_at model channel_no key d) in
    insert model (insert channel_no (insert key parameters paramsets) channels) d

abbrev pub is_word : ChannelNo → Bool
is_word (word s) = true
is_word _ = false

-- `_add_complex_un_ignore_entry`
unfoldable pub add_complex_un_ignore_entry :
    Text → ChannelNo → ParamsetKey → Text → VisibilityCache → VisibilityCache
add_complex_un_ignore_entry model channel_no key parameter c =
    let added : VisibilityCache = record c {
      custom_un_ignore_complex =
          insert_parameter model channel_no key parameter c.custom_un_ignore_complex;
    } in
    let relevant =
      insert model (add channel_no (get_or [] (lookup model c.relevant_master_paramsets_by_device)))
        c.relevant_master_paramsets_by_device in
    if key == master
    then (if is_word channel_no
        then c
        else if model == wildcard
        then record c { relevant_master_paramsets_by_device = relevant }
        else record added { relevant_master_paramsets_by_device = relevant })
    else added

unfoldable pub add_details : LineDetails → VisibilityCache → Option VisibilityCache
add_details no_details c = some c
add_details wrong_key c = none
add_details (plain []) c = some c
add_details (plain (p ∷ ps)) c = some (record c {
  custom_un_ignore_values_parameters = add (p ∷ ps) c.custom_un_ignore_values_parameters;
})
add_details (entry model channel_no parameter key) c =
    some (add_complex_un_ignore_entry model channel_no key parameter c)

-- `s.replace("ignore_", "")` of what follows: `skip` characters of a match are still to be left out
unfoldable pub drop_ignore : ℕ → Text → Text
unfolding starts_with
drop_ignore skip [] = []
drop_ignore zero (x ∷ xs) =
    let kept = drop_ignore 0 xs in
    let gone = drop_ignore 6 xs in if starts_with (x ∷ xs) (codes "ignore_") then gone else x ∷ kept
drop_ignore (suc skip) (x ∷ xs) = drop_ignore skip xs

-- `_add_line_to_cache`
unfoldable pub add_line_to_cache : Text → VisibilityCache → Option VisibilityCache
add_line_to_cache line c =
    if strip line == []
    then some c
    else if starts_with (lower line) (codes "ignore_")
    then some (record c { ignore_custom = c.ignore_custom ++ (drop_ignore 0 (lower line) ∷ []) })
    else add_details (get_un_ignore_line_details line) c
