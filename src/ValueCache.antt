-- ===== src/ValueCache.antt =====
-- `_ValueCache` of hahomematic/model/device.py and `CacheEntry` of hahomematic/support.py, in front of
-- `CentralDataCache`. What the client returns for a parameter or for a paramset is an argument;
-- `none` is its exception.
pub mod Repeats
use hahomematic.Base.{
  ℕ, Bool, true, false, not, ◌&&◌, Option, none, some, List, [], ◌∷◌, ◌==◌, list_eq, nat_eq,
  if◌then◌else◌,
}
use hahomematic.Base.Dict.{Dict, get_or, lookup, insert}
use hahomematic.Base.Text.{Text, codes}
use hahomematic.Base.Value.{Value, null, text, value_eq}
use hahomematic.Clock.{max_cache_age, changed_within_seconds}
use hahomematic.Const.{ParamsetKey, values, paramset_key_eq, Interface, DpKey, dp_key_eq}
use hahomematic.CentralData.{CentralDataCache, no_cache_entry, get_data}

pub record CacheEntry : Type 0 where
  pub value : Value
  pub refresh_at : ℕ

pub record ValueCache : Type 0 where
  pub interface_id : Text
  pub interface : Interface
  pub device_cache : Dict DpKey CacheEntry
  pub data_cache : CentralDataCache

-- `_NO_VALUE_CACHE_ENTRY`
abbrev pub no_value_cache_entry : Value
no_value_cache_entry = text (codes "NO_VALUE_CACHE_ENTRY")

unfoldable pub is_valid : ℕ → CacheEntry → Bool
is_valid now e =
    if value_eq e.value no_cache_entry
    then false
    else changed_within_seconds now e.refresh_at max_cache_age

abbrev pub value_key : Text → ParamsetKey → Text → ValueCache → DpKey
value_key address key parameter c = record {
  interface_id = c.interface_id;
  channel_address = address;
  paramset_key = key;
  parameter = parameter;
}

-- The second part of `_get_value_from_cache`: a missing entry is as an invalid one.
unfoldable pub get_device_entry : DpKey → ℕ → Dict DpKey CacheEntry → Value
unfolding is_valid
get_device_entry key now entries = elim (lookup key entries) [
  | none ↦ no_cache_entry
  | some e ↦ if is_valid now e then e.value else no_cache_entry
]

-- `_get_value_from_cache`, with the readings of the clock for the central and the device cache
unfoldable pub get_value_from_cache :
    Text → ParamsetKey → Text → (ℕ → ℕ) → ValueCache → Value × ValueCache
unfolding get_data get_device_entry
get_value_from_cache address key parameter now c =
    let own = get_device_entry (value_key address key parameter c) (now 1) c.device_cache in
    if key == values
    then (let (global_value, d) = get_data c.interface address parameter (now 0) c.data_cache in
        let c' : ValueCache = record c { data_cache = d } in
        if value_eq global_value no_cache_entry then (own, c') else (global_value, c'))
    else (own, c)

unfoldable pub add_entries : Text → ParamsetKey → ℕ → Dict Text Value → ValueCache → ValueCache
add_entries address key now [] c = c
add_entries address key now ((p, v) ∷ rest) c = add_entries address key now rest (record c {
  device_cache =
      insert (value_key address key p c) (record { value = v; refresh_at = now }) c.device_cache;
})

-- What an entry stands for in an answer.
abbrev pub shown : Value → Value
shown v = if value_eq v no_value_cache_entry then no_cache_entry else v

-- What the client returned, or the mark for an exception.
abbrev pub or_marked : Text → Option (Dict Text Value) → Dict Text Value
or_marked parameter none = (parameter, no_value_cache_entry) ∷ []
or_marked parameter (some d) = d

-- `get_value`: the value, the caches, and whether the client was called. All entries of one answer
-- take one reading of the clock, `now 2`.
unfoldable pub get_value :
    Text
    → ParamsetKey
    → Text
    → Bool
    → (ℕ → ℕ)
    → Option (Dict Text Value)
    → ValueCache
    → Value × (ValueCache × Bool)
unfolding get_value_from_cache add_entries
get_value address key parameter direct_call now answer c =
    let (cached_value, c1) = get_value_from_cache address key parameter now c in
    let asked = if direct_call then c else c1 in
    let value_dict = or_marked parameter answer in
    if not direct_call && not (value_eq cached_value no_cache_entry)
    then (shown cached_value, (c1, false))
    else (
      shown (get_or null (lookup parameter value_dict)),
      (add_entries address key (now 2) value_dict asked, true),
    )
