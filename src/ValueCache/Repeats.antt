-- ===== src/ValueCache/Repeats.antt =====
-- Reading a value twice through `_ValueCache` (hahomematic/model/device.py).
use hahomematic.Base.{
  ℕ, ◌≡◌, refl, true, false, Option, none, some, [], ◌∷◌, arith, ◌==◌, list_eq, nat_eq,
  list_beq_iff,
}
use hahomematic.Base.Dict.{Dict, lookup, insert, lookup-insert}
use hahomematic.Base.Text.{Text}
use hahomematic.Base.Value.{Value, value_eq}
use hahomematic.Clock.{max_cache_age, changed_within_seconds}
use hahomematic.Const.{ParamsetKey, values, paramset_key_eq, dp_key_eq, dp_key_beq_iff}
use hahomematic.CentralData.{no_cache_entry}
use hahomematic.CommandCache.Commands.{IsDict}
use hahomematic.ValueCache.{
  CacheEntry, ValueCache, is_valid, value_key, get_device_entry, get_value_from_cache, add_entries,
  or_marked, get_value,
}

entry-other :
    (address : Text) (key : ParamsetKey) (now : ℕ) (d : Dict Text Value) (c : ValueCache) (p : Text)
    → lookup p d ≡ none
    → lookup (value_key address key p c) (add_entries address key now d c).device_cache
      ≡ lookup (value_key address key p c) c.device_cache
unfolding add_entries lookup
entry-other address key now [] c p h = refl
entry-other address key now ((q, v) ∷ d) c p h =
    let k = value_key address key q c in
    let e : CacheEntry = record { value = v; refresh_at = now } in
    ground (
      arith,
      h,
      entry-other address key now d (record c { device_cache = insert k e c.device_cache }) p,
      lookup-insert (value_key address key p c) k e c.device_cache,
      list_beq_iff q p,
      dp_key_beq_iff k (value_key address key p c),
    )

entry-add_entries :
    (address : Text) (key : ParamsetKey) (now : ℕ) (d : Dict Text Value) (c : ValueCache) (p : Text)
    (v : Value)
    → IsDict d
    → lookup p d ≡ some v
    → lookup (value_key address key p c) (add_entries address key now d c).device_cache
      ≡ some (record { value = v; refresh_at = now })
unfolding add_entries lookup
entry-add_entries address key now [] c p v u h = ground (arith, h)
entry-add_entries address key now ((q, w) ∷ d) c p v u h =
    let k = value_key address key q c in
    let e : CacheEntry = record { value = w; refresh_at = now } in
    let c' : ValueCache = record c { device_cache = insert k e c.device_cache } in
    ground (
      arith,
      h,
      u,
      entry-add_entries address key now d c' p v,
      entry-other address key now d c' p,
      lookup-insert (value_key address key p c) k e c.device_cache,
      list_beq_iff q p,
      dp_key_beq_iff k (value_key address key p c),
    )

same_ids :
    (address : Text) (key : ParamsetKey) (now : ℕ) (d : Dict Text Value) (c : ValueCache)
    → (add_entries address key now d c).interface_id ≡ c.interface_id
unfolding add_entries
same_ids address key now [] c = refl
same_ids address key now ((q, w) ∷ d) c = same_ids address key now d _

-- If a parameter of another paramset than VALUES was read from the client, or its reading raised an
-- exception, then a second reading, while the first is recent, does not call the client again and
-- has the same result.
pub get_value-twice :
    (address parameter : Text) (key : ParamsetKey) (now later : ℕ → ℕ)
    (answer other : Option (Dict Text Value)) (c : ValueCache) (v : Value)
    → (key == values) ≡ false
    → IsDict (or_marked parameter answer)
    → lookup parameter (or_marked parameter answer) ≡ some v
    → value_eq v no_cache_entry ≡ false
    → changed_within_seconds (later 1) (now 2) max_cache_age ≡ true
    → let (first, (c1, called)) = get_value address key parameter true now answer c in
      let (second, (c2, again)) = get_value address key parameter false later other c1 in
      (second ≡ first) × (again ≡ false)
unfolding get_value get_value_from_cache get_device_entry is_valid
get_value-twice address parameter key now later answer other c v other_key u there real recent =
    ground (
      arith,
      entry-add_entries address key (now 2) (or_marked parameter answer) c parameter v u there,
      same_ids address key (now 2) (or_marked parameter answer) c,
      there,
      real,
      recent,
      other_key,
    )
