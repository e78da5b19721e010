-- ===== src/CentralData.antt =====
-- `CentralDataCache` of hahomematic/caches/dynamic.py: the values that a backend sends all at once.
pub mod Loads
use hahomematic.Base.{
  ℕ, Bool, true, false, not, ◌&&◌, Option, none, some, List, [], ◌∷◌, ◌++◌, ◌==◌, list_eq, nat_eq,
  if◌then◌else◌, eqb,
}
use hahomematic.Base.Dict.{Dict, get_or, lookup, insert}
use hahomematic.Base.Text.{Text, codes}
use hahomematic.Base.Value.{Value, text}
use hahomematic.Clock.{init_datetime, max_cache_age, changed_within_seconds}
use hahomematic.Const.{
  Interface, bidcos_rf, bidcos_wired, ccu_jack, cuxd, hmip_rf, virtual_devices, interface_eq,
}

pub record CentralDataCache : Type 0 where
  pub value_cache : Dict Interface (Dict Text Value)
  pub refreshed_at : Dict Interface ℕ

abbrev pub no_cache_entry : Value
no_cache_entry = text (codes "NO_CACHE_ENTRY")

abbrev pub interface_text : Interface → Text
interface_text bidcos_rf = codes "BidCos-RF"
interface_text bidcos_wired = codes "BidCos-Wired"
interface_text ccu_jack = codes "CCU-Jack"
interface_text cuxd = codes "CUxD"
interface_text hmip_rf = codes "HmIP-RF"
interface_text virtual_devices = codes "VirtualDevices"

-- `address.replace(':', '%3A')`
unfoldable pub escape_colon : Text → Text
escape_colon [] = []
escape_colon (c ∷ cs) =
    let rest = escape_colon cs in if eqb c b':' then b'%' ∷ b'3' ∷ b'A' ∷ rest else c ∷ rest

unfoldable pub data_key : Interface → Text → Text → Text
unfolding escape_colon
data_key interface channel_address parameter =
    interface_text interface ++ b'.' ∷ (escape_colon channel_address ++ b'.' ∷ parameter)

unfoldable pub get_refreshed_at : Interface → CentralDataCache → ℕ
get_refreshed_at interface c = get_or init_datetime (lookup interface c.refreshed_at)

-- `clear` of one interface
unfoldable pub clear_interface : Interface → CentralDataCache → CentralDataCache
clear_interface interface c = record {
  value_cache = insert interface [] c.value_cache;
  refreshed_at = insert interface init_datetime c.refreshed_at;
}

-- `clear` without an interface, over the interfaces of the central
unfoldable pub clear_all : List Interface → CentralDataCache → CentralDataCache
unfolding clear_interface
clear_all [] c = c
clear_all (i ∷ rest) c = clear_all rest (clear_interface i c)

unfoldable pub add_data : Interface → Dict Text Value → ℕ → CentralDataCache → CentralDataCache
add_data interface all_device_data now c = record {
  value_cache = insert interface all_device_data c.value_cache;
  refreshed_at = insert interface now c.refreshed_at;
}

abbrev pub is_nil {ℓ} : {A : Type ℓ} → List A → Bool
is_nil [] = true
is_nil (x ∷ xs) = false

-- `_is_empty`, which clears what is too old
unfoldable pub is_empty : Interface → ℕ → CentralDataCache → Bool × CentralDataCache
unfolding clear_interface
is_empty interface now c =
    if is_nil c.value_cache
    then (true, c)
    else if not (changed_within_seconds now (get_refreshed_at interface c) max_cache_age)
    then (true, clear_interface interface c)
    else (false, c)

-- An interface that was refreshed has a dict of values, since both are only stored together.
unfoldable pub get_data : Interface → Text → Text → ℕ → CentralDataCache → Value × CentralDataCache
unfolding data_key
get_data interface channel_address parameter now c =
    let (empty, c') = is_empty interface now c in
    if empty then (no_cache_entry, c') else (
      get_or no_cache_entry (
          lookup (data_key interface channel_address parameter)
            (get_or [] (lookup interface c'.value_cache))),
      c',
    )

-- A client of the central with what it fetches, if it answers, and the readings of the clock for
-- the test and for the time that is stored.
pub record Source : Type 0 where
  pub interface : Interface
  pub data' : Option (Dict Text Value)
  pub now : ℕ
  pub later : ℕ

abbrev pub is_other : Option Interface → Interface → Bool
is_other none i = false
is_other (some wanted) i = not (wanted == i)

-- `load`: the test for a recent refresh ends the method.
unfoldable pub load : Bool → Option Interface → List Source → CentralDataCache → CentralDataCache
unfolding add_data
load direct_call interface [] c = c
load direct_call interface (s ∷ rest) c =
    let skipped = load direct_call interface rest c in
    let fetched =
      load direct_call interface rest
        (elim s.data' [ none ↦ c | some d ↦ add_data s.interface d s.later c ]) in
    if is_other interface s.interface
    then skipped
    else if not direct_call && changed_within_seconds s.now (get_refreshed_at s.interface c) 3
    then c
    else fetched
