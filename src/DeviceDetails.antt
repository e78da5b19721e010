-- ===== src/DeviceDetails.antt =====
-- `DeviceDetailsCache` of hahomematic/caches/dynamic.py, with `fetch_device_details` of the client of
-- a CCU (hahomematic/client/__init__.py). What the backend returns is an argument; a set of rooms is
-- a list without repetitions.
pub mod Names
use hahomematic.Base.{
  ℕ, Bool, true, false, not, ◌&&◌, Option, none, some, List, [], ◌∷◌, ◌++◌, ◌==◌, list_eq, nat_eq,
  if◌then◌else◌, add,
}
use hahomematic.Base.Dict.{Dict, get_or, lookup, has, insert, erase}
use hahomematic.Base.Text.{Text, codes, starts_with}
use hahomematic.Clock.{init_datetime, changed_within_seconds}
use hahomematic.Const.{Interface, bidcos_rf}

pub record DeviceDetailsCache : Type 0 where
  pub channel_rooms : Dict Text (List Text)
  pub device_channel_ids : Dict Text Text
  pub functions : Dict Text (List Text)
  pub interface_cache : Dict Text Interface
  pub names_cache : Dict Text Text
  pub refreshed_at : ℕ

unfoldable pub empty : DeviceDetailsCache
empty = record {
  channel_rooms = [];
  device_channel_ids = [];
  functions = [];
  interface_cache = [];
  names_cache = [];
  refreshed_at = init_datetime;
}

unfoldable pub add_name : Text → Text → DeviceDetailsCache → DeviceDetailsCache
add_name address name c = record c { names_cache = insert address name c.names_cache }

unfoldable pub get_name : Text → DeviceDetailsCache → Option Text
get_name address c = lookup address c.names_cache

unfoldable pub add_interface : Text → Interface → DeviceDetailsCache → DeviceDetailsCache
add_interface address interface c = record c {
  interface_cache = insert address interface c.interface_cache;
}

unfoldable pub get_interface : Text → DeviceDetailsCache → Interface
get_interface address c = get_or bidcos_rf (lookup address c.interface_cache)

unfoldable pub add_address_id : Text → Text → DeviceDetailsCache → DeviceDetailsCache
add_address_id address hmid c = record c {
  device_channel_ids = insert address hmid c.device_channel_ids;
}

-- An empty id is falsy.
abbrev or_zero : Option Text → Text
or_zero (some (d ∷ ds)) = d ∷ ds
or_zero _ = codes "0"

unfoldable pub get_address_id : Text → DeviceDetailsCache → Text
get_address_id address c = or_zero (lookup address c.device_channel_ids)

unfoldable pub update_rooms : List Text → List Text → List Text
unfolding add
update_rooms [] rooms = rooms
update_rooms (r ∷ rest) rooms = update_rooms rest (add r rooms)

-- The loop of `get_device_rooms`.
unfoldable pub collect_rooms : Text → Dict Text (List Text) → List Text → List Text
unfolding update_rooms starts_with
collect_rooms device_address [] rooms = rooms
collect_rooms device_address ((channel_address, channel_rooms) ∷ rest) rooms =
    collect_rooms device_address rest (
      if starts_with channel_address device_address
      then update_rooms channel_rooms rooms
      else rooms)

unfoldable pub get_device_rooms : Text → DeviceDetailsCache → List Text
unfolding collect_rooms
get_device_rooms device_address c = collect_rooms device_address c.channel_rooms []

unfoldable pub get_channel_rooms : Text → DeviceDetailsCache → List Text
get_channel_rooms channel_address c = get_or [] (lookup channel_address c.channel_rooms)

-- `",".join(…)`
unfoldable pub join_comma : List Text → Text
join_comma [] = []
join_comma (t ∷ []) = t
join_comma (t ∷ u ∷ rest) = t ++ b',' ∷ join_comma (u ∷ rest)

unfoldable pub get_function_text : Text → DeviceDetailsCache → Option Text
unfolding join_comma
get_function_text address c = elim (lookup address c.functions) [
  | none ↦ none
  | some [] ↦ none
  | some (f ∷ fs) ↦ some (join_comma (f ∷ fs))
]

unfoldable pub remove_names : List Text → DeviceDetailsCache → DeviceDetailsCache
remove_names [] c = c
remove_names (a ∷ rest) c =
    remove_names rest
      (if has a c.names_cache then record c { names_cache = erase a c.names_cache } else c)

-- `remove_device`, with the address and the channels of the device
unfoldable pub remove_details : Text → List Text → DeviceDetailsCache → DeviceDetailsCache
unfolding remove_names
remove_details device_address channels c = remove_names (device_address ∷ channels) c

unfoldable pub clear : DeviceDetailsCache → DeviceDetailsCache
clear c = record c {
  names_cache = [];
  channel_rooms = [];
  functions = [];
  refreshed_at = init_datetime;
}

-- What the backend says of a device or a channel: the keys ADDRESS, NAME and ID.
pub record Detail : Type 0 where
  pub address : Text
  pub name : Text
  pub hmid : Text

-- A device with its channels; an unknown interface is `none`.
pub record DeviceDetail : Type 0 where
  pub detail : Detail
  pub interface : Option Interface
  pub channels : List Detail

unfoldable pub note_detail : Detail → DeviceDetailsCache → DeviceDetailsCache
unfolding add_name add_address_id
note_detail d c = add_address_id d.address d.hmid (add_name d.address d.name c)

unfoldable pub note_channels : List Detail → DeviceDetailsCache → DeviceDetailsCache
unfolding note_detail
note_channels [] c = c
note_channels (d ∷ rest) c = note_channels rest (note_detail d c)

unfoldable pub fetch_device_details : List DeviceDetail → DeviceDetailsCache → DeviceDetailsCache
unfolding note_channels note_detail add_interface
fetch_device_details [] c = c
fetch_device_details (d ∷ rest) c = fetch_device_details rest (elim d.interface [
  | none ↦ c
  | some i ↦ note_channels d.channels (note_detail d.detail (add_interface d.detail.address i c))
])

-- What a primary client fetches: the devices, the rooms and the functions.
pub record Fetched : Type 0 where
  pub details : List DeviceDetail
  pub rooms : Dict Text (List Text)
  pub areas : Dict Text (List Text)

-- `load`, with the readings of the clock before and after, and no client or what it fetches
unfoldable pub load : Bool → ℕ → ℕ → Option Fetched → DeviceDetailsCache → DeviceDetailsCache
unfolding clear fetch_device_details changed_within_seconds
load direct_call now later fetched c =
    if not direct_call && changed_within_seconds now c.refreshed_at 3 then c else elim fetched [
      | none ↦ record (clear c) { refreshed_at = later }
      | some f ↦ record (fetch_device_details f.details (clear c)) {
        channel_rooms = f.rooms;
        functions = f.areas;
        refreshed_at = later;
      }
    ]
