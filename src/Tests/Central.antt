-- ===== src/Tests/Central.antt =====
-- The theorems about the central unit at a concrete device.
use hahomematic.Base.{
  ℕ, ◌*◌, ◌≡◌, refl, arith, true, ◌&&◌, ◌||◌, ◌==◌, none, [], ◌∷◌, list_eq, nat_eq, list_beq_iff,
  contains, if◌then◌else◌, all,
}
use hahomematic.Base.Text.{Text, codes}
use hahomematic.Base.Dict.{Dict, lookup, has, keys}
use hahomematic.Clock.{second}
use hahomematic.Const.{ParamsetKey, dp_key_eq}
use hahomematic.DeviceDescriptions.{
  empty, DeviceDescription, find_device_description, get_raw_device_descriptions,
}
use hahomematic.Paramsets.{get_parameter_data}
use hahomematic.DeviceDetails.{DeviceDetailsCache, get_name}
use hahomematic.PersistentCache.{Backend}
use hahomematic.PingPong.{new}
use hahomematic.Connection.{Client, ccu}
use hahomematic.Central.{Device, Central, Outside, delete_device, delete_devices}
use hahomematic.Central.Create.{create_new_devices, add_new_devices}
use hahomematic.Central.Devices.{IsKeyed, IsConsistent, is_waiting, devices-create_new_devices}
use hahomematic.Central.Deletions.{delete_device_lem}
use hahomematic.Central.Steps.{here, then_step, new_devices, deleted_devices, Reaches-IsConsistent}

abbrev pub start : ℕ
start = 63000000000 * second

abbrev pub rf : Text
rf = codes "rf"

abbrev address : Text
address = codes "VCU1"

abbrev pub channel : Text
channel = codes "VCU1:1"

abbrev description : DeviceDescription
description = record { address = address; model = codes "HM"; children = channel ∷ [] }

abbrev device : Device
device = record {
  interface_id = rf;
  address = address;
  model = codes "HM";
  channels = address ∷ channel ∷ [];
}

abbrev pub client : Client
client = record {
  interface_id = rf;
  kind = ccu;
  supports_xml_rpc = true;
  supports_push_updates = true;
  supports_ping_pong = true;
  available = true;
  callback_alive = true;
  connection_error_count = 0;
  modified_at = start;
  ping_pong_cache = new;
  devices = [];
}

abbrev empty_details : DeviceDetailsCache
empty_details = record {
  channel_rooms = [];
  device_channel_ids = [];
  functions = [];
  interface_cache = [];
  names_cache = (address, codes "Valve") ∷ [];
  refreshed_at = start;
}

abbrev central : Dict Text Device → Central
central devices = record {
  clients = (rf, client) ∷ [];
  devices = devices;
  device_descriptions = record {
    raw_device_descriptions = (rf, description ∷ []) ∷ [];
    addresses = (rf, (address, address ∷ channel ∷ []) ∷ []) ∷ [];
    device_descriptions = (rf, (address, description) ∷ []) ∷ [];
  };
  paramset_descriptions = record {
    raw_paramset_descriptions = (rf, (channel, []) ∷ []) ∷ [];
    address_parameter_cache = [];
  };
  device_details = empty_details;
  device_file = record { persistant_cache = []; last_hash_saved = codes "0"; file = none };
  paramset_file = record { persistant_cache = []; last_hash_saved = codes "0"; file = none };
  last_events = [];
}

-- a serialisation that keeps nothing
abbrev forgetful : {D : Type 0} → D → Backend D
forgetful none_kept = record {
  hash = λ d. codes "0";
  dumps = λ d. [];
  loads = λ t. none_kept;
  nothing = none_kept;
}

abbrev outside : Outside
outside = record {
  device_json = forgetful [];
  paramset_json = forgetful [];
  fetch = λ d. [];
  load_details = λ d. d;
  builds = λ d. true;
}

abbrev pub with_device : Central
with_device = central ((address, device) ∷ [])

with_device-IsKeyed : IsKeyed with_device.devices
unfolding lookup
with_device-IsKeyed = record { at_own = λ a d h. ground (arith, h, list_beq_iff address a) }

delete_device_lem_example :
    let c' = delete_device outside address with_device in
    ((b : Text)
      → lookup b c'.devices ≡ (if address == b then none else lookup b with_device.devices))
    × ((i b : Text)
        → find_device_description i b c'.device_descriptions ≡ (
            if rf == i && contains b (address ∷ device.channels)
            then none
            else find_device_description i b with_device.device_descriptions))
    × ((i b p : Text) (k : ParamsetKey)
        → get_parameter_data i b k p c'.paramset_descriptions ≡ (
            if rf == i && contains b device.channels
            then none
            else get_parameter_data i b k p with_device.paramset_descriptions))
    × ((b : Text)
        → get_name b c'.device_details ≡ (
            if address == b || contains b device.channels
            then none
            else get_name b with_device.device_details))
    × (c'.device_file ≡ with_device.device_file)
    × (c'.paramset_file ≡ with_device.paramset_file)
unfolding lookup all has
delete_device_lem_example =
    delete_device_lem outside address device with_device with_device-IsKeyed refl refl

devices-create_new_devices_example :
    has address (create_new_devices outside (central [])).devices ≡ (
      has address (central []).devices
      || is_waiting outside (central []) (keys (central []).clients) address)
devices-create_new_devices_example = devices-create_new_devices outside address (central [])

-- a central unit that has a client and nothing else
abbrev bare : Central
bare = record (central []) { device_descriptions = empty; device_details = empty_details }

bare-IsConsistent : IsConsistent bare
unfolding empty find_device_description lookup get_raw_device_descriptions
bare-IsConsistent = record {
  synced = record { at_address = λ i a. refl };
  keyed = record { at_own = λ a d h. ground (arith, h) };
}

abbrev grown : Central
grown = add_new_devices outside rf (description ∷ []) bare

Reaches-IsConsistent_example : IsConsistent (delete_devices outside (address ∷ []) grown)
Reaches-IsConsistent_example =
    Reaches-IsConsistent outside bare (delete_devices outside (address ∷ []) grown)
      (then_step (then_step here (new_devices rf (description ∷ []) bare))
        (deleted_devices (address ∷ []) grown))
      bare-IsConsistent
