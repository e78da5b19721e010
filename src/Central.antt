-- ===== src/Central.antt =====
-- The central unit: hahomematic/central/__init__.py, `save_caches`, `remove_device`, `delete_devices`
-- and `delete_device` over the caches of hahomematic/caches. What a client fetches, what the details
-- cache loads, and whether the data points of a device can be built are arguments. The callbacks to
-- the system are not here.
pub mod Create
pub mod Devices
pub mod Deletions
pub mod Files
pub mod Events
pub mod Pongs
pub mod Steps
use hahomematic.Base.{
  ℕ, Bool, true, false, not, ◌&&◌, ◌||◌, Option, none, some, List, [], ◌∷◌, ◌++◌, map, ◌==◌,
  list_eq, nat_eq, if◌then◌else◌, keep, contains,
}
use hahomematic.Base.Dict.{Dict, lookup, has, insert, erase, keys}
use hahomematic.Base.Text.{Text}
use hahomematic.Const.{ParamsetKey}
use hahomematic.Connection.{Client}
use hahomematic.DeviceDescriptions.{
  DeviceDescription, DeviceDescriptionCache, get_raw_device_descriptions, get_addresses,
  find_device_description, remove_device, add_device_description,
}
use hahomematic.Paramsets.{
  Description, Paramsets, ParamsetDescriptionCache, add_paramset, remove_paramsets,
  has_interface_id,
}
use hahomematic.DeviceDetails.{DeviceDetailsCache, remove_details}
use hahomematic.PersistentCache.{Backend, Cache, save}

-- `address`, `interface_id`, `model` and the keys of `channels`, of which the first is the device's.
pub record Device : Type 0 where
  pub interface_id : Text
  pub address : Text
  pub model : Text
  pub channels : List Text

abbrev pub RawDevices : Type 0
RawDevices = Dict Text (List DeviceDescription)

abbrev pub RawParamsets : Type 0
RawParamsets = Dict Text (Dict Text Paramsets)

-- `device_file` and `paramset_file` are what the two caches keep of their files.
pub record Central : Type 0 where
  pub clients : Dict Text Client
  pub devices : Dict Text Device
  pub device_descriptions : DeviceDescriptionCache
  pub paramset_descriptions : ParamsetDescriptionCache
  pub device_details : DeviceDetailsCache
  pub device_file : Cache RawDevices
  pub paramset_file : Cache RawParamsets
  pub last_events : Dict Text ℕ

-- The rest of the system: the serialisation of the two files, the paramsets that a client fetches
-- for a description, what the details cache loads, and whether a device is built.
pub record Outside : Type 0 where
  pub device_json : Backend RawDevices
  pub paramset_json : Backend RawParamsets
  pub fetch : DeviceDescription → List (Text × (ParamsetKey × Description))
  pub load_details : DeviceDetailsCache → DeviceDetailsCache
  pub builds : Device → Bool

-- `save_caches`; both files can be written and caches are in use.
unfoldable pub save_caches : Outside → Bool → Bool → Central → Central
unfolding save
save_caches o save_device_descriptions save_paramset_descriptions c = record c {
  device_file =
      if save_device_descriptions
      then (save o.device_json true true (record c.device_file {
        persistant_cache = c.device_descriptions.raw_device_descriptions;
      })).0
      else c.device_file;
  paramset_file =
      if save_paramset_descriptions
      then (save o.paramset_json true true (record c.paramset_file {
        persistant_cache = c.paramset_descriptions.raw_paramset_descriptions;
      })).0
      else c.paramset_file;
}

-- `remove_device`
unfoldable pub remove_central_device : Device → Central → Central
unfolding remove_device remove_paramsets remove_details
remove_central_device d c =
    if has d.address c.devices
    then record c {
      device_descriptions =
          remove_device d.interface_id (d.address ∷ d.channels) c.device_descriptions;
      paramset_descriptions = remove_paramsets d.interface_id d.channels c.paramset_descriptions;
      device_details = remove_details d.address d.channels c.device_details;
      devices = erase d.address c.devices;
    }
    else c

-- One round of the loop of `delete_devices`.
unfoldable pub remove_found : Text → Central → Central
unfolding remove_central_device
remove_found a c = elim (lookup a c.devices) [ none ↦ c | some d ↦ remove_central_device d c ]

unfoldable pub remove_central_devices : List Text → Central → Central
unfolding remove_found
remove_central_devices [] c = c
remove_central_devices (a ∷ rest) c = remove_central_devices rest (remove_found a c)

-- `delete_devices`, which saves the caches with the defaults of `save_caches`
unfoldable pub delete_devices : Outside → List Text → Central → Central
unfolding remove_central_devices save_caches
delete_devices o addresses c = save_caches o false false (remove_central_devices addresses c)

unfoldable pub delete_device : Outside → Text → Central → Central
unfolding delete_devices
delete_device o device_address c = elim (lookup device_address c.devices) [
  | none ↦ c
  | some d ↦ delete_devices o (device_address ∷ d.channels) c
]
