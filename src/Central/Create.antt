-- ===== src/Central/Create.antt =====
-- How a central unit gets its devices: `_add_new_devices`, `_check_for_new_device_addresses` and
-- `_create_devices` of hahomematic/central/__init__.py. The new devices are not reported here.
use hahomematic.Base.{
  Bool, true, false, not, ◌||◌, none, some, List, [], ◌∷◌, map, ◌==◌, list_eq, nat_eq,
  if◌then◌else◌, keep, contains,
}
use hahomematic.Base.Dict.{Dict, has, insert, keys}
use hahomematic.Base.Text.{Text}
use hahomematic.Const.{ParamsetKey}
use hahomematic.DeviceDescriptions.{
  DeviceDescription, DeviceDescriptionCache, get_raw_device_descriptions, get_addresses,
  find_device_description, add_device_description,
}
use hahomematic.Paramsets.{Description, ParamsetDescriptionCache, add_paramset, has_interface_id}
use hahomematic.Central.{Device, Central, Outside, save_caches}

-- The loops of the client's `fetch_paramset_descriptions`; a ValueError ends them.
unfoldable pub add_paramsets :
    Text
    → List (Text × (ParamsetKey × Description))
    → ParamsetDescriptionCache
    → ParamsetDescriptionCache × Bool
unfolding add_paramset
add_paramsets i [] p = (p, true)
add_paramsets i ((address, (key, description)) ∷ rest) p =
    let (p', fine) = add_paramset i address key description p in
    let others = add_paramsets i rest p' in if fine then others else (p', false)

-- The caches with the two flags of `_add_new_devices`.
pub record Adding : Type 0 where
  pub descriptions : DeviceDescriptionCache
  pub paramsets : ParamsetDescriptionCache
  pub save_devices : Bool
  pub save_paramsets : Bool

-- One round of the loop: an exception leaves what was done before it.
unfoldable pub add_description : Outside → Text → List Text → DeviceDescription → Adding → Adding
unfolding add_device_description add_paramsets
add_description o i known d a =
    let (descriptions, fine) = add_device_description i d a.descriptions in
    let (paramsets, fetched) = add_paramsets i (o.fetch d) a.paramsets in
    if not fine
    then record a { descriptions = descriptions }
    else if contains d.address known
    then record a { descriptions = descriptions; save_devices = true }
    else record {
      descriptions = descriptions;
      paramsets = paramsets;
      save_devices = true;
      save_paramsets = fetched || a.save_paramsets;
    }

unfoldable pub add_descriptions :
    Outside → Text → List Text → List DeviceDescription → Adding → Adding
unfolding add_description
add_descriptions o i known [] a = a
add_descriptions o i known (d ∷ rest) a =
    add_descriptions o i known rest (add_description o i known d a)

-- The addresses of an interface that are no devices yet.
unfoldable pub new_addresses : Text → Central → List Text
unfolding get_addresses
new_addresses i c = keep (λ a. not (has a c.devices)) (get_addresses i c.device_descriptions)

-- The loop of `_check_for_new_device_addresses` over the interface ids.
unfoldable pub check_interfaces : List Text → Central → Dict Text (List Text)
unfolding new_addresses has_interface_id
check_interfaces [] c = []
check_interfaces (i ∷ rest) c =
    let others = check_interfaces rest c in
    if has_interface_id i c.paramset_descriptions
    then elim (new_addresses i c) [ [] ↦ others | a ∷ more ↦ (i, a ∷ more) ∷ others ]
    else others

unfoldable pub check_for_new_device_addresses : Central → Dict Text (List Text)
unfolding check_interfaces keys
check_for_new_device_addresses c = check_interfaces (keys c.clients) c

-- `Device.__init__`, as far as it is here
unfoldable pub make_device : Text → DeviceDescription → Device
make_device i d = record {
  interface_id = i;
  address = d.address;
  model = d.model;
  channels = d.address ∷ keep (λ a. not (a == [])) d.children;
}

-- One device of `_create_devices`: an exception is logged, and leaves the device out.
unfoldable pub create_device : Outside → Text → Text → Central → Central
unfolding make_device find_device_description
create_device o i a c =
    if has a c.devices then c else elim (find_device_description i a c.device_descriptions) [
      | none ↦ c
      | some d ↦
          if o.builds (make_device i d)
          then record c { devices = insert a (make_device i d) c.devices }
          else c
    ]

unfoldable pub create_on_interface : Outside → Text → List Text → Central → Central
unfolding create_device
create_on_interface o i [] c = c
create_on_interface o i (a ∷ rest) c = create_on_interface o i rest (create_device o i a c)

-- `_create_devices`; there is a client, since there are new addresses.
unfoldable pub create_devices : Outside → Dict Text (List Text) → Central → Central
unfolding create_on_interface
create_devices o [] c = c
create_devices o ((i, addresses) ∷ rest) c =
    create_devices o rest (create_on_interface o i addresses c)

-- The end of `_add_new_devices`: the details are loaded just if there are new addresses.
unfoldable pub create_new_devices : Outside → Central → Central
unfolding check_for_new_device_addresses create_devices
create_new_devices o c = elim (check_for_new_device_addresses c) [
  | [] ↦ c
  | new ∷ more ↦
      create_devices o (new ∷ more) (record c { device_details = o.load_details c.device_details })
]

-- The addresses that are known before the loop of `_add_new_devices`, and its variables then.
abbrev pub known_addresses : Text → Central → List Text
known_addresses i c =
    map (λ (d : DeviceDescription). d.address) (get_raw_device_descriptions i c.device_descriptions)

abbrev pub start_adding : Central → Adding
start_adding c = record {
  descriptions = c.device_descriptions;
  paramsets = c.paramset_descriptions;
  save_devices = false;
  save_paramsets = false;
}

-- The loop of `_add_new_devices`, and the caches saved after it.
unfoldable pub add_to_caches : Outside → Text → List DeviceDescription → Central → Central
unfolding add_descriptions save_caches get_raw_device_descriptions
add_to_caches o i descriptions c =
    let added = add_descriptions o i (known_addresses i c) descriptions (start_adding c) in
    save_caches o added.save_devices added.save_paramsets (record c {
      device_descriptions = added.descriptions;
      paramset_descriptions = added.paramsets;
    })

-- `add_new_devices`
unfoldable pub add_new_devices : Outside → Text → List DeviceDescription → Central → Central
unfolding add_to_caches create_new_devices
add_new_devices o i descriptions c =
    let added = create_new_devices o (add_to_caches o i descriptions c) in
    if has i c.clients then added else c
