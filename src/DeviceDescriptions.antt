-- ===== src/DeviceDescriptions.antt =====
-- `DeviceDescriptionCache` of hahomematic/caches/persistent.py. Its file is in PersistentCache. A
-- description is modelled by the fields that the cache reads. A method that can raise a ValueError,
-- for an address that is no address, returns `false` beside the state that it left.
pub mod Lookups
pub mod Index
use hahomematic.Base.{
  Bool, true, false, not, ◌&&◌, Option, none, some, List, [], ◌∷◌, ◌++◌, ◌==◌, list_eq, nat_eq,
  if◌then◌else◌, keep, contains, add,
}
use hahomematic.Base.Dict.{Dict, get_or, lookup, has, insert, erase, keys}
use hahomematic.Base.Text.{Text, has_char}
use hahomematic.Address.{colon, get_device_address}

-- The keys ADDRESS, TYPE and CHILDREN.
pub record DeviceDescription : Type 0 where
  pub address : Text
  pub model : Text
  pub children : List Text

pub record DeviceDescriptionCache : Type 0 where
  pub raw_device_descriptions : Dict Text (List DeviceDescription)
  pub addresses : Dict Text (Dict Text (List Text))
  pub device_descriptions : Dict Text (Dict Text DeviceDescription)

unfoldable pub empty : DeviceDescriptionCache
empty = record { raw_device_descriptions = []; addresses = []; device_descriptions = [] }

unfoldable pub get_raw_device_descriptions : Text → DeviceDescriptionCache → List DeviceDescription
get_raw_device_descriptions interface_id c =
    get_or [] (lookup interface_id c.raw_device_descriptions)

unfoldable pub get_device_descriptions : Text → DeviceDescriptionCache → Dict Text DeviceDescription
get_device_descriptions interface_id c = get_or [] (lookup interface_id c.device_descriptions)

unfoldable pub interface_addresses : Text → DeviceDescriptionCache → Dict Text (List Text)
interface_addresses interface_id c = get_or [] (lookup interface_id c.addresses)

unfoldable pub get_addresses : Text → DeviceDescriptionCache → List Text
unfolding interface_addresses keys
get_addresses interface_id c = keys (interface_addresses interface_id c)

-- Also `get_device_description`, where `none` is its KeyError.
unfoldable pub find_device_description :
    Text → Text → DeviceDescriptionCache → Option DeviceDescription
unfolding get_device_descriptions
find_device_description interface_id device_address c =
    lookup device_address (get_device_descriptions interface_id c)

-- An empty set is falsy.
abbrev truthy_set : Option (List Text) → Bool
truthy_set (some (a ∷ rest)) = true
truthy_set _ = false

-- One round of the loop of `_remove_device`.
unfoldable pub remove_address : Text → Text → DeviceDescriptionCache → DeviceDescriptionCache
unfolding interface_addresses get_device_descriptions
remove_address interface_id address c =
    let mine = interface_addresses interface_id c in
    let descriptions = get_device_descriptions interface_id c in
    record c {
      addresses =
          if not (has_char colon address) && truthy_set (lookup address mine)
          then insert interface_id (erase address mine) c.addresses
          else c.addresses;
      device_descriptions =
          if has address descriptions
          then insert interface_id (erase address descriptions) c.device_descriptions
          else c.device_descriptions;
    }

unfoldable pub remove_addresses : Text → List Text → DeviceDescriptionCache → DeviceDescriptionCache
remove_addresses interface_id [] c = c
remove_addresses interface_id (a ∷ rest) c =
    remove_addresses interface_id rest (remove_address interface_id a c)

-- `_remove_device`
unfoldable pub remove_device : Text → List Text → DeviceDescriptionCache → DeviceDescriptionCache
unfolding get_raw_device_descriptions
remove_device interface_id deleted c = remove_addresses interface_id deleted (record c {
  raw_device_descriptions =
      insert interface_id
        (keep (λ d. not (contains d.address deleted)) (get_raw_device_descriptions interface_id c))
        c.raw_device_descriptions;
})

-- The last two tests of `_convert_device_description`: a device is added with itself, a channel is
-- added to the set of its device.
unfoldable pub note_address : Text → Text → DeviceDescriptionCache → DeviceDescriptionCache × Bool
unfolding interface_addresses get_device_address
note_address interface_id address c =
    let mine = interface_addresses interface_id c in
    if has_char colon address
    then elim (get_device_address address) [
      | none ↦ (c, false)
      | some device_address ↦ (
        record c {
          addresses =
              insert interface_id
                (insert device_address (add address (get_or [] (lookup device_address mine))) mine)
                c.addresses;
        },
        true,
      )
    ]
    else if has address mine
    then (c, true)
    else (
      record c { addresses = insert interface_id (insert address (address ∷ []) mine) c.addresses },
      true,
    )

-- `_convert_device_description`
unfoldable pub convert_device_description :
    Text → DeviceDescription → DeviceDescriptionCache → DeviceDescriptionCache × Bool
unfolding get_device_descriptions interface_addresses
convert_device_description interface_id d c = note_address interface_id d.address (record c {
  addresses = insert interface_id (interface_addresses interface_id c) c.addresses;
  device_descriptions =
      insert interface_id (insert d.address d (get_device_descriptions interface_id c))
        c.device_descriptions;
})

unfoldable pub add_device_description :
    Text → DeviceDescription → DeviceDescriptionCache → DeviceDescriptionCache × Bool
unfolding get_raw_device_descriptions
add_device_description interface_id d c =
    let c1 = remove_device interface_id (d.address ∷ []) c in
    convert_device_description interface_id d (record c1 {
      raw_device_descriptions =
          insert interface_id (get_raw_device_descriptions interface_id c1 ++ (d ∷ []))
            c1.raw_device_descriptions;
    })

-- `_convert_device_descriptions`: a ValueError ends the loop
unfoldable pub convert_device_descriptions :
    Text → List DeviceDescription → DeviceDescriptionCache → DeviceDescriptionCache × Bool
convert_device_descriptions interface_id [] c = (c, true)
convert_device_descriptions interface_id (d ∷ ds) c =
    let (c', fine) = convert_device_description interface_id d c in
    let rest = convert_device_descriptions interface_id ds c' in if fine then rest else (c', false)

-- `get_model`: the first interface that knows the device
unfoldable pub get_model : Text → Dict Text (Dict Text DeviceDescription) → Option Text
get_model device_address [] = none
get_model device_address ((_, data') ∷ rest) =
    let other = get_model device_address rest in
    elim (lookup device_address data') [ none ↦ other | some d ↦ some d.model ]

-- The channels of `get_device_with_channels`; `none` is the KeyError.
unfoldable pub collect :
    Text
    → List Text
    → Dict Text DeviceDescription
    → DeviceDescriptionCache
    → Option (Dict Text DeviceDescription)
unfolding find_device_description
collect interface_id [] found c = some found
collect interface_id (a ∷ rest) found c = elim (find_device_description interface_id a c) [
  | none ↦ none
  | some d ↦ collect interface_id rest (insert a d found) c
]

unfoldable pub get_device_with_channels :
    Text → Text → DeviceDescriptionCache → Option (Dict Text DeviceDescription)
unfolding collect
get_device_with_channels interface_id device_address c =
    elim (find_device_description interface_id device_address c) [
      | none ↦ none
      | some d ↦ collect interface_id d.children ((device_address, d) ∷ []) c
    ]

-- The loop of `load` over what the file held.
unfoldable pub convert_interfaces :
    Dict Text (List DeviceDescription) → DeviceDescriptionCache → DeviceDescriptionCache × Bool
convert_interfaces [] c = (c, true)
convert_interfaces ((interface_id, descriptions) ∷ rest) c =
    let (c', fine) = convert_device_descriptions interface_id descriptions c in
    let others = convert_interfaces rest c' in if fine then others else (c', false)
