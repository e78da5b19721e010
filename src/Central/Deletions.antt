-- ===== src/Central/Deletions.antt =====
-- What deleting a device takes away from a central unit (hahomematic/central/__init__.py).
use hahomematic.Base.{
  ◌≡◌, refl, ap, ◌∙◌, true, not, ◌&&◌, ◌||◌, none, some, List, [], ◌∷◌, arith, ◌==◌, list_eq,
  nat_eq, if◌then◌else◌, contains, all,
}
use hahomematic.Base.Dict.{lookup, has, erase, lookup-erase, has-lookup, has-erase}
use hahomematic.Base.Text.{Text}
use hahomematic.Const.{ParamsetKey}
use hahomematic.DeviceDescriptions.{find_device_description}
use hahomematic.DeviceDescriptions.Lookups.{find-remove_device}
use hahomematic.Paramsets.{get_parameter_data}
use hahomematic.Paramsets.Lookups.{get_parameter_data-remove_paramsets}
use hahomematic.DeviceDetails.{get_name}
use hahomematic.DeviceDetails.Names.{get_name-remove_details}
use hahomematic.Central.{
  Device, Central, Outside, save_caches, remove_central_device, remove_found,
  remove_central_devices, delete_devices, delete_device,
}
use hahomematic.Central.Devices.{IsKeyed}

remove_missing :
    (addresses : List Text) (c : Central)
    → all (λ a. not (has a c.devices)) addresses ≡ true
    → remove_central_devices addresses c ≡ c
unfolding remove_central_devices remove_found all
remove_missing [] c gone = refl
remove_missing (a ∷ rest) c gone =
    ground (arith, gone, has-lookup a c.devices, remove_missing rest c)

module _ (a : Text) (d : Device) (c : Central) (own : d.address ≡ a) where
  remove_own : lookup a c.devices ≡ some d → (remove_central_device d c).devices ≡ erase a c.devices
  unfolding remove_central_device
  remove_own found = ground (arith, found, own, has-lookup a c.devices)

  gone_channels :
      (channels : List Text)
      → lookup a c.devices ≡ some d
      → all (λ b. a == b || not (has b c.devices)) channels ≡ true
      → all (λ b. not (has b (remove_central_device d c).devices)) channels ≡ true
  unfolding all
  gone_channels [] found alone = refl
  gone_channels (b ∷ rest) found alone =
      rw (remove_own found)
        (ground (arith, has-erase b a c.devices, gone_channels rest found, alone))

  found_removed : lookup a c.devices ≡ some d → remove_found a c ≡ remove_central_device d c
  unfolding remove_found
  found_removed found =
      ap (λ x. elim x as (λ y. Central) [ none ↦ c | some e ↦ remove_central_device e c ]) found

  deletes_all :
      (o : Outside)
      → lookup a c.devices ≡ some d
      → delete_device o a c ≡ remove_central_devices (a ∷ d.channels) c
  unfolding delete_device delete_devices save_caches
  deletes_all o found =
      ap (λ x. elim x as (λ y. Central) [ none ↦ c | some e ↦ delete_devices o (a ∷ e.channels) c ])
        found

  first_removed :
      remove_found a c ≡ remove_central_device d c
      → remove_central_devices (a ∷ d.channels) c
        ≡ remove_central_devices d.channels (remove_central_device d c)
  unfolding remove_central_devices
  first_removed e = ap (remove_central_devices d.channels) e

  delete-removes :
      (o : Outside)
      → lookup a c.devices ≡ some d
      → all (λ b. a == b || not (has b c.devices)) d.channels ≡ true
      → delete_device o a c ≡ remove_central_device d c
  delete-removes o found alone =
      deletes_all o found
      ∙ first_removed (found_removed found)
      ∙ remove_missing d.channels (remove_central_device d c) (gone_channels d.channels found alone)

-- Deleting a device that no other device shares a channel with takes just its own entries away: the
-- device, the descriptions of it and of its channels on its interface, the parameters of its
-- channels there, and their names. The two files stay as they are.
pub delete_device_lem :
    (o : Outside) (a : Text) (d : Device) (c : Central)
    → IsKeyed c.devices
    → lookup a c.devices ≡ some d
    → all (λ b. a == b || not (has b c.devices)) d.channels ≡ true
    → let c' = delete_device o a c in
      ((b : Text) → lookup b c'.devices ≡ (if a == b then none else lookup b c.devices))
      × ((i b : Text)
          → find_device_description i b c'.device_descriptions ≡ (
              if d.interface_id == i && contains b (a ∷ d.channels)
              then none
              else find_device_description i b c.device_descriptions))
      × ((i b p : Text) (k : ParamsetKey)
          → get_parameter_data i b k p c'.paramset_descriptions ≡ (
              if d.interface_id == i && contains b d.channels
              then none
              else get_parameter_data i b k p c.paramset_descriptions))
      × ((b : Text)
          → get_name b c'.device_details
            ≡ (if a == b || contains b d.channels then none else get_name b c.device_details))
      × (c'.device_file ≡ c.device_file)
      × (c'.paramset_file ≡ c.paramset_file)
unfolding remove_central_device
delete_device_lem o a d c keyed found alone =
    let own = keyed.at_own a d found in
    let there = has-lookup a c.devices in
    rw (delete-removes a d c own o found alone, own, there, found)
      (
        (λ b. lookup-erase b a c.devices),
        (λ i b. find-remove_device d.interface_id i b (a ∷ d.channels) c.device_descriptions),
        (λ i b p k.
            get_parameter_data-remove_paramsets d.interface_id i b p k d.channels
              c.paramset_descriptions),
        (λ b. get_name-remove_details b a d.channels c.device_details),
        refl,
        refl,
      )
