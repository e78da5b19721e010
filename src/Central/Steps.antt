-- ===== src/Central/Steps.antt =====
-- The steps of a central unit (hahomematic/central/__init__.py): new devices are added and devices
-- are deleted, in any order.
use hahomematic.Base.{
  ◌≡◌, some, List, [], ◌∷◌, Bool-cases, Option-cases, inl, inr, list_eq, nat_eq, arith,
}
use hahomematic.Base.Dict.{Dict, lookup, has, insert}
use hahomematic.Base.Text.{Text}
use hahomematic.DeviceDescriptions.{
  DeviceDescription, find_device_description, add_device_description,
}
use hahomematic.DeviceDescriptions.Index.{
  IsSynced, add_device_description-IsSynced, remove_device-IsSynced,
}
use hahomematic.Central.{
  Device, Central, Outside, save_caches, remove_central_device, remove_found,
  remove_central_devices, delete_devices,
}
use hahomematic.Central.Create.{
  make_device, create_device, create_on_interface, create_devices, create_new_devices,
  add_new_devices, Adding, add_to_caches, known_addresses, start_adding, add_description,
  add_descriptions, check_for_new_device_addresses,
}
use hahomematic.Central.Devices.{IsConsistent, find_keyed, insert-IsKeyed, erase-IsKeyed}

module _ (o : Outside) (i : Text) where
  descriptions-add_description :
      (known : List Text) (d : DeviceDescription) (a : Adding)
      → (add_description o i known d a).descriptions ≡ (add_device_description i d a.descriptions).0
  unfolding add_description
  descriptions-add_description known d a = ground arith

  add_description-IsSynced :
      (known : List Text) (d : DeviceDescription) (a : Adding)
      → IsSynced a.descriptions
      → IsSynced (add_description o i known d a).descriptions
  add_description-IsSynced known d a s =
      rw (descriptions-add_description known d a)
        (add_device_description-IsSynced i d a.descriptions s)

  add_descriptions-IsSynced :
      (known : List Text) (ds : List DeviceDescription) (a : Adding)
      → IsSynced a.descriptions
      → IsSynced (add_descriptions o i known ds a).descriptions
  unfolding add_descriptions
  add_descriptions-IsSynced known [] a s = s
  add_descriptions-IsSynced known (d ∷ rest) a s =
      add_descriptions-IsSynced known rest (add_description o i known d a)
        (add_description-IsSynced known d a s)

  created-IsConsistent :
      (a : Text) (d : DeviceDescription) (c : Central)
      → find_device_description i a c.device_descriptions ≡ some d
      → IsConsistent c
      → IsConsistent (record c { devices = insert a (make_device i d) c.devices })
  unfolding make_device
  created-IsConsistent a d c found s = record {
    synced = s.synced;
    keyed =
        insert-IsKeyed a (make_device i d) c.devices
          (find_keyed i a d c.device_descriptions s.synced found) s.keyed;
  }

  create_device-IsConsistent :
      (a : Text) (c : Central) → IsConsistent c → IsConsistent (create_device o i a c)
  unfolding create_device
  create_device-IsConsistent a c s = elim (Bool-cases (has a c.devices)) [
    | inl known ↦ rw (create_device, known) s
    | inr new ↦ elim (Option-cases (find_device_description i a c.device_descriptions)) [
      | inl gone ↦ rw (create_device, new, gone) s
      | inr (d, found) ↦ elim (Bool-cases (o.builds (make_device i d))) [
        | inl built ↦ rw (create_device, new, found, built) (created-IsConsistent a d c found s)
        | inr fails ↦ rw (create_device, new, found, fails) s
      ]
    ]
  ]

  create_on_interface-IsConsistent :
      (addresses : List Text) (c : Central)
      → IsConsistent c
      → IsConsistent (create_on_interface o i addresses c)
  unfolding create_on_interface
  create_on_interface-IsConsistent [] c s = s
  create_on_interface-IsConsistent (a ∷ rest) c s =
      create_on_interface-IsConsistent rest (create_device o i a c)
        (create_device-IsConsistent a c s)

module _ (o : Outside) where
  create_devices-IsConsistent :
      (new : Dict Text (List Text)) (c : Central)
      → IsConsistent c
      → IsConsistent (create_devices o new c)
  unfolding create_devices
  create_devices-IsConsistent [] c s = s
  create_devices-IsConsistent ((i, addresses) ∷ rest) c s =
      create_devices-IsConsistent rest (create_on_interface o i addresses c)
        (create_on_interface-IsConsistent o i addresses c s)

  create_new_devices-IsConsistent :
      (c : Central) → IsConsistent c → IsConsistent (create_new_devices o c)
  unfolding create_new_devices
  create_new_devices-IsConsistent c s =
      elim (check_for_new_device_addresses c)
        as (λ new. IsConsistent (elim new as (λ n. Central) [
          | [] ↦ c
          | entry ∷ more ↦
              create_devices o (entry ∷ more)
                (record c { device_details = o.load_details c.device_details })
        ])) [
          | [] ↦ s
          | entry ∷ more ↦
              create_devices-IsConsistent (entry ∷ more) _
                (record { synced = s.synced; keyed = s.keyed })
        ]

  add_to_caches-IsConsistent :
      (i : Text) (ds : List DeviceDescription) (c : Central)
      → IsConsistent c
      → IsConsistent (add_to_caches o i ds c)
  unfolding add_to_caches save_caches
  add_to_caches-IsConsistent i ds c s = record {
    synced = add_descriptions-IsSynced o i (known_addresses i c) ds (start_adding c) s.synced;
    keyed = s.keyed;
  }

  add_new_devices-IsConsistent :
      (i : Text) (ds : List DeviceDescription) (c : Central)
      → IsConsistent c
      → IsConsistent (add_new_devices o i ds c)
  unfolding add_new_devices
  add_new_devices-IsConsistent i ds c s = elim (Bool-cases (has i c.clients)) [
    | inr missing ↦ rw (add_new_devices, missing) s
    | inl there ↦
        rw (add_new_devices, there)
          (create_new_devices-IsConsistent (add_to_caches o i ds c)
            (add_to_caches-IsConsistent i ds c s))
  ]

removed-IsConsistent :
    (a : Text) (d : Device) (c : Central)
    → lookup a c.devices ≡ some d
    → IsConsistent c
    → IsConsistent (remove_central_device d c)
unfolding remove_central_device
removed-IsConsistent a d c found s = elim (Bool-cases (has d.address c.devices)) [
  | inr missing ↦ rw (remove_central_device, missing) s
  | inl there ↦
      rw (remove_central_device, there)
        (record {
          synced =
              remove_device-IsSynced d.interface_id (d.address ∷ d.channels) c.device_descriptions
                s.synced;
          keyed = erase-IsKeyed d.address c.devices s.keyed;
        })
]

remove_found-IsConsistent :
    (a : Text) (c : Central) → IsConsistent c → IsConsistent (remove_found a c)
unfolding remove_found
remove_found-IsConsistent a c s = elim (Option-cases (lookup a c.devices)) [
  | inl missing ↦ rw (remove_found, missing) s
  | inr (d, found) ↦ rw (remove_found, found) (removed-IsConsistent a d c found s)
]

remove_central_devices-IsConsistent :
    (addresses : List Text) (c : Central)
    → IsConsistent c
    → IsConsistent (remove_central_devices addresses c)
unfolding remove_central_devices
remove_central_devices-IsConsistent [] c s = s
remove_central_devices-IsConsistent (a ∷ rest) c s =
    remove_central_devices-IsConsistent rest (remove_found a c) (remove_found-IsConsistent a c s)

-- What happens to a central unit: the backend reports new devices, or devices are deleted.
pub data Step (o : Outside) : Central → Central → Type 0 where
  new_devices :
      (i : Text) (ds : List DeviceDescription) (c : Central) → Step o c (add_new_devices o i ds c)
  deleted_devices : (addresses : List Text) (c : Central) → Step o c (delete_devices o addresses c)

pub data Reaches (o : Outside) (c : Central) : Central → Type 0 where
  here : Reaches o c c
  then_step : {c' c'' : Central} → Reaches o c c' → Step o c' c'' → Reaches o c c''

Step-IsConsistent : (o : Outside) (c c' : Central) → Step o c c' → IsConsistent c → IsConsistent c'
unfolding delete_devices save_caches
Step-IsConsistent o _ _ (new_devices i ds c) s = add_new_devices-IsConsistent o i ds c s
Step-IsConsistent o _ _ (deleted_devices addresses c) s =
    let removed = remove_central_devices-IsConsistent addresses c s in
    record { synced = removed.synced; keyed = removed.keyed }

-- Whatever devices are added and deleted in whatever order, each device of the central unit stands
-- under its own address, and the index of the descriptions is in step with the raw ones.
pub Reaches-IsConsistent :
    (o : Outside) (c c' : Central) → Reaches o c c' → IsConsistent c → IsConsistent c'
Reaches-IsConsistent o c _ here s = s
Reaches-IsConsistent o c _ (then_step {c'} {c''} before step) s =
    Step-IsConsistent o c' c'' step (Reaches-IsConsistent o c c' before s)
