-- ===== src/Central/Devices.antt =====
-- The devices of a central unit (hahomematic/central/__init__.py): each stands under its own address,
-- and which devices there are after new ones were created or some were deleted.
use hahomematic.Base.{
  ◌≡◌, refl, sym, ◌∙◌, Bool, false, not, ◌&&◌, ◌||◌, none, some, List, [], ◌∷◌, arith, ◌==◌,
  list_eq, nat_eq, list_beq_iff, contains, contains-keep, keep, Option-cases, inl, inr,
}
use hahomematic.Base.Dict.{
  Dict, keys, lookup, has, insert, erase, lookup-insert, lookup-erase, has-insert,
}
use hahomematic.Base.Text.{Text}
use hahomematic.DeviceDescriptions.{
  DeviceDescription, DeviceDescriptionCache, find_device_description, get_raw_device_descriptions,
  get_addresses,
}
use hahomematic.Paramsets.{has_interface_id}
use hahomematic.DeviceDescriptions.Index.{IsSynced, find_last}
use hahomematic.Central.{Device, Central, Outside}
use hahomematic.Central.Create.{
  make_device, create_device, create_on_interface, create_devices, create_new_devices,
  new_addresses, check_interfaces, check_for_new_device_addresses,
}

-- each device stands under its own address
pub record IsKeyed (devices : Dict Text Device) : Type 0 where
  pub at_own : (a : Text) (d : Device) → lookup a devices ≡ some d → d.address ≡ a

-- The index of the descriptions is in step with the raw ones, and each device stands under its own
-- address.
pub record IsConsistent (c : Central) : Type 0 where
  pub synced : IsSynced c.device_descriptions
  pub keyed : IsKeyed c.devices

find_last_keyed :
    (a : Text) (d : DeviceDescription) (ds : List DeviceDescription)
    → find_last a ds ≡ some d
    → d.address ≡ a
find_last_keyed a d [] h = ground (arith, h)
find_last_keyed a d (e ∷ ds) h = ground (arith, h, find_last_keyed a d ds, list_beq_iff e.address a)

pub find_keyed :
    (i a : Text) (d : DeviceDescription) (c : DeviceDescriptionCache)
    → IsSynced c
    → find_device_description i a c ≡ some d
    → d.address ≡ a
find_keyed i a d c synced h =
    find_last_keyed a d (get_raw_device_descriptions i c) (sym (synced.at_address i a) ∙ h)

pub insert-IsKeyed :
    (a : Text) (d : Device) (devices : Dict Text Device)
    → d.address ≡ a
    → IsKeyed devices
    → IsKeyed (insert a d devices)
insert-IsKeyed a d devices own keyed = record {
  at_own = λ b e h.
      ground (arith, h, own, lookup-insert b a d devices, keyed.at_own b e, list_beq_iff a b);
}

pub erase-IsKeyed :
    (a : Text) (devices : Dict Text Device) → IsKeyed devices → IsKeyed (erase a devices)
erase-IsKeyed a devices keyed = record {
  at_own = λ b e h. ground (arith, h, lookup-erase b a devices, keyed.at_own b e);
}

-- whether the description of an address is there and a device is built from it
abbrev pub is_built : Outside → DeviceDescriptionCache → Text → Text → Bool
is_built o c i a = elim (find_device_description i a c) [
  | none ↦ false
  | some d ↦ o.builds (make_device i d)
]

-- whether one of the addresses that are new on their interface is `a`, and built
abbrev pub is_created : Outside → DeviceDescriptionCache → Dict Text (List Text) → Text → Bool
is_created o c [] a = false
is_created o c ((i, addresses) ∷ rest) a =
    (contains a addresses && is_built o c i a) || is_created o c rest a

-- Whether one of the interfaces has paramsets and the address, and the device can be built there.
abbrev pub is_waiting : Outside → Central → List Text → Text → Bool
is_waiting o c [] a = false
is_waiting o c (i ∷ rest) a =
    (has_interface_id i c.paramset_descriptions
      && (contains a (get_addresses i c.device_descriptions)
          && is_built o c.device_descriptions i a))
    || is_waiting o c rest a

module _ (o : Outside) (i : Text) where
  descriptions-create_device :
      (a : Text) (c : Central) → (create_device o i a c).device_descriptions ≡ c.device_descriptions
  unfolding create_device
  descriptions-create_device a c = ground arith

  has-create_device :
      (a b : Text) (c : Central)
      → has b (create_device o i a c).devices
        ≡ (has b c.devices || (a == b && is_built o c.device_descriptions i b))
  unfolding create_device
  has-create_device a b c =
      elim (Option-cases (find_device_description i a c.device_descriptions)) [
        | inl gone ↦ ground (arith, gone, list_beq_iff a b)
        | inr (d, found) ↦
            ground (arith, found, list_beq_iff a b, has-insert b a (make_device i d) c.devices)
      ]

  descriptions-create_on_interface :
      (addresses : List Text) (c : Central)
      → (create_on_interface o i addresses c).device_descriptions ≡ c.device_descriptions
  unfolding create_on_interface
  descriptions-create_on_interface [] c = refl
  descriptions-create_on_interface (a ∷ rest) c =
      descriptions-create_on_interface rest (create_device o i a c) ∙ descriptions-create_device a c

  has-create_on_interface :
      (addresses : List Text) (b : Text) (c : Central)
      → has b (create_on_interface o i addresses c).devices
        ≡ (has b c.devices || (contains b addresses && is_built o c.device_descriptions i b))
  unfolding create_on_interface contains
  has-create_on_interface [] b c = ground arith
  has-create_on_interface (a ∷ rest) b c =
      rw
        (
          has-create_on_interface rest b (create_device o i a c),
          has-create_device a b c,
          descriptions-create_device a c,
        )
        (ground arith)

module _ (o : Outside) where
  has-create_devices :
      (new : Dict Text (List Text)) (b : Text) (c : Central)
      → has b (create_devices o new c).devices
        ≡ (has b c.devices || is_created o c.device_descriptions new b)
  unfolding create_devices
  has-create_devices [] b c = ground arith
  has-create_devices ((i, addresses) ∷ rest) b c =
      rw
        (
          has-create_devices rest b (create_on_interface o i addresses c),
          has-create_on_interface o i addresses b c,
          descriptions-create_on_interface o i addresses c,
        )
        (ground arith)

  created_offered :
      (i b : Text) (xs : List Text) (others : Dict Text (List Text)) (c : DeviceDescriptionCache)
      → is_created o c (elim xs [ [] ↦ others | a ∷ more ↦ (i, a ∷ more) ∷ others ]) b
        ≡ ((contains b xs && is_built o c i b) || is_created o c others b)
  unfolding contains
  created_offered i b [] others c = refl
  created_offered i b (a ∷ more) others c = refl

  created-check_interfaces :
      (interface_ids : List Text) (b : Text) (c : Central)
      → (has b c.devices || is_created o c.device_descriptions (check_interfaces interface_ids c) b)
        ≡ (has b c.devices || is_waiting o c interface_ids b)
  unfolding check_interfaces new_addresses
  created-check_interfaces [] b c = refl
  created-check_interfaces (i ∷ rest) b c =
      let addresses = get_addresses i c.device_descriptions in
      ground (
        arith,
        contains-keep (λ a. not (has a c.devices)) b addresses,
        created_offered i b (keep (λ a. not (has a c.devices)) addresses) (check_interfaces rest c)
            c.device_descriptions,
        created-check_interfaces rest b c,
      )

  has_created :
      (new : Dict Text (List Text)) (b : Text) (c : Central)
      → has b
          (elim new as (λ n. Central) [
            | [] ↦ c
            | some_new ∷ more ↦
                create_devices o
                  (some_new ∷ more)
                  (record c { device_details = o.load_details c.device_details })
          ]).devices
        ≡ (has b c.devices || is_created o c.device_descriptions new b)
  has_created [] b c = ground arith
  has_created (some_new ∷ more) b c = has-create_devices (some_new ∷ more) b _

  -- Looking for new devices and creating them keeps every device and adds just those addresses that
  -- an interface with paramsets has, that are described there, and that can be built.
  pub devices-create_new_devices :
      (b : Text) (c : Central)
      → has b (create_new_devices o c).devices
        ≡ (has b c.devices || is_waiting o c (keys c.clients) b)
  unfolding create_new_devices check_for_new_device_addresses
  devices-create_new_devices b c =
      has_created (check_for_new_device_addresses c) b c
      ∙ created-check_interfaces (keys c.clients) b c
