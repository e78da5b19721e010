-- ===== src/DeviceDescriptions/Lookups.antt =====
-- What the lookups of `DeviceDescriptionCache` (hahomematic/caches/persistent.py) return after its
-- methods.
use hahomematic.Base.{
  ◌≡◌, ◌∙◌, ◌&&◌, none, some, List, [], ◌∷◌, ◌++◌, arith, ◌==◌, list_eq, nat_eq, list_beq_iff,
  if◌then◌else◌, contains,
}
use hahomematic.Base.Dict.{get_or, lookup, insert, erase, lookup-insert, lookup-erase, has-lookup}
use hahomematic.Base.Text.{Text}
use hahomematic.DeviceDescriptions.{
  DeviceDescription, DeviceDescriptionCache, get_raw_device_descriptions, get_device_descriptions,
  find_device_description, interface_addresses, remove_address, remove_addresses, remove_device,
  note_address, convert_device_description, add_device_description,
}

module _ (i j a : Text) (c : DeviceDescriptionCache) where
  find-stored :
      (d : DeviceDescription)
      → find_device_description j a (record c {
        addresses = insert i (interface_addresses i c) c.addresses;
        device_descriptions =
            insert i (insert d.address d (get_device_descriptions i c)) c.device_descriptions;
      })
        ≡ (if i == j && d.address == a then some d else find_device_description j a c)
  unfolding find_device_description
  find-stored d = ground (
    arith,
    lookup-insert a d.address d (get_or [] (lookup i c.device_descriptions)),
    lookup-insert j i (insert d.address d (get_or [] (lookup i c.device_descriptions)))
        c.device_descriptions,
    list_beq_iff i j,
  )

  find-remove_address :
      (b : Text)
      → find_device_description j a (remove_address i b c)
        ≡ (if i == j && b == a then none else find_device_description j a c)
  unfolding find_device_description remove_address
  find-remove_address b = ground (
    arith,
    has-lookup b (get_or [] (lookup i c.device_descriptions)),
    lookup-erase a b (get_or [] (lookup i c.device_descriptions)),
    lookup-insert j i (erase b (get_or [] (lookup i c.device_descriptions))) c.device_descriptions,
    list_beq_iff i j,
    list_beq_iff b a,
  )

  find-note_address :
      (b : Text)
      → find_device_description j a (note_address i b c).0 ≡ find_device_description j a c
  unfolding note_address find_device_description
  find-note_address b = ground arith

module _ (i j a : Text) (c : DeviceDescriptionCache) where
  pub find-convert :
      (d : DeviceDescription)
      → find_device_description j a (convert_device_description i d c).0
        ≡ (if i == j && d.address == a then some d else find_device_description j a c)
  unfolding convert_device_description
  find-convert d =
      let mine : DeviceDescriptionCache = record c {
        addresses = insert i (interface_addresses i c) c.addresses;
        device_descriptions =
            insert i (insert d.address d (get_device_descriptions i c)) c.device_descriptions;
      } in
      find-note_address i j a mine d.address ∙ find-stored i j a c d

-- Whether `a` is among the addresses that are taken off.
find-remove_addresses :
    (i j a : Text) (deleted : List Text) (c : DeviceDescriptionCache)
    → find_device_description j a (remove_addresses i deleted c)
      ≡ (if i == j && contains a deleted then none else find_device_description j a c)
unfolding remove_addresses contains
find-remove_addresses i j a [] c = ground arith
find-remove_addresses i j a (b ∷ rest) c =
    ground (
      arith,
      find-remove_addresses i j a rest (remove_address i b c),
      find-remove_address i j a c b,
    )

-- Removing addresses from an interface takes just these off its descriptions.
pub find-remove_device :
    (i j a : Text) (deleted : List Text) (c : DeviceDescriptionCache)
    → find_device_description j a (remove_device i deleted c)
      ≡ (if i == j && contains a deleted then none else find_device_description j a c)
unfolding remove_device find_device_description
find-remove_device i j a deleted c = find-remove_addresses i j a deleted _

-- After a description was added, it is found under its address on its interface, and every other
-- address, on any interface, finds what it found before.
pub find-add_device_description :
    (i j a : Text) (d : DeviceDescription) (c : DeviceDescriptionCache)
    → find_device_description j a (add_device_description i d c).0
      ≡ (if i == j && d.address == a then some d else find_device_description j a c)
unfolding add_device_description find_device_description contains
find-add_device_description i j a d c =
    let c1 : DeviceDescriptionCache = remove_device i (d.address ∷ []) c in
    let listed : DeviceDescriptionCache = record c1 {
      raw_device_descriptions =
          insert i (get_raw_device_descriptions i c1 ++ (d ∷ [])) c1.raw_device_descriptions;
    } in
    ground (arith, find-convert i j a listed d, find-remove_device i j a (d.address ∷ []) c)
