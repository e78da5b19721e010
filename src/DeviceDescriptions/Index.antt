-- ===== src/DeviceDescriptions/Index.antt =====
-- The index of `DeviceDescriptionCache` (hahomematic/caches/persistent.py) agrees with the list of
-- raw descriptions, which is what is saved, and is rebuilt from it.
use hahomematic.Base.{
  ◌≡◌, refl, ◌∙◌, true, not, Option, none, some, List, [], ◌∷◌, ◌++◌, arith, ◌==◌, list_eq, nat_eq,
  list_beq_iff, if◌then◌else◌, keep, contains,
}
use hahomematic.Base.Dict.{Dict, get_or, lookup, insert, lookup-insert}
use hahomematic.Base.Text.{Text}
use hahomematic.DeviceDescriptions.{
  DeviceDescription, DeviceDescriptionCache, empty, get_raw_device_descriptions,
  find_device_description, remove_address, remove_addresses, remove_device, note_address,
  convert_device_description, add_device_description, convert_device_descriptions,
  convert_interfaces,
}
use hahomematic.DeviceDescriptions.Lookups.{
  find-remove_device, find-add_device_description, find-convert,
}

-- the last description of an address in a list
abbrev pub find_last : Text → List DeviceDescription → Option DeviceDescription
find_last a [] = none
find_last a (d ∷ ds) = elim (find_last a ds) [
  | some later ↦ some later
  | none ↦ if d.address == a then some d else none
]

abbrev or_else : Option DeviceDescription → Option DeviceDescription → Option DeviceDescription
or_else (some d) other = some d
or_else none other = other

find_last-keep :
    (a : Text) (deleted : List Text) (ds : List DeviceDescription)
    → find_last a (keep (λ d. not (contains d.address deleted)) ds)
      ≡ (if contains a deleted then none else find_last a ds)
unfolding keep
find_last-keep a deleted [] = ground arith
find_last-keep a deleted (d ∷ ds) =
    ground (arith, find_last-keep a deleted ds, list_beq_iff d.address a)

find_last-append :
    (a : Text) (ds : List DeviceDescription) (d : DeviceDescription)
    → find_last a (ds ++ (d ∷ [])) ≡ (if d.address == a then some d else find_last a ds)
find_last-append a [] d = ground arith
find_last-append a (e ∷ ds) d = ground (arith, find_last-append a ds d)

-- on every interface, the lookup of an address finds its last raw description
pub record IsSynced (c : DeviceDescriptionCache) : Type 0 where
  pub at_address :
      (i a : Text) → find_device_description i a c ≡ find_last a (get_raw_device_descriptions i c)

module _ (i j : Text) where
  raw-remove_addresses :
      (deleted : List Text) (c : DeviceDescriptionCache)
      → get_raw_device_descriptions j (remove_addresses i deleted c)
        ≡ get_raw_device_descriptions j c
  unfolding remove_addresses remove_address get_raw_device_descriptions
  raw-remove_addresses [] c = refl
  raw-remove_addresses (a ∷ rest) c = raw-remove_addresses rest (remove_address i a c)

  raw-remove_device :
      (deleted : List Text) (c : DeviceDescriptionCache)
      → get_raw_device_descriptions j (remove_device i deleted c) ≡ (
          if i == j
          then keep (λ d. not (contains d.address deleted)) (get_raw_device_descriptions i c)
          else get_raw_device_descriptions j c)
  unfolding remove_device
  raw-remove_device deleted c =
      raw-remove_addresses deleted _
      ∙ (unfold get_raw_device_descriptions in rw lookup-insert (ground arith))

  raw-convert :
      (d : DeviceDescription) (c : DeviceDescriptionCache)
      → get_raw_device_descriptions j (convert_device_description i d c).0
        ≡ get_raw_device_descriptions j c
  unfolding convert_device_description note_address get_raw_device_descriptions
  raw-convert d c = ground arith

raw-listed :
    (i j : Text) (ds : List DeviceDescription) (c : DeviceDescriptionCache)
    → get_raw_device_descriptions j
        (record c { raw_device_descriptions = insert i ds c.raw_device_descriptions })
      ≡ (if i == j then ds else get_raw_device_descriptions j c)
unfolding get_raw_device_descriptions
raw-listed i j ds c = ground (arith, lookup-insert j i ds c.raw_device_descriptions)

-- the raw descriptions of an interface to which `d` is added: it replaces the one of its address,
-- and goes to the end
abbrev raw_with : DeviceDescription → List DeviceDescription → List DeviceDescription
raw_with d ds = keep (λ e. not (contains e.address (d.address ∷ []))) ds ++ (d ∷ [])

raw-add_device_description :
    (i j : Text) (d : DeviceDescription) (c : DeviceDescriptionCache)
    → get_raw_device_descriptions j (add_device_description i d c).0 ≡ (
        if i == j
        then raw_with d (get_raw_device_descriptions i c)
        else get_raw_device_descriptions j c)
unfolding add_device_description
raw-add_device_description i j d c =
    let c1 : DeviceDescriptionCache = remove_device i (d.address ∷ []) c in
    let ds : List DeviceDescription = get_raw_device_descriptions i c1 ++ (d ∷ []) in
    let listed : DeviceDescriptionCache = record c1 {
      raw_device_descriptions = insert i ds c1.raw_device_descriptions;
    } in
    ground (
      arith,
      raw-convert i j d listed,
      raw-listed i j ds c1,
      raw-remove_device i j (d.address ∷ []) c,
      raw-remove_device i i (d.address ∷ []) c,
      list_beq_iff i i,
    )

find_last-raw_with :
    (a : Text) (d : DeviceDescription) (ds : List DeviceDescription)
    → find_last a (raw_with d ds) ≡ (if d.address == a then some d else find_last a ds)
unfolding contains
find_last-raw_with a d ds = ground (
  arith,
  find_last-append a (keep (λ e. not (contains e.address (d.address ∷ []))) ds) d,
  find_last-keep a (d.address ∷ []) ds,
  list_beq_iff d.address a,
)

-- Taking addresses off keeps the index in step with the raw descriptions.
pub remove_device-IsSynced :
    (i : Text) (deleted : List Text) (c : DeviceDescriptionCache)
    → IsSynced c
    → IsSynced (remove_device i deleted c)
remove_device-IsSynced i deleted c s = record {
  at_address = λ j a. ground (
    arith,
    find-remove_device i j a deleted c,
    raw-remove_device i j deleted c,
    find_last-keep a deleted (get_raw_device_descriptions i c),
    s.at_address i a,
    s.at_address j a,
    list_beq_iff i j,
  );
}

-- Adding a description keeps the index in step with the raw descriptions.
pub add_device_description-IsSynced :
    (i : Text) (d : DeviceDescription) (c : DeviceDescriptionCache)
    → IsSynced c
    → IsSynced (add_device_description i d c).0
add_device_description-IsSynced i d c s = record {
  at_address = λ j a. ground (
    arith,
    find-add_device_description i j a d c,
    raw-add_device_description i j d c,
    find_last-raw_with a d (get_raw_device_descriptions i c),
    s.at_address i a,
    s.at_address j a,
    list_beq_iff i j,
  );
}

find-convert_device_descriptions :
    (i j a : Text) (ds : List DeviceDescription) (c : DeviceDescriptionCache)
    → (convert_device_descriptions i ds c).1 ≡ true
    → find_device_description j a (convert_device_descriptions i ds c).0 ≡ (
        if i == j
        then or_else (find_last a ds) (find_device_description j a c)
        else find_device_description j a c)
unfolding convert_device_descriptions
find-convert_device_descriptions i j a [] c h = ground arith
find-convert_device_descriptions i j a (d ∷ ds) c h = ground (
  arith,
  find-convert_device_descriptions i j a ds (convert_device_description i d c).0,
  find-convert i j a c d,
)

-- no interface twice, as in every dict
abbrev pub IsDict : Dict Text (List DeviceDescription) → Type 0
IsDict [] = Unit
IsDict ((i, _) ∷ d) = (lookup i d ≡ none) × IsDict d

find-convert_interfaces :
    (j a : Text) (d : Dict Text (List DeviceDescription)) (c : DeviceDescriptionCache)
    → IsDict d
    → (convert_interfaces d c).1 ≡ true
    → find_device_description j a (convert_interfaces d c).0
      ≡ or_else (find_last a (get_or [] (lookup j d))) (find_device_description j a c)
unfolding convert_interfaces lookup
find-convert_interfaces j a [] c u h = ground arith
find-convert_interfaces j a ((i, ds) ∷ d) c u h = ground (
  arith,
  find-convert_interfaces j a d (convert_device_descriptions i ds c).0,
  find-convert_device_descriptions i j a ds c,
  list_beq_iff i j,
)

find-empty : (i a : Text) → find_device_description i a empty ≡ none
unfolding find_device_description empty lookup
find-empty i a = refl

-- For a cache that is in step with its raw descriptions, which name each interface once, the index
-- that `load` builds from these descriptions finds, on every interface and for every address, what
-- the index of that cache finds, if no address raises a ValueError.
pub find-reload :
    (i a : Text) (c : DeviceDescriptionCache)
    → IsSynced c
    → IsDict c.raw_device_descriptions
    → (convert_interfaces c.raw_device_descriptions empty).1 ≡ true
    → find_device_description i a (convert_interfaces c.raw_device_descriptions empty).0
      ≡ find_device_description i a c
unfolding get_raw_device_descriptions
find-reload i a c s u h = ground (
  arith,
  find-convert_interfaces i a c.raw_device_descriptions empty u h,
  find-empty i a,
  s.at_address i a,
)
