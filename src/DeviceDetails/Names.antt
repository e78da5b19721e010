-- ===== src/DeviceDetails/Names.antt =====
-- Names in `DeviceDetailsCache` (hahomematic/caches/dynamic.py).
use hahomematic.Base.{
  ◌≡◌, refl, ◌∙◌, Bool, false, ◌&&◌, ◌||◌, none, List, [], ◌∷◌, arith, ◌==◌, list_eq, nat_eq,
  list_beq_iff, if◌then◌else◌, contains, add, contains-add,
}
use hahomematic.Base.Dict.{Dict, erase, has, lookup-erase, has-lookup}
use hahomematic.Base.Text.{Text, starts_with}
use hahomematic.DeviceDetails.{
  DeviceDetailsCache, get_name, remove_names, remove_details, update_rooms, collect_rooms,
  get_device_rooms,
}

name-remove_names :
    (a : Text) (deleted : List Text) (c : DeviceDetailsCache)
    → get_name a (remove_names deleted c) ≡ (if contains a deleted then none else get_name a c)
unfolding get_name remove_names contains
name-remove_names a [] c = ground arith
name-remove_names a (b ∷ rest) c = ground (
  arith,
  name-remove_names a rest
      (if has b c.names_cache then record c { names_cache = erase b c.names_cache } else c),
  lookup-erase a b c.names_cache,
  has-lookup b c.names_cache,
  list_beq_iff b a,
)

-- Removing a device takes its name and the names of its channels away, and no other name.
pub get_name-remove_details :
    (a device : Text) (channels : List Text) (c : DeviceDetailsCache)
    → get_name a (remove_details device channels c)
      ≡ (if device == a || contains a channels then none else get_name a c)
unfolding remove_details contains
get_name-remove_details a device channels c =
    name-remove_names a (device ∷ channels) c ∙ ground arith

contains-update_rooms :
    (r : Text) (more rooms : List Text)
    → contains r (update_rooms more rooms) ≡ (contains r more || contains r rooms)
unfolding update_rooms contains
contains-update_rooms r [] rooms = refl
contains-update_rooms r (s ∷ more) rooms =
    ground (arith, contains-update_rooms r more (add s rooms), contains-add s r rooms)

-- whether a room is one of a channel whose address begins with the device's
abbrev pub is_room_of : Text → Text → Dict Text (List Text) → Bool
is_room_of r device [] = false
is_room_of r device ((channel, rooms) ∷ rest) =
    (starts_with channel device && contains r rooms) || is_room_of r device rest

contains-collect_rooms :
    (r device : Text) (d : Dict Text (List Text)) (rooms : List Text)
    → contains r (collect_rooms device d rooms) ≡ (is_room_of r device d || contains r rooms)
unfolding collect_rooms
contains-collect_rooms r device [] rooms = ground arith
contains-collect_rooms r device ((channel, more) ∷ rest) rooms = ground (
  arith,
  contains-collect_rooms r device rest
      (if starts_with channel device then update_rooms more rooms else rooms),
  contains-update_rooms r more rooms,
)

-- The rooms of a device are those of the channels whose address begins with the device's.
pub rooms-get_device_rooms :
    (r device : Text) (c : DeviceDetailsCache)
    → contains r (get_device_rooms device c) ≡ is_room_of r device c.channel_rooms
unfolding get_device_rooms contains
rooms-get_device_rooms r device c =
    contains-collect_rooms r device c.channel_rooms [] ∙ ground arith
