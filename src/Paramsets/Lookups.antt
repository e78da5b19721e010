-- ===== src/Paramsets/Lookups.antt =====
-- What `get_parameter_data` of `ParamsetDescriptionCache` (hahomematic/caches/persistent.py) returns
-- after its methods.
use hahomematic.Base.{
  ◌≡◌, ◌&&◌, none, List, [], ◌∷◌, arith, ◌==◌, list_eq, nat_eq, list_beq_iff, if◌then◌else◌,
  contains,
}
use hahomematic.Base.Dict.{
  Dict, get_or, lookup, insert, erase, lookup-insert, lookup-erase, lookup-nil,
}
use hahomematic.Base.Text.{Text}
use hahomematic.Const.{ParamsetKey, paramset_key_eq}
use hahomematic.Paramsets.{
  ParameterData, Description, Paramsets, ParamsetDescriptionCache,
  get_channel_paramset_descriptions, get_paramset_key_descriptions, get_parameter_data,
  add_paramset, remove_channels, remove_paramsets, of_interface,
}

pub descriptions-add_paramset :
    (i j ch b : Text) (k m : ParamsetKey) (d : Description) (c : ParamsetDescriptionCache)
    → get_paramset_key_descriptions j b m (add_paramset i ch k d c).0
      ≡ (if i == j && (ch == b && k == m) then d else get_paramset_key_descriptions j b m c)
unfolding add_paramset get_paramset_key_descriptions get_channel_paramset_descriptions
descriptions-add_paramset i j ch b k m d c =
    let paramsets = insert k d (get_channel_paramset_descriptions i ch c) in
    ground (
      arith,
      lookup-insert j i (insert ch paramsets (of_interface i c)) c.raw_paramset_descriptions,
      lookup-insert b ch paramsets (of_interface i c),
      lookup-insert m k d (get_channel_paramset_descriptions i ch c),
      list_beq_iff i j,
      list_beq_iff ch b,
    )

-- After a paramset description was added, its parameters are found under its interface, channel and
-- key with their new data and no other is found there; every other place finds what it found before.
pub get_parameter_data-add_paramset :
    (i j ch b p : Text) (k m : ParamsetKey) (d : Description) (c : ParamsetDescriptionCache)
    → get_parameter_data j b m p (add_paramset i ch k d c).0
      ≡ (if i == j && (ch == b && k == m) then lookup p d else get_parameter_data j b m p c)
unfolding get_parameter_data
get_parameter_data-add_paramset i j ch b p k m d c =
    ground (arith, descriptions-add_paramset i j ch b k m d c)

lookup-remove_channels :
    (a : Text) (channels : List Text) (known : Dict Text Paramsets)
    → lookup a (remove_channels channels known)
      ≡ (if contains a channels then none else lookup a known)
unfolding remove_channels contains
lookup-remove_channels a [] known = ground arith
lookup-remove_channels a (b ∷ rest) known =
    ground (arith, lookup-remove_channels a rest (erase b known), lookup-erase a b known)

channel-remove_paramsets :
    (i j b : Text) (channels : List Text) (c : ParamsetDescriptionCache)
    → get_channel_paramset_descriptions j b (remove_paramsets i channels c)
      ≡ (if i == j && contains b channels then [] else get_channel_paramset_descriptions j b c)
unfolding remove_paramsets get_channel_paramset_descriptions
channel-remove_paramsets i j b channels c =
    let known = get_or [] (lookup i c.raw_paramset_descriptions) in
    let none_there : lookup {V = Paramsets} b [] ≡ none = lookup-nil b in
    ground (
      arith,
      none_there,
      lookup-remove_channels b channels known,
      lookup-insert j i (remove_channels channels known) c.raw_paramset_descriptions,
      list_beq_iff i j,
    )

pub descriptions-remove_paramsets :
    (i j b : Text) (m : ParamsetKey) (channels : List Text) (c : ParamsetDescriptionCache)
    → get_paramset_key_descriptions j b m (remove_paramsets i channels c)
      ≡ (if i == j && contains b channels then [] else get_paramset_key_descriptions j b m c)
unfolding get_paramset_key_descriptions
descriptions-remove_paramsets i j b m channels c =
    let none_there : lookup {V = Description} m [] ≡ none = lookup-nil m in
    ground (arith, none_there, channel-remove_paramsets i j b channels c)

-- Removing a device takes just the parameters of its channels on its interface away.
pub get_parameter_data-remove_paramsets :
    (i j b p : Text) (m : ParamsetKey) (channels : List Text) (c : ParamsetDescriptionCache)
    → get_parameter_data j b m p (remove_paramsets i channels c)
      ≡ (if i == j && contains b channels then none else get_parameter_data j b m p c)
unfolding get_parameter_data
get_parameter_data-remove_paramsets i j b p m channels c =
    let none_there : lookup {V = ParameterData} p [] ≡ none = lookup-nil p in
    ground (arith, none_there, descriptions-remove_paramsets i j b m channels c)
