-- ===== src/Paramsets/Index.antt =====
-- The index from device addresses and parameters to channel numbers in `ParamsetDescriptionCache`
-- (hahomematic/caches/persistent.py).
use hahomematic.Base.{
  ◌≡◌, refl, Bool, true, ◌&&◌, ◌||◌, Option, some, List, [], ◌∷◌, arith, ◌==◌, list_eq, nat_eq,
  pair_eq, option_eq, list_beq_iff, contains, add, contains-add, Option-cases, inl, inr,
}
use hahomematic.Base.Dict.{get_or, lookup, insert, lookup-insert, has, keys}
use hahomematic.Base.Text.{Text}
use hahomematic.Base.Double.{ℤ, ℤ_eq}
use hahomematic.Address.{get_split_channel_address}
use hahomematic.Const.{ParamsetKey, paramset_key_eq}
use hahomematic.Paramsets.{
  Description, AddressIndex, ParamsetDescriptionCache, get_paramset_key_descriptions,
  note_parameters, note_paramsets, add_address_parameter, add_paramset, remove_paramsets,
}
use hahomematic.Paramsets.Lookups.{descriptions-add_paramset, descriptions-remove_paramsets}

abbrev pub has_channel : Text → Text → Option ℤ → AddressIndex → Bool
has_channel device p channel_no index = contains channel_no (get_or [] (lookup (device, p) index))

module _ (device : Text) (n : Option ℤ) where
  has_channel-note_parameters :
      (device' p : Text) (n' : Option ℤ) (ps : List Text) (index : AddressIndex)
      → has_channel device' p n' (note_parameters device n ps index)
        ≡ (has_channel device' p n' index || (device == device' && n == n' && contains p ps))
  unfolding note_parameters contains
  has_channel-note_parameters device' p n' [] index = ground arith
  has_channel-note_parameters device' p n' (q ∷ ps) index =
      let more = add n (get_or [] (lookup (device, q) index)) in
      ground (
        arith,
        has_channel-note_parameters device' p n' ps (insert (device, q) more index),
        lookup-insert (device', p) (device, q) more index,
        contains-add n n' (get_or [] (lookup (device, q) index)),
        list_beq_iff device device',
        list_beq_iff q p,
      )

contains-keys : (p : Text) (d : Description) → contains p (keys d) ≡ has p d
unfolding contains keys has
contains-keys p [] = refl
contains-keys p ((q, v) ∷ d) = ground (arith, contains-keys p d)

-- the index knows the channel number of every channel that has a parameter
pub record IsIndexed (c : ParamsetDescriptionCache) : Type 0 where
  pub at_channel :
      (i ch device p : Text) (n : Option ℤ) (k : ParamsetKey)
      → get_split_channel_address ch ≡ some (device, n)
      → has p (get_paramset_key_descriptions i ch k c) ≡ true
      → has_channel device p n c.address_parameter_cache ≡ true

index-add_paramset :
    (i ch device device' p : Text) (n n' : Option ℤ) (k : ParamsetKey) (d : Description)
    (c : ParamsetDescriptionCache)
    → get_split_channel_address ch ≡ some (device, n)
    → has_channel device' p n' (add_paramset i ch k d c).0.address_parameter_cache ≡ (
        has_channel device' p n' c.address_parameter_cache
        || (device == device' && n == n' && has p d))
unfolding add_paramset add_address_parameter note_paramsets
index-add_paramset i ch device device' p n n' k d c h = ground (
  arith,
  h,
  has_channel-note_parameters device n device' p n' (keys d) c.address_parameter_cache,
  contains-keys p d,
)

split_some :
    (ch : Text) (index : AddressIndex) (ds : List Description)
    → (add_address_parameter ch ds index).1 ≡ true
    → (found : Text × Option ℤ) × (get_split_channel_address ch ≡ some found)
unfolding add_address_parameter
split_some ch index ds h = elim (Option-cases (get_split_channel_address ch)) [
  | inl none_there ↦ cc (none_there, h)
  | inr there ↦ there
]

-- Adding a paramset description of a channel address keeps every parameter of every channel in the
-- index.
pub add_paramset-IsIndexed :
    (i ch : Text) (k : ParamsetKey) (d : Description) (c : ParamsetDescriptionCache)
    → IsIndexed c
    → (add_paramset i ch k d c).1 ≡ true
    → IsIndexed (add_paramset i ch k d c).0
unfolding add_paramset
add_paramset-IsIndexed i ch k d c w fine =
    let ((device, n), split) = split_some ch c.address_parameter_cache (d ∷ []) fine in
    record {
      at_channel = λ j b device' p n' m split' there. ground (
        arith,
        descriptions-add_paramset i j ch b k m d c,
        index-add_paramset i ch device device' p n n' k d c split,
        w.at_channel j b device' p n' m split',
        list_beq_iff ch b,
        list_beq_iff i j,
        list_beq_iff device device',
        (option_eq {A = ℤ}).test_iff n n',
        split,
        split',
        there,
      );
    }

-- Removing the channels of a device keeps every parameter of every remaining channel in the index.
pub remove_paramsets-IsIndexed :
    (i : Text) (channels : List Text) (c : ParamsetDescriptionCache)
    → IsIndexed c
    → IsIndexed (remove_paramsets i channels c)
unfolding remove_paramsets has
remove_paramsets-IsIndexed i channels c w = record {
  at_channel = λ j b device p n m split there. ground (
    arith,
    descriptions-remove_paramsets i j b m channels c,
    w.at_channel j b device p n m split,
    there,
  );
}
