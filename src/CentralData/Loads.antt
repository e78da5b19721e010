-- ===== src/CentralData/Loads.antt =====
-- Reading and loading `CentralDataCache` (hahomematic/caches/dynamic.py).
use hahomematic.Base.{
  ℕ, ◌≡◌, refl, ◌∙◌, true, false, Option, none, some, List, [], ◌∷◌, ◌++◌, arith, list_eq, nat_eq,
  if◌then◌else◌, Bool-cases, inl, inr,
}
use hahomematic.Base.Dict.{Dict, get_or, lookup, lookup-insert, ==_refl}
use hahomematic.Base.Text.{Text, has_char}
use hahomematic.Base.Value.{Value}
use hahomematic.Clock.{max_cache_age, changed_within_seconds}
use hahomematic.Const.{
  Interface, bidcos_rf, bidcos_wired, ccu_jack, cuxd, hmip_rf, virtual_devices, interface_eq,
}
use hahomematic.CentralData.{
  CentralDataCache, no_cache_entry, data_key, escape_colon, interface_text, get_refreshed_at,
  clear_interface, add_data, is_empty, get_data, Source, load, is_other, is_nil,
}

stored_time :
    (i : Interface) (d : Dict Text Value) (now : ℕ) (c : CentralDataCache)
    → get_refreshed_at i (add_data i d now c) ≡ now
unfolding get_refreshed_at add_data
stored_time i d now c = ground (arith, lookup-insert i i now c.refreshed_at, ==_refl i)

stored_data :
    (i : Interface) (d : Dict Text Value) (now : ℕ) (c : CentralDataCache)
    → lookup i (add_data i d now c).value_cache ≡ some d
unfolding add_data
stored_data i d now c = ground (arith, lookup-insert i i d c.value_cache, ==_refl i)

nil_nothing :
    (i : Interface) (d : Dict Text Value) (v : Dict Interface (Dict Text Value))
    → lookup i v ≡ some d
    → is_nil v ≡ false
unfolding lookup
nil_nothing i d [] h = ground (arith, h)
nil_nothing i d (x ∷ v) h = refl

not_nil :
    (i : Interface) (d : Dict Text Value) (now : ℕ) (c : CentralDataCache)
    → is_nil (add_data i d now c).value_cache ≡ false
unfolding add_data
not_nil i d now c =
    let there = stored_data i d now c in nil_nothing i d (add_data i d now c).value_cache there

empty-add_data :
    (i : Interface) (d : Dict Text Value) (now later : ℕ) (c : CentralDataCache)
    → is_empty i later (add_data i d now c) ≡ (
        if changed_within_seconds later now max_cache_age
        then (false, add_data i d now c)
        else (true, clear_interface i (add_data i d now c)))
unfolding is_empty
empty-add_data i d now later c =
    rw (not_nil i d now c, stored_time i d now c)
      (elim (Bool-cases (changed_within_seconds later now max_cache_age)) [
        | inl e ↦ rw e
        | inr e ↦ rw e
      ])

-- Data that was added is read under the key of its channel and parameter while it is recent; after
-- that the cache says that it has no entry.
pub get_data-add_data :
    (i : Interface) (address parameter : Text) (d : Dict Text Value) (now later : ℕ)
    (c : CentralDataCache)
    → (get_data i address parameter later (add_data i d now c)).0 ≡ (
        if changed_within_seconds later now max_cache_age
        then get_or no_cache_entry (lookup (data_key i address parameter) d)
        else no_cache_entry)
unfolding get_data
get_data-add_data i address parameter d now later c =
    rw (empty-add_data i d now later c)
      (elim (Bool-cases (changed_within_seconds later now max_cache_age)) [
        | inl e ↦ rw (e, stored_data i d now c)
        | inr e ↦ rw e
      ])

-- If a client that is asked for counts as loaded in the last seconds once the clients before it were
-- loaded, the whole load is that of the clients before it: no client after it is loaded, however old
-- its values are.
pub load-recent :
    (interface : Option Interface) (before after : List Source) (s : Source) (c : CentralDataCache)
    → is_other interface s.interface ≡ false
    → changed_within_seconds s.now (get_refreshed_at s.interface (load false interface before c)) 3
      ≡ true
    → load false interface (before ++ s ∷ after) c ≡ load false interface before c
unfolding load
load-recent interface [] after s c wanted recent = ground (arith, wanted, recent)
load-recent interface (o ∷ before) after s c wanted recent =
    let fetched : CentralDataCache = elim o.data' [
      | none ↦ c
      | some d ↦ add_data o.interface d o.later c
    ] in
    elim (Bool-cases (is_other interface o.interface)) [
      | inl other ↦ ground (arith, other, recent, load-recent interface before after s c wanted)
      | inr mine ↦
          elim (Bool-cases (changed_within_seconds o.now (get_refreshed_at o.interface c) 3)) [
            | inl ended ↦ ground (arith, mine, ended)
            | inr going ↦
                ground
                  (arith, mine, going, recent, load-recent interface before after s fetched wanted)
          ]
    ]

-- A text without a percent sign is told by its escaped text.
escape_colon-injective :
    (s t : Text)
    → has_char b'%' s ≡ false
    → has_char b'%' t ≡ false
    → escape_colon s ≡ escape_colon t
    → s ≡ t
unfolding escape_colon has_char
escape_colon-injective [] [] hs ht h = refl
escape_colon-injective [] (y ∷ t) hs ht h = ground (arith, h)
escape_colon-injective (x ∷ s) [] hs ht h = ground (arith, h)
escape_colon-injective (x ∷ s) (y ∷ t) hs ht h =
    ground (arith, h, hs, ht, escape_colon-injective s t)

dot-escape_colon : (s : Text) → has_char b'.' (escape_colon s) ≡ has_char b'.' s
unfolding escape_colon has_char
dot-escape_colon [] = refl
dot-escape_colon (x ∷ s) = ground (arith, dot-escape_colon s)

-- Two texts are told apart from what follows their first dot.
dot_injective :
    (s t u v : Text)
    → has_char b'.' s ≡ false
    → has_char b'.' t ≡ false
    → s ++ b'.' ∷ u ≡ t ++ b'.' ∷ v
    → (s ≡ t) × (u ≡ v)
unfolding has_char
dot_injective [] [] u v hs ht h = ground (arith, h)
dot_injective [] (y ∷ t) u v hs ht h = ground (arith, ht, h)
dot_injective (x ∷ s) [] u v hs ht h = ground (arith, hs, h)
dot_injective (x ∷ s) (y ∷ t) u v hs ht h = ground (arith, hs, ht, h, dot_injective s t u v)

interface_no_dot : (i : Interface) → has_char b'.' (interface_text i) ≡ false
unfolding has_char
interface_no_dot bidcos_rf = refl
interface_no_dot bidcos_wired = refl
interface_no_dot ccu_jack = refl
interface_no_dot cuxd = refl
interface_no_dot hmip_rf = refl
interface_no_dot virtual_devices = refl

-- On one interface, the values of two channels or of two parameters never share a key, for channel
-- addresses without a dot and a percent sign.
pub data_key-injective :
    (i : Interface) (address address' parameter parameter' : Text)
    → has_char b'.' address ≡ false
    → has_char b'.' address' ≡ false
    → has_char b'%' address ≡ false
    → has_char b'%' address' ≡ false
    → data_key i address parameter ≡ data_key i address' parameter'
    → (address ≡ address') × (parameter ≡ parameter')
unfolding data_key
data_key-injective i a b p q da db pa pb same =
    let plain = interface_no_dot i in
    let rest =
      (dot_injective (interface_text i) (interface_text i) (escape_colon a ++ b'.' ∷ p)
        (escape_colon b ++ b'.' ∷ q) plain plain same).1 in
    let both =
      dot_injective (escape_colon a) (escape_colon b) p q (dot-escape_colon a ∙ da)
        (dot-escape_colon b ∙ db) rest in
    (escape_colon-injective a b pa pb both.0, both.1)
