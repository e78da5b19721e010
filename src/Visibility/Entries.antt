-- ===== src/Visibility/Entries.antt =====
-- What an entry of the un-ignore file changes in the answers of `ParameterVisibilityCache`
-- (hahomematic/caches/visibility.py).
use hahomematic.Base.{
  ◌≡◌, Bool, true, not, ◌&&◌, ◌||◌, some, List, [], ◌∷◌, arith, ◌==◌, list_eq, nat_eq, list_beq_iff,
  contains, add, contains-add, ◌⊎◌, inl, inr,
}
use hahomematic.Base.Dict.{Dict, get_or, lookup, insert, lookup-insert}
use hahomematic.Base.Text.{Text, lower}
use hahomematic.Const.{ParamsetKey, master, paramset_key_eq, paramset_key_beq_iff}
use hahomematic.Visibility.{
  ChannelNo, word, channel_no_eq, channel_no_beq_iff, ByModel, VisibilityCache, Tables, wildcard,
  parameters_at, is_at, custom_un_ignored, is_un_ignored, parameter_is_un_ignored,
}
use hahomematic.Visibility.Lines.{
  insert_parameter, add_complex_un_ignore_entry, add_details, get_un_ignore_line_details,
  LineDetails, no_details, wrong_key, plain, entry, is_word, add_line_to_cache,
}

abbrev channels_of : Text → ByModel → Dict ChannelNo (Dict ParamsetKey (List Text))
channels_of m d = get_or [] (lookup m d)

abbrev paramsets_of : Text → ChannelNo → ByModel → Dict ParamsetKey (List Text)
paramsets_of m n d = get_or [] (lookup n (channels_of m d))

contains-insert_parameter :
    (m m' : Text) (n n' : ChannelNo) (k k' : ParamsetKey) (p p' : Text) (d : ByModel)
    → contains p' (parameters_at m' n' k' (insert_parameter m n k p d))
      ≡ ((m == m' && (n == n' && (k == k' && p == p'))) || contains p' (parameters_at m' n' k' d))
unfolding parameters_at insert_parameter
contains-insert_parameter m m' n n' k k' p p' d =
    let parameters = add p (parameters_at m n k d) in
    let paramsets = insert k parameters (paramsets_of m n d) in
    ground (
      arith,
      lookup-insert m' m (insert n paramsets (channels_of m d)) d,
      lookup-insert n' n paramsets (channels_of m d),
      lookup-insert k' k parameters (paramsets_of m n d),
      contains-add p p' (parameters_at m n k d),
      list_beq_iff m m',
      channel_no_beq_iff n n',
      paramset_key_beq_iff k k',
    )

-- A MASTER entry needs a channel number or none, and a model.
abbrev pub is_accepted : Text → ChannelNo → ParamsetKey → Bool
is_accepted m n k = not (k == master) || (not (is_word n) && not (m == wildcard))

-- An entry un-ignores its parameter at its model, channel and paramset key, unless it is a MASTER
-- entry for a word as channel or for all models; at every other place the same parameters as before
-- are un-ignored.
pub is_at-add_complex_un_ignore_entry :
    (m m' : Text) (n n' : ChannelNo) (k k' : ParamsetKey) (p p' : Text) (c : VisibilityCache)
    → is_at m' n' k' p' (add_complex_un_ignore_entry m n k p c)
      ≡ (is_accepted m n k && (m == m' && (n == n' && (k == k' && p == p'))) || is_at m' n' k' p' c)
unfolding is_at add_complex_un_ignore_entry
is_at-add_complex_un_ignore_entry m m' n n' k k' p p' c =
    ground (arith, contains-insert_parameter m m' n n' k k' p p' c.custom_un_ignore_complex)

is_at-kept :
    (line : LineDetails) (m : Text) (n : ChannelNo) (k : ParamsetKey) (p : Text)
    (c c' : VisibilityCache)
    → add_details line c ≡ some c'
    → is_at m n k p c ≡ true
    → is_at m n k p c' ≡ true
unfolding add_details is_at
is_at-kept no_details m n k p c c' h there = ground (arith, h, there)
is_at-kept wrong_key m n k p c c' h there = ground (arith, h)
is_at-kept (plain []) m n k p c c' h there = ground (arith, h, there)
is_at-kept (plain (x ∷ xs)) m n k p c c' h there = ground (arith, h, there)
is_at-kept (entry m1 n1 p1 k1) m n k p c c' h there =
    ground (arith, is_at-add_complex_un_ignore_entry m1 m n1 n k1 k p1 p c, h, there)

plain-kept :
    (line : LineDetails) (p : Text) (c c' : VisibilityCache)
    → add_details line c ≡ some c'
    → contains p c.custom_un_ignore_values_parameters ≡ true
    → contains p c'.custom_un_ignore_values_parameters ≡ true
unfolding add_details add_complex_un_ignore_entry
plain-kept no_details p c c' h there = ground (arith, h, there)
plain-kept wrong_key p c c' h there = ground (arith, h)
plain-kept (plain []) p c c' h there = ground (arith, h, there)
plain-kept (plain (x ∷ xs)) p c c' h there =
    ground (arith, contains-add (x ∷ xs) p c.custom_un_ignore_values_parameters, h, there)
plain-kept (entry m1 n1 p1 k1) p c c' h there = ground (arith, h, there)

details-kept :
    (line : LineDetails) (t : Tables) (model : Text) (n : ChannelNo) (k : ParamsetKey) (p : Text)
    (custom_only : Bool) (c c' : VisibilityCache)
    → add_details line c ≡ some c'
    → parameter_is_un_ignored t model n k p custom_only c ≡ true
    → parameter_is_un_ignored t model n k p custom_only c' ≡ true
unfolding parameter_is_un_ignored is_un_ignored custom_un_ignored
details-kept line t model n k p custom_only c c' h there = ground (
  arith,
  there,
  plain-kept line p c c' h,
  is_at-kept line (lower model) n k p c c' h,
  is_at-kept line (lower model) (word wildcard) k p c c' h,
  is_at-kept line wildcard n k p c c' h,
  is_at-kept line wildcard (word wildcard) k p c c' h,
)

line-cases :
    (line : Text) (c c' : VisibilityCache)
    → add_line_to_cache line c ≡ some c'
    → ((c'.custom_un_ignore_values_parameters ≡ c.custom_un_ignore_values_parameters)
        × (c'.custom_un_ignore_complex ≡ c.custom_un_ignore_complex))
      ⊎ (add_details (get_un_ignore_line_details line) c ≡ some c')
unfolding add_line_to_cache
line-cases line c c' h = ground (arith, h)

same-answers :
    (t : Tables) (model : Text) (n : ChannelNo) (k : ParamsetKey) (p : Text) (custom_only : Bool)
    (c c' : VisibilityCache)
    → (c'.custom_un_ignore_values_parameters ≡ c.custom_un_ignore_values_parameters)
      × (c'.custom_un_ignore_complex ≡ c.custom_un_ignore_complex)
    → parameter_is_un_ignored t model n k p custom_only c ≡ true
    → parameter_is_un_ignored t model n k p custom_only c' ≡ true
unfolding parameter_is_un_ignored is_un_ignored custom_un_ignored is_at
same-answers t model n k p custom_only c c' same there = ground (arith, same, there)

-- A line of the un-ignore file that is read without an exception takes no parameter away from what
-- is un-ignored, for any model, channel and paramset key.
pub add_line_to_cache-keeps :
    (line : Text) (t : Tables) (model : Text) (n : ChannelNo) (k : ParamsetKey) (p : Text)
    (custom_only : Bool) (c c' : VisibilityCache)
    → add_line_to_cache line c ≡ some c'
    → parameter_is_un_ignored t model n k p custom_only c ≡ true
    → parameter_is_un_ignored t model n k p custom_only c' ≡ true
add_line_to_cache-keeps line t model n k p custom_only c c' h there =
    elim (line-cases line c c' h) [
      | inl same ↦ same-answers t model n k p custom_only c c' same there
      | inr added ↦
          details-kept (get_un_ignore_line_details line) t model n k p custom_only c c' added there
    ]
