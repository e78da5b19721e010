-- ===== src/Visibility/Files.antt =====
-- A line `PARAMETER:KEY@model:channel` of the un-ignore file (hahomematic/caches/visibility.py), from
-- its text to the answers of the cache.
use hahomematic.Base.{
  ◌≡◌, ◌≢◌, refl, ap, ◌∙◌, Bool, true, false, ◌&&◌, ◌||◌, some, [], ◌∷◌, ◌++◌, arith, ◌==◌, list_eq,
  nat_eq, list_beq_iff, add, contains-add, Bool-cases, inl, inr,
}
use hahomematic.Base.Dict.{==_refl}
use hahomematic.Base.Text.{
  Text, codes, lower, strip, split, has_char, starts_with, has_char_mid, is_space,
}
use hahomematic.Const.{ParamsetKey, values, paramset_key_eq}
use hahomematic.Visibility.{
  ChannelNo, word, channel_no_eq, VisibilityCache, Tables, wildcard, custom_un_ignored,
  is_un_ignored, parameter_is_un_ignored,
}
use hahomematic.Visibility.Lines.{
  channel_of, to_details, channel_details, parameter_details, at_details,
  get_un_ignore_line_details, paramset_key_of, add_details, add_complex_un_ignore_entry,
  add_line_to_cache,
}
use hahomematic.Visibility.Entries.{is_accepted, is_at-add_complex_un_ignore_entry}
use hahomematic.Visibility.Parts.{two_parts, joined_plain, plain_cons, strip-has_char}

abbrev pub line_of : Text → Text → Text → Text → Text
line_of parameter key_name model channel =
    (parameter ++ b':' ∷ key_name) ++ b'@' ∷ (model ++ b':' ∷ channel)

parameter_details-key :
    (parameter key_name data' : Text) (k : ParamsetKey)
    → paramset_key_of key_name ≡ some k
    → parameter_details (parameter ∷ key_name ∷ []) data'
      ≡ channel_details parameter k (split b':' data')
unfolding parameter_details
parameter_details-key parameter key_name data' k h = ground (arith, h)

channel_details-two :
    (parameter model channel : Text) (k : ParamsetKey)
    → channel_details parameter k (model ∷ channel ∷ [])
      ≡ to_details parameter k (lower model) (channel_of channel)
unfolding channel_details
channel_details-two parameter model channel k = refl

details-line_of :
    (parameter key_name model channel : Text) (k : ParamsetKey)
    → has_char b'@' parameter ≡ false
    → has_char b':' parameter ≡ false
    → has_char b'@' model ≡ false
    → has_char b':' model ≡ false
    → has_char b'@' key_name ≡ false
    → has_char b':' key_name ≡ false
    → has_char b'@' channel ≡ false
    → has_char b':' channel ≡ false
    → paramset_key_of key_name ≡ some k
    → get_un_ignore_line_details (line_of parameter key_name model channel)
      ≡ to_details parameter k (lower model) (channel_of channel)
unfolding get_un_ignore_line_details at_details
details-line_of parameter key_name model channel k pa pc ma mc ka kc ca cc' key =
    let before = joined_plain b'@' b':' parameter key_name pa (plain_cons key_name ka) in
    let after = joined_plain b'@' b':' model channel ma (plain_cons channel ca) in
    let mine = two_parts b':' parameter key_name pc kc in
    let other = two_parts b':' model channel mc cc' in
    rw (
      has_char_mid b'@' (parameter ++ b':' ∷ key_name) (model ++ b':' ∷ channel),
      two_parts b'@' (parameter ++ b':' ∷ key_name) (model ++ b':' ∷ channel) before after,
      mine,
      parameter_details-key parameter key_name (model ++ b':' ∷ channel) k key,
      other,
      channel_details-two parameter model channel k,
    )

add_line-details :
    (line : Text) (c : VisibilityCache)
    → strip line ≢ []
    → starts_with (lower line) (codes "ignore_") ≡ false
    → add_line_to_cache line c ≡ add_details (get_un_ignore_line_details line) c
unfolding add_line_to_cache
add_line-details line c there normal = ground (arith, there, normal, list_beq_iff (strip line) [])

-- whether an entry for a model or for all models is about a model
abbrev pub is_model_meant : Text → Text → ParamsetKey → Bool
is_model_meant model asked k =
    (lower model == lower asked) || (k == values && lower model == wildcard)

-- whether an entry for a channel or for all channels is about a channel
abbrev pub is_channel_meant : Text → ChannelNo → ParamsetKey → Bool
is_channel_meant channel asked k =
    (channel_of channel == asked) || (k == values && channel_of channel == word wildcard)

module _ (t : Tables) (model channel asked : Text) (n : ChannelNo) (k : ParamsetKey)
    (custom_only : Bool) (c : VisibilityCache) (model_meant : is_model_meant model asked k ≡ true)
    (channel_meant : is_channel_meant channel n k ≡ true) where
  entry-un_ignored :
      (parameter : Text)
      → is_accepted (lower model) (channel_of channel) k ≡ true
      → parameter_is_un_ignored t asked n k parameter custom_only
          (add_complex_un_ignore_entry (lower model) (channel_of channel) k parameter c)
        ≡ true
  unfolding parameter_is_un_ignored is_un_ignored custom_un_ignored
  entry-un_ignored parameter accepted =
      let m = lower model in
      let ch = channel_of channel in
      let kept = λ (m' : Text) (n' : ChannelNo).
        is_at-add_complex_un_ignore_entry m m' ch n' k k parameter parameter c in
      ground (
        arith,
        accepted,
        model_meant,
        channel_meant,
        kept (lower asked) n,
        kept (lower asked) (word wildcard),
        kept wildcard n,
        kept wildcard (word wildcard),
        ==_refl k,
        ==_refl parameter,
      )

  details-un_ignored :
      (parameter : Text)
      → (parameter == []) ≡ false
      → is_accepted (lower model) (channel_of channel) k ≡ true
      → (c' : VisibilityCache) × (add_details
            (to_details parameter k (lower model) (channel_of channel))
            c
          ≡ some c')
        × (parameter_is_un_ignored t asked n k parameter custom_only c' ≡ true)
  unfolding to_details add_details parameter_is_un_ignored is_un_ignored
  details-un_ignored [] some_text accepted = cc (some_text)
  details-un_ignored (p ∷ ps) some_text accepted =
      elim (Bool-cases
        (lower model == wildcard && (channel_of channel == word wildcard && k == values))) [
          | inl everywhere ↦ (
            record c {
              custom_un_ignore_values_parameters =
                  add (p ∷ ps) c.custom_un_ignore_values_parameters;
            },
            rw everywhere refl,
            ground (
              arith,
              everywhere,
              contains-add (p ∷ ps) (p ∷ ps) c.custom_un_ignore_values_parameters,
              ==_refl p,
              ==_refl ps,
            ),
          )
          | inr there ↦ (
            add_complex_un_ignore_entry (lower model) (channel_of channel) k (p ∷ ps) c,
            rw there refl,
            entry-un_ignored (p ∷ ps) accepted,
          )
        ]

-- A line `PARAMETER:KEY@model:channel` whose parts have no `@` and no colon, with a parameter that is
-- not empty and a paramset key, and which does not begin with `ignore_` in any case, is read; for the
-- key MASTER the channel is a number or empty and the model is not `all`. The parameter is then
-- un-ignored with the key for this model in any case and the channel so written, and for the key
-- VALUES also for every model if the model is `all`, and for every channel if the channel is `all`.
pub line_of-un_ignored :
    (t : Tables) (parameter key_name model channel asked : Text) (n : ChannelNo) (k : ParamsetKey)
    (custom_only : Bool) (c : VisibilityCache)
    → (parameter == []) ≡ false
    → has_char b'@' parameter ≡ false
    → has_char b':' parameter ≡ false
    → has_char b'@' model ≡ false
    → has_char b':' model ≡ false
    → has_char b'@' key_name ≡ false
    → has_char b':' key_name ≡ false
    → has_char b'@' channel ≡ false
    → has_char b':' channel ≡ false
    → paramset_key_of key_name ≡ some k
    → is_accepted (lower model) (channel_of channel) k ≡ true
    → is_model_meant model asked k ≡ true
    → is_channel_meant channel n k ≡ true
    → starts_with (lower (line_of parameter key_name model channel)) (codes "ignore_") ≡ false
    → (c' : VisibilityCache) × (add_line_to_cache (line_of parameter key_name model channel) c
        ≡ some c')
      × (parameter_is_un_ignored t asked n k parameter custom_only c' ≡ true)
unfolding is_space
line_of-un_ignored t parameter key_name model channel asked n k custom_only c given pa pc ma mc ka
      kc ca chc key accepted model_meant channel_meant normal =
    let line = line_of parameter key_name model channel in
    let there =
      strip-has_char b'@' line refl
        (has_char_mid b'@' (parameter ++ b':' ∷ key_name) (model ++ b':' ∷ channel)) in
    let read = details-line_of parameter key_name model channel k pa pc ma mc ka kc ca chc key in
    let (c', added, un_ignored) =
      details-un_ignored t model channel asked n k custom_only c model_meant channel_meant parameter
        given accepted in
    (c', add_line-details line c there normal ∙ ap (λ d. add_details d c) read ∙ added, un_ignored)
