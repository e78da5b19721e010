-- ===== src/Creation/Keeping.antt =====
-- Un-ignoring parameters (hahomematic/caches/visibility.py) and the data points of
-- hahomematic/model/__init__.py.
use hahomematic.Base.{
  ◌≡◌, refl, sym, ◌∙◌, Bool, true, false, not, ◌&&◌, ◌||◌, list_eq, nat_eq, Option, none, some,
  List, [], ◌∷◌, ◌++◌, if◌then◌else◌, arith, Bool-cases, inl, inr, contains, ℕ,
}
use hahomematic.Base.Text.{Text, lower}
use hahomematic.Const.{ParamsetKey, values, paramset_key_eq}
use hahomematic.Paramsets.{ParameterData}
use hahomematic.Visibility.{
  Tables, VisibilityCache, ChannelNo, parameter_is_ignored, parameter_is_un_ignored, values_ignored,
}
use hahomematic.Visibility.Lines.{add_line_to_cache}
use hahomematic.Visibility.Entries.{add_line_to_cache-keeps}
use hahomematic.Creation.{
  Item, event, data_point, create_data_point, create_event, create_parameter, create_visible,
  is_skipped, is_wanted, op_event, impulse_events, flag_internal, allowed_internal_parameters,
  is_device_error, impulse_event, click_event, device_error_event, can_be_sensor,
  check_switch_to_sensor,
}
use hahomematic.Creation.Classes.{DpClass, choose_class, has_bit, op_write, click_events}

-- whether there is a data point among some items
abbrev pub has_data_point : List Item → Bool
has_data_point [] = false
has_data_point (event _ _ ∷ rest) = has_data_point rest
has_data_point (data_point _ _ _ _ ∷ rest) = true

has_data_point-append :
    (xs ys : List Item) → has_data_point (xs ++ ys) ≡ (has_data_point xs || has_data_point ys)
has_data_point-append [] ys = refl
has_data_point-append (event _ _ ∷ xs) ys = has_data_point-append xs ys
has_data_point-append (data_point _ _ _ _ ∷ xs) ys = refl

abbrev is_some : Option DpClass → Bool
is_some none = false
is_some (some c) = true

chosen_event :
    (off impulse error click : Bool) (p : Text)
    → has_data_point (
        if off
        then []
        else if impulse
        then event impulse_event p ∷ []
        else if error
        then event device_error_event p ∷ []
        else if click
        then event click_event p ∷ []
        else [])
      ≡ false
chosen_event off impulse error click p = ground arith

events_only : (p : Text) (operations : ℕ) → has_data_point (create_event p operations) ≡ false
unfolding create_event
events_only p operations =
    chosen_event (not (has_bit operations op_event)) (contains p impulse_events) (is_device_error p)
      (contains p click_events) p

made_of :
    (c : Option DpClass) (k : ParamsetKey) (p : Text) (sensor : Bool)
    → has_data_point
        (elim c [ none ↦ [] | some d ↦ data_point d k p (can_be_sensor d && sensor) ∷ [] ])
      ≡ is_some c
made_of none k p sensor = refl
made_of (some d) k p sensor = refl

made_data_point :
    (u : Bool) (model p : Text) (k : ParamsetKey) (pd : ParameterData)
    → has_data_point (create_data_point u model k p pd).1 ≡ is_some (choose_class model p pd)
unfolding create_data_point
made_data_point u model p k pd =
    made_of (choose_class model p pd) k p (check_switch_to_sensor u model p)

-- the items of a visible parameter, for the answers to its tests
visible_items :
    (hidden skipped wanted some_class : Bool) (pd pd1 pd2 : ParameterData) (events made : List Item)
    → has_data_point events ≡ false
    → has_data_point made ≡ some_class
    → has_data_point
        (if◌then◌else◌ {A = ParameterData × List Item} hidden
          (pd, [])
          (if skipped
            then (pd1, events)
            else if wanted
            then (pd2, events ++ made)
            else (pd1, events))).1
      ≡ (not hidden && (not skipped && (wanted && some_class)))
visible_items hidden skipped wanted some_class pd pd1 pd2 events made e m =
    ground (arith, e, m, has_data_point-append events made)

-- When a parameter of VALUES gets a data point: exactly if it is un-ignored or neither ignored nor internal
-- nor an error, has an event or can be written, is no impulse, and is of a known type.
pub create_parameter-values :
    (t : Tables) (v : VisibilityCache) (model : Text) (n : ChannelNo) (p : Text)
    (pd : ParameterData)
    → let u = parameter_is_un_ignored t model n values p false v in
      has_data_point (create_parameter t v model n values p pd).1 ≡ (
        not (parameter_is_ignored t model n values p v)
        && (not (is_skipped u p pd.operations pd.flags)
            && (is_wanted u p && is_some (choose_class model p pd))))
unfolding create_parameter create_visible
create_parameter-values t v model n p pd =
    let u = parameter_is_un_ignored t model n values p false v in
    let shown =
      visible_items false (is_skipped u p pd.operations pd.flags) (is_wanted u p)
        (is_some (choose_class model p pd)) pd pd (create_data_point u model values p pd).0
        (create_event p pd.operations) (create_data_point u model values p pd).1
        (events_only p pd.operations) (made_data_point u model p values pd) in
    elim (Bool-cases (parameter_is_ignored t model n values p v)) [
      | inl i ↦ rw i refl
      | inr o ↦ rw o shown
    ]

-- a test that a growing answer excludes
grow :
    (u u' other : Bool)
    → (u ≡ true → u' ≡ true)
    → (not u && other) ≡ false
    → (not u' && other) ≡ false
grow u u' other kept h = ground (arith, kept, h)

-- the tests of a visible parameter, for answers that grow
more :
    (u u' i i' silent internal impulse error allowed known : Bool)
    → (u ≡ true → u' ≡ true)
    → (i ≡ false → i' ≡ false)
    → (not i
        && (not (silent || (internal && not allowed && not u))
            && ((not impulse && (not error || u)) && known)))
      ≡ true
    → (not i'
        && (not (silent || (internal && not allowed && not u'))
            && ((not impulse && (not error || u')) && known)))
      ≡ true
more u u' i i' silent internal impulse error allowed known kept shown h =
    ground (arith, kept, shown, h)

ignored-keeps :
    (t : Tables) (model : Text) (n : ChannelNo) (p : Text) (v v' : VisibilityCache)
    → (parameter_is_un_ignored t model n values p false v ≡ true
        → parameter_is_un_ignored t model n values p false v' ≡ true)
    → parameter_is_ignored t model n values p v ≡ false
    → parameter_is_ignored t model n values p v' ≡ false
unfolding parameter_is_ignored
ignored-keeps t model n p v v' kept h =
    grow (parameter_is_un_ignored t model n values p false v)
      (parameter_is_un_ignored t model n values p false v') _ kept h

-- A parameter of VALUES that has a data point still has one when a line of the un-ignore file was
-- read without an exception before the data points are created.
pub create_parameter-add_line_to_cache :
    (line : Text) (t : Tables) (v v' : VisibilityCache) (model : Text) (n : ChannelNo) (p : Text)
    (pd : ParameterData)
    → add_line_to_cache line v ≡ some v'
    → has_data_point (create_parameter t v model n values p pd).1 ≡ true
    → has_data_point (create_parameter t v' model n values p pd).1 ≡ true
create_parameter-add_line_to_cache line t v v' model n p pd read there =
    let kept = add_line_to_cache-keeps line t model n values p false v v' read in
    create_parameter-values t v' model n p pd
    ∙ more (parameter_is_un_ignored t model n values p false v)
        (parameter_is_un_ignored t model n values p false v')
        (parameter_is_ignored t model n values p v) (parameter_is_ignored t model n values p v')
        (not (has_bit pd.operations op_event) && not (has_bit pd.operations op_write))
        (has_bit pd.flags flag_internal) (contains p impulse_events) (is_device_error p)
        (contains p allowed_internal_parameters) (is_some (choose_class model p pd)) kept
        (ignored-keeps t model n p v v' kept)
        (sym (create_parameter-values t v model n p pd) ∙ there)

un_ignored_shown :
    (u ignored sends written internal allowed impulse error known : Bool)
    → u ≡ true
    → (sends || written) ≡ true
    → impulse ≡ false
    → known ≡ true
    → (not (not u && ignored)
        && (not ((not sends && not written) || (internal && not allowed && not u))
            && ((not impulse && (not error || u)) && known)))
      ≡ true
un_ignored_shown u ignored sends written internal allowed impulse error known hu w o k =
    ground (arith, hu, w, o, k)

-- A parameter of VALUES that is un-ignored, has an event or can be written, is no impulse and is of
-- a known type gets a data point, even if it is internal or an error.
pub create_parameter-un_ignored :
    (t : Tables) (v : VisibilityCache) (model : Text) (n : ChannelNo) (p : Text)
    (pd : ParameterData)
    → parameter_is_un_ignored t model n values p false v ≡ true
    → (has_bit pd.operations op_event || has_bit pd.operations op_write) ≡ true
    → contains p impulse_events ≡ false
    → is_some (choose_class model p pd) ≡ true
    → has_data_point (create_parameter t v model n values p pd).1 ≡ true
unfolding parameter_is_ignored
create_parameter-un_ignored t v model n p pd u works other known =
    create_parameter-values t v model n p pd
    ∙ un_ignored_shown (parameter_is_un_ignored t model n values p false v)
        (values_ignored t (lower model) n p) (has_bit pd.operations op_event)
        (has_bit pd.operations op_write) (has_bit pd.flags flag_internal)
        (contains p allowed_internal_parameters) (contains p impulse_events) (is_device_error p)
        (is_some (choose_class model p pd)) u works other known
