-- ===== src/Creation/Again.antt =====
-- Creating the data points of hahomematic/model/__init__.py again, from the parameter data that the
-- first time left behind, as a restart does that reads the saved descriptions.
pub mod Visible
use hahomematic.Base.{
  ◌≡◌, refl, sym, ap, ◌∙◌, Bool, true, false, not, ◌&&◌, ◌==◌, list_eq, nat_eq, Option, List, [],
  ◌∷◌, ◌++◌, eqb, arith, Bool-cases, inl, inr,
}
use hahomematic.Base.Text.{Text}
use hahomematic.Const.{ParamsetKey, master, paramset_key_eq}
use hahomematic.Paramsets.{ParameterData, Description, Paramsets}
use hahomematic.Visibility.{
  Tables, VisibilityCache, ChannelNo, is_relevant_paramset, parameter_is_ignored,
  parameter_is_un_ignored,
}
use hahomematic.Creation.{
  Item, create_data_point, create_event, create_visible, create_parameter, create_paramset,
  create_channel, create_data_points_and_events, left_behind, fix_operations, is_skipped, is_wanted,
}
use hahomematic.Creation.Classes.{DpClass, choose_class}
use hahomematic.Creation.Choices.{choose_again, operations_left, flags_left}
use hahomematic.Creation.Again.Visible.{visible_again}

module _ (t : Tables) (v : VisibilityCache) (model : Text) where
  parameter_again :
      (n : ChannelNo) (key : ParamsetKey) (p : Text) (pd : ParameterData)
      → create_parameter t v model n key p (create_parameter t v model n key p pd).0
        ≡ create_parameter t v model n key p pd
  unfolding create_parameter
  parameter_again n key p pd = elim (Bool-cases (parameter_is_ignored t model n key p v)) [
    | inl i ↦ rw i refl
    | inr o ↦ rw o (visible_again (parameter_is_un_ignored t model n key p false v) model key p pd)
  ]

  paramset_again :
      (n : ChannelNo) (key : ParamsetKey) (d : Description)
      → create_paramset t v model n key (create_paramset t v model n key d).0
        ≡ create_paramset t v model n key d
  unfolding create_paramset
  paramset_again n key [] = refl
  paramset_again n key ((p, pd) ∷ rest) =
      rw (parameter_again n key p pd, paramset_again n key rest) refl

  module _ (n : ChannelNo) (key : ParamsetKey) (d : Description) (rest : Paramsets) where
    channel_relevant :
        is_relevant_paramset model key n v ≡ true
        → create_channel t v model n ((key, d) ∷ rest) ≡ (
          (key, (create_paramset t v model n key d).0) ∷ (create_channel t v model n rest).0,
          (create_paramset t v model n key d).1 ++ (create_channel t v model n rest).1,
        )
    unfolding create_channel
    channel_relevant r = rw r refl

    channel_other :
        is_relevant_paramset model key n v ≡ false
        → create_channel t v model n ((key, d) ∷ rest)
          ≡ ((key, d) ∷ (create_channel t v model n rest).0, (create_channel t v model n rest).1)
    unfolding create_channel
    channel_other o = rw o refl

  channel_again :
      (n : ChannelNo) (d : Paramsets)
      → create_channel t v model n (create_channel t v model n d).0 ≡ create_channel t v model n d
  channel_again n [] = unfold create_channel in refl
  channel_again n ((key, d) ∷ rest) = elim (Bool-cases (is_relevant_paramset model key n v)) [
    | inl r ↦
        ap (λ made. create_channel t v model n made.0) (channel_relevant n key d rest r)
        ∙ channel_relevant n key (create_paramset t v model n key d).0
            (create_channel t v model n rest).0 r
        ∙ rw (paramset_again n key d, channel_again n rest) (sym (channel_relevant n key d rest r))
    | inr o ↦
        ap (λ made. create_channel t v model n made.0) (channel_other n key d rest o)
        ∙ channel_other n key d (create_channel t v model n rest).0 o
        ∙ rw (channel_again n rest) (sym (channel_other n key d rest o))
  ]

  -- the paramsets that were left behind, with the numbers of their channels
  abbrev pub numbered : List (ChannelNo × Paramsets) → List Paramsets → List (ChannelNo × Paramsets)
  numbered [] _ = []
  numbered (_ ∷ _) [] = []
  numbered ((n, _) ∷ channels) (d ∷ ds) = (n, d) ∷ numbered channels ds

  -- Creating the data points and events of a device changes its parameter data; creating them from
  -- the changed data gives the same data points and events, and changes nothing more.
  pub create_data_points_and_events-again :
      (channels : List (ChannelNo × Paramsets))
      → let made = create_data_points_and_events t v model channels in
        create_data_points_and_events t v model (numbered channels made.0) ≡ made
  unfolding create_data_points_and_events
  create_data_points_and_events-again [] = refl
  create_data_points_and_events-again ((n, d) ∷ rest) =
      rw (channel_again n d, create_data_points_and_events-again rest) refl
