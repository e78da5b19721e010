-- ===== src/Creation/Again/Visible.antt =====
-- Creating the data point and the event of one parameter again: hahomematic/model/__init__.py.
use hahomematic.Base.{
  ◌≡◌, refl, ap, ◌∙◌, Bool, true, false, not, ◌&&◌, ◌==◌, list_eq, nat_eq, Option, List, [], ◌++◌,
  eqb, arith, Bool-cases, inl, inr,
}
use hahomematic.Base.Text.{Text}
use hahomematic.Const.{ParamsetKey, master, paramset_key_eq}
use hahomematic.Paramsets.{ParameterData}
use hahomematic.Creation.{
  Item, create_data_point, create_event, create_visible, left_behind, fix_operations, is_skipped,
  is_wanted,
}
use hahomematic.Creation.Classes.{DpClass, choose_class}
use hahomematic.Creation.Choices.{choose_again, operations_left, flags_left}

-- whether the operations of a parameter are to be changed
abbrev is_unfixed : ParamsetKey → ParameterData → Bool
is_unfixed key pd = key == master && eqb pd.operations 0

fixed_already :
    (key : ParamsetKey) (pd : ParameterData)
    → is_unfixed key pd ≡ false
    → fix_operations key pd ≡ pd
fixed_already key pd h = rw h refl

fixed_now :
    (key : ParamsetKey) (pd : ParameterData) → is_unfixed key (fix_operations key pd) ≡ false
fixed_now key pd = ground arith

left_twice :
    (c : Option DpClass) (pd : ParameterData) → left_behind c (left_behind c pd) ≡ left_behind c pd
left_twice c pd = ground arith

module _ (un_ignored : Bool) (model : Text) (key : ParamsetKey) (parameter : Text) where
  left_again :
      (pd : ParameterData)
      → let q = left_behind (choose_class model parameter pd) pd in
        left_behind (choose_class model parameter q) q ≡ q
  left_again pd =
      ap (λ c. left_behind c (left_behind (choose_class model parameter pd) pd))
        (choose_again model parameter pd)
      ∙ left_twice (choose_class model parameter pd) pd

  data_point_again :
      (pd : ParameterData)
      → (create_data_point un_ignored model key parameter
          (left_behind (choose_class model parameter pd) pd)).1
        ≡ (create_data_point un_ignored model key parameter pd).1
  unfolding create_data_point
  data_point_again pd = rw (create_data_point, choose_again model parameter pd) refl

  module _ (pd : ParameterData) where
    visible_hidden :
        (key == master && not un_ignored) ≡ true
        → create_visible un_ignored model key parameter pd ≡ (pd, [])
    unfolding create_visible
    visible_hidden h = rw h refl

    module _ (shown : (key == master && not un_ignored) ≡ false) (pd1 : ParameterData)
        (fixed : fix_operations key pd ≡ pd1) where
      visible_skipped :
          is_skipped un_ignored parameter pd1.operations pd1.flags ≡ true
          → create_visible un_ignored model key parameter pd
            ≡ (pd1, create_event parameter pd1.operations)
      unfolding create_visible
      visible_skipped s = rw (fixed, shown, s) refl

      visible_plain :
          is_skipped un_ignored parameter pd1.operations pd1.flags ≡ false
          → is_wanted un_ignored parameter ≡ false
          → create_visible un_ignored model key parameter pd
            ≡ (pd1, create_event parameter pd1.operations)
      unfolding create_visible
      visible_plain s w = rw (fixed, shown, s, w) refl

      visible_full :
          is_skipped un_ignored parameter pd1.operations pd1.flags ≡ false
          → is_wanted un_ignored parameter ≡ true
          → create_visible un_ignored model key parameter pd ≡ (
            left_behind (choose_class model parameter pd1) pd1,
            create_event parameter pd1.operations
                ++ (create_data_point un_ignored model key parameter pd1).1,
          )
      unfolding create_visible create_data_point
      visible_full s w = rw (fixed, shown, s, w) refl

  visible_left :
      (pd1 : ParameterData)
      → (key == master && not un_ignored) ≡ false
      → is_unfixed key pd1 ≡ false
      → is_skipped un_ignored parameter pd1.operations pd1.flags ≡ false
      → is_wanted un_ignored parameter ≡ true
      → create_visible un_ignored model key parameter
          (left_behind (choose_class model parameter pd1) pd1)
        ≡ (
          left_behind (choose_class model parameter pd1) pd1,
          create_event parameter pd1.operations
              ++ (create_data_point un_ignored model key parameter pd1).1,
        )
  visible_left pd1 n fixed u w =
      let chosen = choose_class model parameter pd1 in
      let q = left_behind chosen pd1 in
      let ops = operations_left model parameter pd1 chosen in
      let flags = flags_left model parameter pd1 chosen in
      let left = left_again pd1 in
      let made = data_point_again pd1 in
      let still = ap (λ o. key == master && eqb o 0) ops ∙ fixed in
      let seen =
        ap (λ o. is_skipped un_ignored parameter o q.flags) ops
        ∙ ap (is_skipped un_ignored parameter pd1.operations) flags
        ∙ u in
      visible_full q n q (fixed_already key q still) seen w
      ∙ ap
          (λ l. (
            l,
            create_event parameter q.operations
                ++ (create_data_point un_ignored model key parameter q).1,
          ))
          left
      ∙ ap
          (λ o.
            (q, create_event parameter o ++ (create_data_point un_ignored model key parameter q).1))
          ops
      ∙ ap (λ m. (q, create_event parameter pd1.operations ++ m)) made

  again_of :
      (pd q : ParameterData) (items : List Item)
      → create_visible un_ignored model key parameter pd ≡ (q, items)
      → create_visible un_ignored model key parameter q ≡ (q, items)
      → create_visible un_ignored model key parameter
          (create_visible un_ignored model key parameter pd).0
        ≡ create_visible un_ignored model key parameter pd
  again_of pd q items first second = rw first second

  pub visible_again :
      (pd : ParameterData)
      → create_visible un_ignored model key parameter
          (create_visible un_ignored model key parameter pd).0
        ≡ create_visible un_ignored model key parameter pd
  visible_again pd =
      let pd1 = fix_operations key pd in
      let fixed = fixed_already key pd1 (fixed_now key pd) in
      let events = create_event parameter pd1.operations in
      let chosen = choose_class model parameter pd1 in
      let q = left_behind chosen pd1 in
      elim (Bool-cases (key == master && not un_ignored)) [
        | inl h ↦ again_of pd pd [] (visible_hidden pd h) (visible_hidden pd h)
        | inr n ↦ elim (Bool-cases (is_skipped un_ignored parameter pd1.operations pd1.flags)) [
          | inl s ↦
              again_of pd pd1 events (visible_skipped pd n pd1 refl s)
                (visible_skipped pd1 n pd1 fixed s)
          | inr u ↦ elim (Bool-cases (is_wanted un_ignored parameter)) [
            | inr w ↦
                again_of pd pd1 events (visible_plain pd n pd1 refl u w)
                  (visible_plain pd1 n pd1 fixed u w)
            | inl w ↦
                again_of pd q _ (visible_full pd n pd1 refl u w)
                  (visible_left pd1 n (fixed_now key pd) u w)
          ]
        ]
      ]
