-- ===== src/Creation/Choices.antt =====
-- Creating the data points of hahomematic/model/__init__.py again, from the parameter data that it
-- left behind.
use hahomematic.Base.{
  ◌≡◌, refl, ap, ◌∙◌, Bool, true, false, not, ◌&&◌, ◌||◌, ◌==◌, list_eq, nat_eq, Option, none, some,
  if◌then◌else◌, eqb, contains, arith, Bool-cases, inl, inr,
}
use hahomematic.Base.Text.{Text, codes}
use hahomematic.Const.{paramset_key_eq}
use hahomematic.Paramsets.{ParameterData}
use hahomematic.Creation.{left_behind}
use hahomematic.Creation.Classes.{
  has_bit, op_write, DpClass, choose_class, is_binary_sensor, dp_sensor, dp_binary_sensor,
  click_events, dp_switch, dp_action, dp_button, dp_select, dp_float, dp_integer, dp_text,
  written_class, writable_class, button_actions, virtual_remote_models,
}

-- whether a class is one of the two sensors
abbrev pub is_sensor : Option DpClass → Bool
is_sensor (some dp_sensor) = true
is_sensor (some dp_binary_sensor) = true
is_sensor _ = false

writable_no_sensor :
    (b e f i s : Bool)
    → is_sensor (
        if b
        then some dp_switch
        else if e
        then some dp_select
        else if f
        then some dp_float
        else if i
        then some dp_integer
        else if s
        then some dp_text
        else none)
      ≡ false
writable_no_sensor b e f i s = ground arith

written_no_sensor :
    (action only remote click : Bool) (other : Option DpClass)
    → is_sensor other ≡ false
    → is_sensor (
        if action
        then if only
          then if remote then some dp_button else some dp_action
          else if click
          then some dp_button
          else some dp_switch
        else if only
        then some dp_action
        else other)
      ≡ false
written_no_sensor action only remote click other h = ground (arith, h)

written_class-sensor :
    (model parameter : Text) (pd : ParameterData)
    → is_sensor (written_class model parameter pd) ≡ false
unfolding written_class
written_class-sensor model parameter pd =
    written_no_sensor (pd.pd_type == codes "ACTION") (eqb pd.operations op_write)
      (contains parameter button_actions || contains model virtual_remote_models)
      (contains parameter click_events) (writable_class pd.pd_type)
      (writable_no_sensor (pd.pd_type == codes "BOOL") (pd.pd_type == codes "ENUM")
        (pd.pd_type == codes "FLOAT") (pd.pd_type == codes "INTEGER")
        (pd.pd_type == codes "STRING"))

chosen_sensor :
    (writable click binary : Bool) (written : Option DpClass)
    → is_sensor written ≡ false
    → is_sensor (
        if writable
        then written
        else if click
        then none
        else if binary
        then some dp_binary_sensor
        else some dp_sensor)
      ≡ (not writable && not click)
chosen_sensor writable click binary written h = ground (arith, h)

-- A parameter becomes a sensor or a binary sensor exactly if it cannot be written and is no click.
pub choose_class-sensor :
    (model parameter : Text) (pd : ParameterData)
    → is_sensor (choose_class model parameter pd)
      ≡ (not (has_bit pd.operations op_write) && not (contains parameter click_events))
unfolding choose_class
choose_class-sensor model parameter pd =
    chosen_sensor (has_bit pd.operations op_write) (contains parameter click_events)
      (is_binary_sensor pd) (written_class model parameter pd)
      (written_class-sensor model parameter pd)

module _ (model parameter : Text) (pd : ParameterData) where
  nothing_left : (c : Option DpClass) → is_sensor c ≡ false → left_behind c pd ≡ pd
  nothing_left none h = refl
  nothing_left (some dp_action) h = refl
  nothing_left (some dp_binary_sensor) h = ground (arith, h)
  nothing_left (some dp_button) h = refl
  nothing_left (some dp_float) h = refl
  nothing_left (some dp_integer) h = refl
  nothing_left (some dp_select) h = refl
  nothing_left (some dp_sensor) h = refl
  nothing_left (some dp_switch) h = refl
  nothing_left (some dp_text) h = refl

  pub operations_left : (c : Option DpClass) → (left_behind c pd).operations ≡ pd.operations
  operations_left c = ground arith

  pub flags_left : (c : Option DpClass) → (left_behind c pd).flags ≡ pd.flags
  flags_left c = ground arith

module _ (model parameter : Text) (pd : ParameterData) where
  chosen_written :
      has_bit pd.operations op_write ≡ true
      → choose_class model parameter pd ≡ written_class model parameter pd
  unfolding choose_class
  chosen_written w = rw w refl

  module _ (r : has_bit pd.operations op_write ≡ false) where
    chosen_click : contains parameter click_events ≡ true → choose_class model parameter pd ≡ none
    unfolding choose_class
    chosen_click c = rw (r, c) refl

    chosen_read :
        contains parameter click_events ≡ false
        → choose_class model parameter pd
          ≡ (if is_binary_sensor pd then some dp_binary_sensor else some dp_sensor)
    unfolding choose_class
    chosen_read n = rw (r, n) refl

module _ (model parameter : Text) (pd : ParameterData) where
  again_as :
      (c : Option DpClass)
      → choose_class model parameter pd ≡ c
      → choose_class model parameter (left_behind c pd) ≡ c
      → choose_class model parameter (left_behind (choose_class model parameter pd) pd)
        ≡ choose_class model parameter pd
  again_as c is_c again = rw is_c again

  pub choose_again :
      choose_class model parameter (left_behind (choose_class model parameter pd) pd)
      ≡ choose_class model parameter pd
  unfolding is_binary_sensor
  choose_again = elim (Bool-cases (has_bit pd.operations op_write)) [
    | inl w ↦
        let written = chosen_written model parameter pd w in
        let same =
          nothing_left model parameter pd (written_class model parameter pd)
            (written_class-sensor model parameter pd) in
        again_as (written_class model parameter pd) written
          (ap (choose_class model parameter) same ∙ written)
    | inr r ↦ elim (Bool-cases (contains parameter click_events)) [
      | inl c ↦
          again_as none (chosen_click model parameter pd r c) (chosen_click model parameter pd r c)
      | inr n ↦ elim (Bool-cases (is_binary_sensor pd)) [
        | inl b ↦
            again_as (some dp_binary_sensor) (chosen_read model parameter pd r n ∙ rw b refl)
              (chosen_read model parameter (record pd { pd_type = codes "BOOL" }) r n)
        | inr o ↦
            let sensor = chosen_read model parameter pd r n ∙ rw o refl in
            again_as (some dp_sensor) sensor sensor
      ]
    ]
  ]
