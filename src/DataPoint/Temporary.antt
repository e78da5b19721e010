-- ===== src/DataPoint/Temporary.antt =====
-- Temporary values of a data point (hahomematic/model/data_point.py): what it shows between a sent
-- value and the event that confirms it.
use hahomematic.Base.{◌≡◌, ◌≤◌, ◌<◌, true, false, List, [], ◌∷◌, arith, if◌then◌else◌}
use hahomematic.Base.Value.{Value, null, value_eq}
use hahomematic.Clock.{init_datetime}
use hahomematic.DataPoint.{
  Defaults, DataPoint, new, value_of, reset_temporary_value, no_cache_entry, write_value,
  write_temporary_value, Op, op_write, op_write_temporary, apply, run,
}

-- The times of the defaults come after 1970, and those of the temporary values after the others.
pub record IsOrdered (t : Defaults) : Type 0 where
  pub after_init : (init_datetime < t.modified) × (init_datetime < t.refreshed)
  pub temporary_modified_last :
      (t.modified < t.temporary_modified) × (t.refreshed < t.temporary_modified)
  pub temporary_refreshed_last :
      (t.modified < t.temporary_refreshed) × (t.refreshed < t.temporary_refreshed)

-- The last refresh is not before 1970, and before every temporary one.
pub record IsTimed (t : Defaults) (d : DataPoint) : Type 0 where
  pub at_init : init_datetime ≤ d.refreshed_at
  pub before_temporary :
      (d.refreshed_at < t.temporary_modified) × (d.refreshed_at < t.temporary_refreshed)

pub new-IsTimed : (t : Defaults) → IsOrdered t → IsTimed t new
unfolding new
new-IsTimed t o = record {
  at_init = ground arith;
  before_temporary =
      ground (arith, o.after_init, o.temporary_modified_last, o.temporary_refreshed_last);
}

module _ (t : Defaults) (convert : Value → Value) (o : IsOrdered t) where
  write_value-IsTimed :
      (v : Value) (d : DataPoint) → IsTimed t d → IsTimed t (write_value t convert v d).0
  unfolding write_value reset_temporary_value
  write_value-IsTimed v d w = record {
    at_init = ground (arith, w.at_init, o.after_init);
    before_temporary =
        ground (arith, w.before_temporary, o.temporary_modified_last, o.temporary_refreshed_last);
  }

  write_temporary_value-IsTimed :
      (v : Value) (d : DataPoint) → IsTimed t d → IsTimed t (write_temporary_value t convert v d)
  unfolding write_temporary_value reset_temporary_value
  write_temporary_value-IsTimed v d w = record {
    at_init = ground (arith, w.at_init);
    before_temporary = ground (arith, w.before_temporary);
  }

  pub run-IsTimed : (ops : List Op) (d : DataPoint) → IsTimed t d → IsTimed t (run t convert ops d)
  unfolding run apply
  run-IsTimed [] d w = w
  run-IsTimed (op_write v ∷ ops) d w =
      run-IsTimed ops (write_value t convert v d).0 (write_value-IsTimed v d w)
  run-IsTimed (op_write_temporary v ∷ ops) d w =
      run-IsTimed ops (write_temporary_value t convert v d) (write_temporary_value-IsTimed v d w)

  -- With the times of the defaults in their order, and whatever was written before, a temporary
  -- value is shown, with the state uncertain, if its conversion differs from the confirmed value.
  pub write_temporary_value-shown :
      (ops : List Op) (v : Value)
      → let d = run t convert ops new in
        value_eq d.current_value (convert v) ≡ false
        → let d' = write_temporary_value t convert v d in
          (value_of d' ≡ convert v) × (d'.state_uncertain ≡ true)
  unfolding write_temporary_value reset_temporary_value value_of
  write_temporary_value-shown ops v differs =
      let timed = run-IsTimed ops new (new-IsTimed t o) in
      ground (arith, timed.at_init, timed.before_temporary, differs)

  -- With the times of the defaults in their order, and whatever was written before, a data point
  -- shows no value after a temporary value whose conversion equals the confirmed value.
  pub write_temporary_value-equal :
      (ops : List Op) (v : Value)
      → let d = run t convert ops new in
        value_eq d.current_value (convert v) ≡ true
        → value_of (write_temporary_value t convert v d) ≡ null
  unfolding write_temporary_value reset_temporary_value value_of
  write_temporary_value-equal ops v same =
      let timed = run-IsTimed ops new (new-IsTimed t o) in
      ground (arith, timed.at_init, timed.before_temporary, same)

  -- With the times of the defaults in their order, and whatever was written before, a value that
  -- is written and is not the missing cache entry is shown with the state certain; if it equals
  -- the confirmed value, that one is kept.
  pub write_value-shown :
      (ops : List Op) (v : Value)
      → value_eq v no_cache_entry ≡ false
      → let d = run t convert ops new in
        let d' = (write_value t convert v d).0 in
        (value_of d'
          ≡ (if value_eq d.current_value (convert v) then d.current_value else convert v))
        × (d'.state_uncertain ≡ false)
  unfolding write_value reset_temporary_value value_of
  write_value-shown ops v entry =
      let timed = run-IsTimed ops new (new-IsTimed t o) in
      ground (arith, timed.at_init, o.after_init, entry)
