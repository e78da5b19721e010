-- ===== src/Writing/Outcomes.antt =====
-- What the writing methods of hahomematic/client/__init__.py send, store and raise.
use hahomematic.Base.{
  ℕ, ◌≡◌, Bool, true, false, Option, none, not, ◌&&◌, [], ◌∷◌, arith, list_eq, nat_eq, eqb, length,
}
use hahomematic.Base.Dict.{Dict}
use hahomematic.Base.Text.{Text}
use hahomematic.Base.Value.{Value}
use hahomematic.Clock.{changed_within_seconds}
use hahomematic.Const.{values}
use hahomematic.Converter.{is_convertable}
use hahomematic.CommandCache.{CommandCache, dp_key, get_last_value_send}
use hahomematic.CommandCache.Commands.{get-add_set_value}
use hahomematic.Writing.{
  Backend, PutKey, of_address, CommandRxMode, call_set_value, Outcome, returns, passed, route,
  convert_checked, checked_paramset, store_value, store_paramset, exec_set_value, put_paramset,
  set_value,
}

-- whether a method returned
abbrev pub has_returned : Outcome → Bool
has_returned (returns sent) = true
has_returned _ = false

-- A `_set_value` that raises has stored nothing: the cache of sent values is as it was.
pub exec_set_value-raises :
    (b : Backend) (address parameter : Text) (v : Value) (rx : Option CommandRxMode) (check : Bool)
    (now : ℕ → ℕ) (c : CommandCache)
    → has_returned (exec_set_value b address parameter v rx check now c).outcome ≡ false
    → (exec_set_value b address parameter v rx check now c).cache ≡ c
unfolding exec_set_value store_value
exec_set_value-raises b address parameter v rx check now c h = ground (arith, h)

-- A `put_paramset` that raises has stored nothing: the cache of sent values is as it was.
pub put_paramset-raises :
    (b : Backend) (address : Text) (key : PutKey) (d : Dict Text Value) (rx : Option CommandRxMode)
    (check : Bool) (now : ℕ → ℕ) (c : CommandCache)
    → has_returned (put_paramset b address key d rx check now c).outcome ≡ false
    → (put_paramset b address key d rx check now c).cache ≡ c
unfolding put_paramset store_paramset
put_paramset-raises b address key d rx check now c h = ground (arith, h)

-- If a value of VALUES passes its check as some checked value and the backend answers, then
-- `set_value` with the check and without a receive mode makes one call, with the value as it was
-- given, and a parameter that is not combined counts, within the given age, as last sent with the
-- checked value.
pub set_value-stored :
    (b : Backend) (address parameter : Text) (v checked : Value) (now later : ℕ → ℕ) (max_age : ℕ)
    (c : CommandCache)
    → convert_checked b address values parameter v ≡ passed checked
    → b.answers ≡ true
    → is_convertable parameter ≡ false
    → changed_within_seconds (later 0) (now 0) max_age ≡ true
    → let done = set_value b address values parameter v none true now c in
      (done.calls ≡ call_set_value address parameter v none ∷ [])
      × ((get_last_value_send (dp_key c address values parameter) max_age later done.cache).0
          ≡ checked)
unfolding set_value exec_set_value store_value route
set_value-stored b address parameter v checked now later max_age c fine answers plain fresh =
    ground (
      arith,
      fine,
      answers,
      get-add_set_value address parameter max_age now later checked c plain fresh,
    )

-- A `put_paramset` to the address of a channel, for a direct link, whose values pass the check as they
-- are: it makes the same calls with and without the check, for any receive mode and answer of the
-- backend, and stores nothing. With the check it returns if it made a call and the backend answers;
-- without the check it never returns.
pub put_paramset-link :
    (b : Backend) (address partner : Text) (d : Dict Text Value) (rx : Option CommandRxMode)
    (now : ℕ → ℕ) (c : CommandCache)
    → checked_paramset b address (of_address partner) d true ≡ passed d
    → let checked = put_paramset b address (of_address partner) d rx true now c in
      let unchecked = put_paramset b address (of_address partner) d rx false now c in
      (unchecked.calls ≡ checked.calls)
      × (has_returned checked.outcome ≡ (b.answers && not (eqb (length checked.calls) 0)))
      × (has_returned unchecked.outcome ≡ false)
      × (checked.cache ≡ c)
      × (unchecked.cache ≡ c)
unfolding put_paramset store_paramset
put_paramset-link b address partner d rx now c fine = ground (arith, fine)
