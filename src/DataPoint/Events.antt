-- ===== src/DataPoint/Events.antt =====
-- Events for a data point (`event` of hahomematic/model/generic/data_point.py) and the cache of sent
-- values (hahomematic/caches/dynamic.py).
use hahomematic.Base.{
  ℕ, ◌*◌, ◌^◌, ◌≡◌, refl, ◌∙◌, true, false, some, [], arith, eqb_iff, nat_eq, list_eq,
}
use hahomematic.Base.Dict.{==_refl}
use hahomematic.Base.Text.{Text}
use hahomematic.Base.Double.{Double, double_eq, exact, pos}
use hahomematic.Base.Value.{Value, null, boolean, int, real, text, value_eq, is_null}
use hahomematic.Const.{DpKey, values, dp_key_eq}
use hahomematic.Converter.{is_convertable}
use hahomematic.CommandCache.{
  CommandCache, store, store_timeout, add_set_value, get_last_value_send, dp_key,
}
use hahomematic.CommandCache.Commands.{sent_value, sent_value-store, remove-confirmed}
use hahomematic.DataPoint.{
  Defaults, DataPoint, no_cache_entry, write_value, reset_temporary_value, reactions, event,
}

double_eq_refl : (x : Double) → double_eq x x ≡ true
unfolding double_eq
double_eq_refl x = ground (arith, eqb_iff (x.mantissa * 2 ^ x.shift) (x.mantissa * 2 ^ x.shift))

value_eq_refl : (v : Value) → value_eq v v ≡ true
unfolding value_eq
value_eq_refl null = refl
value_eq_refl (boolean true) = double_eq_refl (exact (pos 1))
value_eq_refl (boolean false) = double_eq_refl (exact (pos 0))
value_eq_refl (int n) = double_eq_refl (exact n)
value_eq_refl (real x) = double_eq_refl x
value_eq_refl (text s) = ==_refl s

-- After the value of a command that is no combined parameter was stored as sent, an event with this
-- value, if it is a value, takes the command off: nothing counts as last sent for its key.
pub event-confirms :
    (t : Defaults) (convert : Value → Value) (address parameter : Text) (v : Value)
    (now later : ℕ → ℕ) (at max_age : ℕ) (c : CommandCache) (d : DataPoint)
    → is_convertable parameter ≡ false
    → is_null v ≡ false
    → let key = dp_key c address values parameter in
      let c' = (add_set_value address parameter now v c).0 in
      (get_last_value_send key max_age later (event t convert key v at c' d).0).0 ≡ null
unfolding event add_set_value get_last_value_send
event-confirms t convert address parameter v now later at max_age c d plain given =
    let key = dp_key c address values parameter in
    let c' = store key v (now 0) c in
    let there : sent_value key c' ≡ some (record { value = v; send_dt = now 0 }) =
      sent_value-store key key v (now 0) c ∙ rw (==_refl key) in
    let gone = remove-confirmed key key v store_timeout at c' _ there given (value_eq_refl v) in
    ground (arith, plain, gone, ==_refl key)

-- An event that is received twice, other than the missing cache entry, sets off nothing the second
-- time.
pub event-twice :
    (t : Defaults) (convert : Value → Value) (key : DpKey) (v : Value) (now later : ℕ)
    (c : CommandCache) (d : DataPoint)
    → value_eq v no_cache_entry ≡ false
    → let (c1, (d1, first)) = event t convert key v now c d in
      (event t convert key v later c1 d1).1.1 ≡ []
unfolding event write_value reset_temporary_value reactions
event-twice t convert key v now later c d entry = ground (arith, entry, value_eq_refl (convert v))
