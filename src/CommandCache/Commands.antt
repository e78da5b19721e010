-- ===== src/CommandCache/Commands.antt =====
-- What `CommandCache` of hahomematic/caches/dynamic.py holds after a command and after an event.
use hahomematic.Base.{
  ℕ, suc, ◌≡◌, refl, ◌∙◌, ap, true, false, Option, none, some, [], ◌∷◌, arith, ◌==◌, if◌then◌else◌,
  list_eq, nat_eq, list_beq_iff,
}
use hahomematic.Base.Dict.{Dict, lookup, lookup-insert, lookup-erase, ==_refl}
use hahomematic.Base.Text.{Text}
use hahomematic.Base.Double.{pos, div_int}
use hahomematic.Base.Value.{Value, real, text, value_eq, is_null}
use hahomematic.Clock.{changed_within_seconds}
use hahomematic.Const.{
  ParamsetKey, values, DpKey, dp_key_eq, dp_key_beq_iff, combined_parameter, level, level_2,
}
use hahomematic.Converter.{is_convertable}
use hahomematic.Converter.RoundTrip.{ip_text, convert-ip_text}
use hahomematic.CommandCache.{
  CommandCache, Sent, dp_key, store, put_from, add_put_paramset, add_combined_parameter,
  add_set_value, remove_last_value_send, get_last_value_send,
}

-- what is stored under a key
abbrev pub sent_value : DpKey → CommandCache → Option Sent
sent_value key c = lookup key c.last_send_command

pub sent_value-store :
    (j k : DpKey) (v : Value) (now : ℕ) (c : CommandCache)
    → sent_value j (store k v now c)
      ≡ (if k == j then some (record { value = v; send_dt = now }) else sent_value j c)
sent_value-store j k v now c =
    lookup-insert j k (record { value = v; send_dt = now }) c.last_send_command

-- A fresh value is returned, and reading it changes nothing.
pub get-fresh :
    (key : DpKey) (max_age : ℕ) (now : ℕ → ℕ) (c : CommandCache) (sent : Sent)
    → sent_value key c ≡ some sent
    → changed_within_seconds (now 0) sent.send_dt max_age ≡ true
    → get_last_value_send key max_age now c ≡ (sent.value, c)
unfolding get_last_value_send
get-fresh key max_age now c sent h fresh = ground arith

-- The value of a command that is no combined parameter is found under its key while it is fresh.
pub get-add_set_value :
    (address parameter : Text) (max_age : ℕ) (now later : ℕ → ℕ) (v : Value) (c : CommandCache)
    → is_convertable parameter ≡ false
    → changed_within_seconds (later 0) (now 0) max_age ≡ true
    → let c' = (add_set_value address parameter now v c).0 in
      get_last_value_send (dp_key c address values parameter) max_age later c' ≡ (v, c')
unfolding add_set_value
get-add_set_value address parameter max_age now later v c plain fresh =
    let key = dp_key c address values parameter in
    rw plain (
      get-fresh key max_age later _ (record { value = v; send_dt = now 0 })
        (sent_value-store key key v (now 0) c ∙ rw (==_refl key)) fresh)

-- An event with the value that was sent takes the command off; no other command is touched.
pub remove-confirmed :
    (key j : DpKey) (v : Value) (max_age now : ℕ) (c : CommandCache) (sent : Sent)
    → sent_value key c ≡ some sent
    → is_null v ≡ false
    → value_eq sent.value v ≡ true
    → sent_value j (remove_last_value_send key v max_age now c)
      ≡ (if key == j then none else sent_value j c)
unfolding remove_last_value_send
remove-confirmed key j v max_age now c sent h given same =
    ground (arith, lookup-erase j key c.last_send_command)

-- An event with another value keeps a command that is fresh.
pub remove-unconfirmed :
    (key : DpKey) (v : Value) (max_age now : ℕ) (c : CommandCache) (sent : Sent)
    → sent_value key c ≡ some sent
    → value_eq sent.value v ≡ false
    → changed_within_seconds now sent.send_dt max_age ≡ true
    → remove_last_value_send key v max_age now c ≡ c
unfolding remove_last_value_send
remove-unconfirmed key v max_age now c sent h other fresh = ground arith

-- no parameter twice, as in every dict
abbrev pub IsDict : Dict Text Value → Type 0
IsDict [] = Unit
IsDict ((p, _) ∷ d) = (lookup p d ≡ none) × IsDict d

put_from-other :
    (i : ℕ) (address : Text) (key : ParamsetKey) (now : ℕ → ℕ) (d : Dict Text Value)
    (c : CommandCache) (p : Text)
    → lookup p d ≡ none
    → sent_value (dp_key c address key p) (put_from i address key now d c).0
      ≡ sent_value (dp_key c address key p) c
unfolding put_from lookup
put_from-other i address key now [] c p h = refl
put_from-other i address key now ((q, v) ∷ d) c p h = ground (
  arith,
  put_from-other (suc i) address key now d (store (dp_key c address key q) v (now i) c) p,
  sent_value-store (dp_key c address key p) (dp_key c address key q) v (now i) c,
  list_beq_iff q p,
  dp_key_beq_iff (dp_key c address key q) (dp_key c address key p),
)

-- the reading of the clock at which a parameter is stored, if it is one of the paramset
abbrev pub stored_at : ℕ → (ℕ → ℕ) → Text → Dict Text Value → Option Sent
stored_at i now p [] = none
stored_at i now p ((q, v) ∷ d) =
    if q == p then some (record { value = v; send_dt = now i }) else stored_at (suc i) now p d

put_from-parameter :
    (i : ℕ) (address : Text) (key : ParamsetKey) (now : ℕ → ℕ) (d : Dict Text Value)
    (c : CommandCache) (p : Text) (sent : Sent)
    → IsDict d
    → stored_at i now p d ≡ some sent
    → sent_value (dp_key c address key p) (put_from i address key now d c).0 ≡ some sent
unfolding put_from
put_from-parameter i address key now [] c p sent u h = cc
put_from-parameter i address key now ((q, v) ∷ d) c p sent u h = ground (
  arith,
  put_from-other (suc i) address key now d (store (dp_key c address key q) v (now i) c) p,
  put_from-parameter (suc i) address key now d (store (dp_key c address key q) v (now i) c) p sent,
  sent_value-store (dp_key c address key p) (dp_key c address key q) v (now i) c,
  list_beq_iff q p,
  dp_key_beq_iff (dp_key c address key q) (dp_key c address key p),
)

-- After a paramset was put, each of its parameters is stored with its own value and the time of
-- its round, under the paramset's key.
pub add_put_paramset-parameter :
    (address : Text) (key : ParamsetKey) (now : ℕ → ℕ) (d : Dict Text Value) (c : CommandCache)
    (p : Text) (sent : Sent)
    → IsDict d
    → stored_at 0 now p d ≡ some sent
    → sent_value (dp_key c address key p) (add_put_paramset address key now d c).0 ≡ some sent
unfolding add_put_paramset
add_put_paramset-parameter address key now d c p sent u h =
    put_from-parameter 0 address key now d c p sent u h

levels-IsDict : (v w : Value) → IsDict ((level_2, v) ∷ (level, w) ∷ [])
unfolding lookup
levels-IsDict v w = (refl, (refl, tt))

abbrev levels_sent : ℕ → ℕ → Dict Text Value
levels_sent tilt position =
    (level_2, real (div_int (pos tilt) 100)) ∷ (level, real (div_int (pos position) 100)) ∷ []

add_set_value-ip_text :
    (address : Text) (tilt position : ℕ) (now : ℕ → ℕ) (c : CommandCache)
    → add_set_value address combined_parameter now (text (ip_text tilt position)) c
      ≡ add_put_paramset address values now (levels_sent tilt position) c
unfolding add_set_value add_combined_parameter is_convertable
add_set_value-ip_text address tilt position now c =
    ap
      (λ d. elim d [
        | [] ↦ (c, [])
        | entry ∷ rest ↦ add_put_paramset address values now (entry ∷ rest) c
      ])
      (convert-ip_text tilt position)

-- The combined parameter of a blind is remembered as the levels that it stands for: a later read of
-- LEVEL or of LEVEL_2 returns the level that was sent, while the command is fresh.
pub get-combined :
    (address : Text) (tilt position max_age : ℕ) (now later : ℕ → ℕ) (c : CommandCache)
    → changed_within_seconds (later 0) (now 0) max_age ≡ true
    → changed_within_seconds (later 0) (now 1) max_age ≡ true
    → let c' = (add_set_value address combined_parameter now (text (ip_text tilt position)) c).0 in
      ((get_last_value_send (dp_key c address values level) max_age later c').0
        ≡ real (div_int (pos position) 100))
      × ((get_last_value_send (dp_key c address values level_2) max_age later c').0
          ≡ real (div_int (pos tilt) 100))
get-combined address tilt position max_age now later c f g =
    rw (add_set_value-ip_text address tilt position now c) (
      returned level (record { value = real (div_int (pos position) 100); send_dt = now 1 }) refl g,
      returned level_2 (record { value = real (div_int (pos tilt) 100); send_dt = now 0 }) refl f,
    )
  where
    returned :
        (p : Text) (s : Sent)
        → stored_at 0 now p (levels_sent tilt position) ≡ some s
        → changed_within_seconds (later 0) s.send_dt max_age ≡ true
        → (get_last_value_send
            (dp_key c address values p)
            max_age
            later
            (add_put_paramset address values now (levels_sent tilt position) c).0).0
          ≡ s.value
    returned p s at fresh =
        ap (λ r. r.0)
          (get-fresh (dp_key c address values p) max_age later
            (add_put_paramset address values now (levels_sent tilt position) c).0 s
            (add_put_paramset-parameter address values now (levels_sent tilt position) c p s
              (levels-IsDict (real (div_int (pos tilt) 100)) (real (div_int (pos position) 100)))
              at)
            fresh)
