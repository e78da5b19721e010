-- ===== src/Tests/Commands.antt =====
-- The theorems about sent values and the client's writing at concrete values.
use hahomematic.Base.{
  ℕ, ◌+◌, ◌*◌, ◌≡◌, ◌≢◌, refl, arith, true, false, none, [], ◌∷◌, list_eq, nat_eq, not, ◌&&◌, eqb,
  length,
}
use hahomematic.Base.Text.{Text, codes}
use hahomematic.Base.Dict.{Dict, lookup, insert}
use hahomematic.Base.Double.{pos, div_int}
use hahomematic.Base.Value.{Value, int, text, real}
use hahomematic.Clock.{second, day, changed_within_seconds, init_datetime}
use hahomematic.Const.{ParamsetKey, values, level, level_2, combined_parameter}
use hahomematic.Converter.{is_convertable}
use hahomematic.Converter.RoundTrip.{ip_text}
use hahomematic.CommandCache.{Sent, CommandCache, dp_key, store, add_set_value, get_last_value_send}
use hahomematic.CommandCache.Commands.{get-combined}
use hahomematic.CommandCache.Aging.{get-days_ago}
use hahomematic.Paramsets.{ParameterData}
use hahomematic.Writing.{
  Backend, call_set_value, passed, of_address, set_value, put_paramset, convert_checked,
  checked_paramset,
}
use hahomematic.Writing.Outcomes.{has_returned, set_value-stored, put_paramset-link}

abbrev start : ℕ
start = 63000000000 * second

abbrev clock : ℕ → ℕ
clock i = start + i

abbrev nothing_sent : CommandCache
nothing_sent = record { interface_id = codes "rf"; last_send_command = [] }

abbrev address : Text
address = codes "VCU1:3"

abbrev later : ℕ → ℕ
later i = start + 2

abbrev both_sent : CommandCache
both_sent = (add_set_value address combined_parameter clock (text (ip_text 20 70)) nothing_sent).0

get-combined_example :
    ((get_last_value_send (dp_key nothing_sent address values level) 60 later both_sent).0
      ≡ real (div_int (pos 70) 100))
    × ((get_last_value_send (dp_key nothing_sent address values level_2) 60 later both_sent).0
        ≡ real (div_int (pos 20) 100))
unfolding changed_within_seconds
get-combined_example = get-combined address 20 70 60 clock later nothing_sent refl refl

abbrev sent : Sent
sent = record { value = int (pos 7); send_dt = start }

abbrev one_sent : CommandCache
one_sent = store (dp_key nothing_sent address values level) (int (pos 7)) start nothing_sent

abbrev two_days_later : ℕ → ℕ
two_days_later i = start + 2 * (day * second) + 5

start_known : start ≢ init_datetime
start_known = ground arith

get-days_ago_example :
    get_last_value_send (dp_key nothing_sent address values level) 60 two_days_later one_sent
    ≡ (int (pos 7), one_sent)
unfolding lookup insert
get-days_ago_example =
    get-days_ago (dp_key nothing_sent address values level) 60 2 5 two_days_later one_sent sent refl
      (ground arith) (ground arith) start_known refl

abbrev level_data : ParameterData
level_data = record { pd_type = codes "INTEGER"; pd_value_list = []; operations = 5; flags = 1 }

abbrev backend : Backend
backend = record {
  interface_id = codes "rf";
  convert_value = λ pd_type value_list v. passed v;
  rx_modes = λ a. none;
  answers = true;
  descriptions = record {
    raw_paramset_descriptions =
        (codes "rf", (address, (values, (codes "LEVEL", level_data) ∷ []) ∷ []) ∷ []) ∷ [];
    address_parameter_cache = [];
  };
}

set_value-stored_example :
    let done = set_value backend address values level (int (pos 7)) none true clock nothing_sent in
    (done.calls ≡ call_set_value address level (int (pos 7)) none ∷ [])
    × ((get_last_value_send (dp_key nothing_sent address values level) 60 clock done.cache).0
        ≡ int (pos 7))
unfolding convert_checked lookup is_convertable changed_within_seconds
set_value-stored_example =
    set_value-stored backend address level (int (pos 7)) (int (pos 7)) clock clock 60 nothing_sent
      refl refl refl refl

abbrev linked : Backend
linked = record backend {
  descriptions = record {
    raw_paramset_descriptions =
        (codes "rf", (address, (ParamsetKey.link, (codes "LEVEL", level_data) ∷ []) ∷ []) ∷ [])
        ∷ [];
    address_parameter_cache = [];
  };
}

abbrev link_values : Dict Text Value
link_values = (codes "LEVEL", int (pos 1)) ∷ []

put_paramset-link_example :
    let checked =
      put_paramset linked address
        (of_address (codes "VCU2:1"))
        link_values
        none
        true
        clock
        nothing_sent in
    let unchecked =
      put_paramset linked address
        (of_address (codes "VCU2:1"))
        link_values
        none
        false
        clock
        nothing_sent in
    (unchecked.calls ≡ checked.calls)
    × (has_returned checked.outcome ≡ (true && not (eqb (length checked.calls) 0)))
    × (has_returned unchecked.outcome ≡ false)
    × (checked.cache ≡ nothing_sent)
    × (unchecked.cache ≡ nothing_sent)
unfolding checked_paramset convert_checked lookup insert
put_paramset-link_example =
    put_paramset-link linked address (codes "VCU2:1") link_values none clock nothing_sent refl
