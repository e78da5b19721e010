-- ===== src/Collector.antt =====
-- `CallParameterCollector` of hahomematic/model/data_point.py: it gathers the values of a service
-- call and sends them in the order that their data points ask for. The answer of the client to a
-- call is an argument; an exception is `none`. `sorted` of Python is stable.
pub mod Order
use hahomematic.Base.{
  ℕ, ◌==◌, list_eq, nat_eq, Option, none, some, List, [], ◌∷◌, ◌++◌, if◌then◌else◌, ltb,
}
use hahomematic.Base.Dict.{Dict, get_or, lookup, insert}
use hahomematic.Base.Sorted.{sorted}
use hahomematic.Base.Text.{Text}
use hahomematic.Base.Value.{Value}
use hahomematic.Const.{ParamsetKey, paramset_key_eq, DpKey}

-- the paramsets of one order, by the address of their channel
abbrev pub Channels : Type 0
Channels = Dict Text (Dict Text Value)

abbrev pub Paramsets : Type 0
Paramsets = Dict ParamsetKey (Dict ℕ Channels)

-- The calls of the client.
pub data Call : Type 0 where
  set_value : ParamsetKey → Text → Text → Value → Call
  put_paramset : ParamsetKey → Text → Dict Text Value → Call

-- `add_data_point`: the tests put the dicts there that are missing.
unfoldable pub add_data_point : ParamsetKey → Text → Text → Value → ℕ → Paramsets → Paramsets
add_data_point key address parameter value collector_order c =
    let orders = get_or [] (lookup key c) in
    let channels = get_or [] (lookup collector_order orders) in
    let paramset = get_or [] (lookup address channels) in
    insert key
      (insert collector_order (insert address (insert parameter value paramset) channels) orders) c

-- The call for one paramset: one value is set, several are put.
unfoldable pub call_of : ParamsetKey → Text → Dict Text Value → Call
call_of key address ((parameter, value) ∷ []) = set_value key address parameter value
call_of key address paramset = put_paramset key address paramset

unfoldable pub channel_calls : ParamsetKey → Channels → List Call
unfolding call_of
channel_calls key [] = []
channel_calls key ((address, paramset) ∷ rest) =
    call_of key address paramset ∷ channel_calls key rest

unfoldable pub order_calls : ParamsetKey → Dict ℕ Channels → List Call
unfolding channel_calls
order_calls key [] = []
order_calls key ((order, channels) ∷ rest) = channel_calls key channels ++ order_calls key rest

-- The calls of `send_data`, if none of them raises.
unfoldable pub calls : Paramsets → List Call
unfolding order_calls sorted
calls [] = []
calls ((key, orders) ∷ rest) = order_calls key (sorted orders) ++ calls rest

-- `update` of a set of keys with values, as a list
unfoldable pub run_calls :
    (Call → Option (List (DpKey × Value))) → List Call → List Call × Option (List (DpKey × Value))
run_calls answer [] = ([], some [])
run_calls answer (call ∷ rest) =
    let (made, others) = run_calls answer rest in
    elim (answer call) [
      | none ↦ (call ∷ [], none)
      | some sent ↦ (call ∷ made, (elim others [ none ↦ none | some more ↦ some (sent ++ more) ]))
    ]

-- `send_data`: the calls that it makes, and what it returns
unfoldable pub send_data :
    (Call → Option (List (DpKey × Value))) → Paramsets → List Call × Option (List (DpKey × Value))
unfolding calls run_calls
send_data answer c = run_calls answer (calls c)
