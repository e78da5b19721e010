-- ===== src/Central/Events.antt =====
-- The events of a central unit (hahomematic/central/__init__.py): `data_point_event`,
-- `data_point_path_event` and the subscriptions. A handler is named by a text; which of them are
-- called, in which order, is part of the result. `strptime` is an argument.
use hahomematic.Base.{
  ℕ, Bool, not, ◌&&◌, ◌||◌, Option, none, some, List, [], ◌∷◌, ◌++◌, ◌==◌, list_eq, nat_eq,
  if◌then◌else◌,
}
use hahomematic.Base.Dict.{Dict, get_or, lookup, has, insert, erase}
use hahomematic.Base.Text.{Text, codes, has_char, split}
use hahomematic.Const.{DpKey, dp_key_eq, values}
use hahomematic.PingPong.{handle_received_pong, Effect}
use hahomematic.Connection.{Client}
use hahomematic.Central.{Central}

-- The subscriptions of the central unit: the handlers of a data point's key, and the key of a path.
pub record Subscriptions : Type 0 where
  pub data_point_key_event_subscriptions : Dict DpKey (List Text)
  pub data_point_path_event_subscriptions : Dict Text DpKey

-- A generic data point or event, as far as its subscription needs it.
pub record Subscriber : Type 0 where
  pub data_point_key : DpKey
  pub state_path : Text
  pub is_readable : Bool
  pub supports_events : Bool
  pub supports_xml_rpc : Bool
  pub event : Text

unfoldable pub add_event_subscription : Subscriber → Subscriptions → Subscriptions
add_event_subscription p s =
    let handlers = get_or [] (lookup p.data_point_key s.data_point_key_event_subscriptions) in
    if p.is_readable || p.supports_events
    then record {
      data_point_key_event_subscriptions =
          insert p.data_point_key (handlers ++ (p.event ∷ [])) s.data_point_key_event_subscriptions;
      data_point_path_event_subscriptions =
          if not p.supports_xml_rpc && not (has p.state_path s.data_point_path_event_subscriptions)
          then insert p.state_path p.data_point_key s.data_point_path_event_subscriptions
          else s.data_point_path_event_subscriptions;
    }
    else s

unfoldable pub remove_event_subscription : Subscriber → Subscriptions → Subscriptions
remove_event_subscription p s =
    if p.supports_events
    then record {
      data_point_key_event_subscriptions =
          if has p.data_point_key s.data_point_key_event_subscriptions
          then erase p.data_point_key s.data_point_key_event_subscriptions
          else s.data_point_key_event_subscriptions;
      data_point_path_event_subscriptions =
          if has p.state_path s.data_point_path_event_subscriptions
          then erase p.state_path s.data_point_path_event_subscriptions
          else s.data_point_path_event_subscriptions;
    }
    else s

-- What an event does beside the change of the central unit: what a pong fires, the handlers that are
-- called with the value, or a ValueError.
pub data Dispatched : Type 0 where
  nothing : Dispatched
  ponged : List Effect → Dispatched
  called : List Text → Text → Dispatched
  value_error : Dispatched

-- `Parameter.PONG`
abbrev pub pong : Text
pong = codes "PONG"

abbrev pub hash : ℕ
hash = b'#'

-- A pong of the interface itself, for its client.
unfoldable pub received_pong :
    (Text → Option ℕ) → Text → Text → Text → (ℕ → ℕ) → Client → Client × Dispatched
unfolding handle_received_pong
received_pong strptime interface_id v_interface_id v_timestamp now client =
    if v_interface_id == interface_id && client.supports_ping_pong
    then elim (strptime v_timestamp) [
      | none ↦ (client, value_error)
      | some pong_ts ↦
          let (cache, effects) = handle_received_pong pong_ts now client.ping_pong_cache in
          (record client { ping_pong_cache = cache }, ponged effects)
    ]
    else (client, nothing)

-- The text is taken apart at each sign; but for two parts this is a ValueError.
unfoldable pub pong_event : (Text → Option ℕ) → Text → Text → (ℕ → ℕ) → Client → Client × Dispatched
unfolding received_pong split
pong_event strptime interface_id value now client =
    if has_char hash value
    then elim (split hash value) [
      | v_interface_id ∷ (v_timestamp ∷ []) ↦
          received_pong strptime interface_id v_interface_id v_timestamp now client
      | _ ↦ (client, value_error)
    ]
    else (client, nothing)

abbrev pub called_for : Option (List Text) → Text → Dispatched
called_for none value = nothing
called_for (some handlers) value = called handlers value

-- `data_point_event`, with the reading of the clock that is kept and those of the ping-pong cache
unfoldable pub data_point_event :
    (Text → Option ℕ)
    → ℕ
    → (ℕ → ℕ)
    → Text
    → Text
    → Text
    → Text
    → Subscriptions
    → Central
    → Central × Dispatched
unfolding pong_event
data_point_event strptime now later interface_id channel_address parameter value s c =
    elim (lookup interface_id c.clients) [
      | none ↦ (c, nothing)
      | some client ↦
          let c1 : Central = record c { last_events = insert interface_id now c.last_events } in
          let (client', dispatched) = pong_event strptime interface_id value later client in
          let key : DpKey = record {
            interface_id = interface_id;
            channel_address = channel_address;
            paramset_key = values;
            parameter = parameter;
          } in
          if parameter == pong
          then (record c1 { clients = insert interface_id client' c.clients }, dispatched)
          else (c1, called_for (lookup key s.data_point_key_event_subscriptions) value)
    ]

-- `data_point_path_event`: the event of the data point that a path belongs to
unfoldable pub data_point_path_event :
    (Text → Option ℕ) → ℕ → (ℕ → ℕ) → Text → Text → Subscriptions → Central → Central × Dispatched
unfolding data_point_event
data_point_path_event strptime now later state_path value s c =
    elim (lookup state_path s.data_point_path_event_subscriptions) [
      | none ↦ (c, nothing)
      | some key ↦
          data_point_event strptime now later key.interface_id key.channel_address key.parameter
            value s c
    ]
