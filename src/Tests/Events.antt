-- ===== src/Tests/Events.antt =====
-- The theorems about the events of the central unit at a concrete device.
use hahomematic.Base.{
  ℕ, ◌≡◌, refl, true, false, Option, some, none, [], ◌∷◌, ◌++◌, list_eq, nat_eq, contains,
}
use hahomematic.Base.Text.{Text, codes, has_char}
use hahomematic.Base.Dict.{lookup}
use hahomematic.Clock.{delta_seconds}
use hahomematic.Const.{values, dp_key_eq}
use hahomematic.PingPong.{new, is_live}
use hahomematic.PingPong.Matching.{IsLive, is_pending, is_unknown}
use hahomematic.Connection.{Client, check_connection_availability}
use hahomematic.Central.{Central}
use hahomematic.Central.Events.{
  Subscriptions, Subscriber, add_event_subscription, remove_event_subscription, pong, hash,
  data_point_event,
}
use hahomematic.Central.Pongs.{event-ping}
use hahomematic.Tests.Central.{start, rf, channel, client, with_device}

-- a time as the text of one character
abbrev strftime : ℕ → Text
strftime t = t ∷ []

abbrev strptime : Text → Option ℕ
strptime [] = none
strptime (t ∷ _) = some t

abbrev pinged : Central
pinged = record with_device {
  clients = (rf, (check_connection_availability true start (λ i. start) client).1.0) ∷ [];
}

start-IsLive : IsLive 300 start (λ i. start)
unfolding is_live delta_seconds
start-IsLive i = refl

abbrev nobody : Subscriptions
nobody = record {
  data_point_key_event_subscriptions = [];
  data_point_path_event_subscriptions = [];
}

event-ping_example :
    let c' =
      (data_point_event strptime start
        (λ i. start)
        rf
        channel
        pong
        (rf ++ hash ∷ strftime start)
        nobody
        pinged).0 in
    (after : Client) × (lookup rf c'.clients ≡ some after)
    × (is_pending start after.ping_pong_cache ≡ false)
    × (is_unknown start after.ping_pong_cache ≡ false)
unfolding new contains has_char lookup
event-ping_example =
    event-ping strftime strptime rf channel true start start (λ i. start) (λ i. start) nobody client
      pinged refl refl refl refl refl start-IsLive refl refl

abbrev temperature : Subscriber
temperature = record {
  data_point_key = record {
    interface_id = rf;
    channel_address = channel;
    paramset_key = values;
    parameter = codes "TEMP";
  };
  state_path = codes "path";
  is_readable = true;
  supports_events = false;
  supports_xml_rpc = true;
  event = codes "handler";
}

abbrev after_removal : Subscriptions
after_removal = remove_event_subscription temperature (add_event_subscription temperature nobody)
