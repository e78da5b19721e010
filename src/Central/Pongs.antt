-- ===== src/Central/Pongs.antt =====
-- How events reach a client's ping-pong cache and the handlers (hahomematic/central/__init__.py,
-- with the ping of hahomematic/client/__init__.py).
use hahomematic.Base.{
  ℕ, ◌≡◌, refl, sym, ap, ◌∙◌, Bool, true, false, ◌||◌, Option, some, [], ◌∷◌, ◌++◌, ◌==◌, list_eq,
  nat_eq,
}
use hahomematic.Base.Dict.{get_or, lookup, lookup-insert, ==_refl}
use hahomematic.Base.Text.{Text, has_char, split, split_none, split_cons, has_char_mid}
use hahomematic.Const.{dp_key_eq, values}
use hahomematic.PingPong.{handle_received_pong, handle_send_ping}
use hahomematic.PingPong.Matching.{IsLive, is_pending, is_unknown, answered_ping}
use hahomematic.Connection.{Client, ccu, check_connection_availability}
use hahomematic.Central.{Central}
use hahomematic.Central.Events.{
  Subscriptions, Subscriber, add_event_subscription, ponged, called, pong, hash, received_pong,
  pong_event, data_point_event,
}

split_pong :
    (i timestamp : Text)
    → has_char hash i ≡ false
    → has_char hash timestamp ≡ false
    → split hash (i ++ hash ∷ timestamp) ≡ i ∷ (timestamp ∷ [])
split_pong i timestamp hi ht =
    split_cons hash i timestamp hi ∙ ap (λ rest. i ∷ rest) (split_none hash timestamp ht)

-- A pong that names the interface is handed to the client, if it supports ping-pong.
pub pong_event_lem :
    (strptime : Text → Option ℕ) (i timestamp : Text) (ts : ℕ) (now : ℕ → ℕ) (client : Client)
    → has_char hash i ≡ false
    → has_char hash timestamp ≡ false
    → client.supports_ping_pong ≡ true
    → strptime timestamp ≡ some ts
    → let (cache, effects) = handle_received_pong ts now client.ping_pong_cache in
      pong_event strptime i (i ++ hash ∷ timestamp) now client
      ≡ (record client { ping_pong_cache = cache }, ponged effects)
unfolding pong_event received_pong
pong_event_lem strptime i timestamp ts now client hi ht supported parsed =
    simp (has_char_mid hash i timestamp, split_pong i timestamp hi ht, ==_refl i, supported, parsed)

pinged_cache :
    (fine : Bool) (now : ℕ) (pings : ℕ → ℕ) (client : Client)
    → client.kind ≡ ccu
    → client.supports_ping_pong ≡ true
    → ((check_connection_availability fine now pings client).1.0.ping_pong_cache
        ≡ (handle_send_ping now pings client.ping_pong_cache).0)
      × ((check_connection_availability fine now pings client).1.0.supports_ping_pong ≡ true)
unfolding check_connection_availability
pinged_cache fine now pings client kind supported = rw (kind, supported) (refl, refl)

event_pong :
    (strptime : Text → Option ℕ) (i channel value : Text) (at : ℕ) (now : ℕ → ℕ) (s : Subscriptions)
    (client : Client) (c : Central)
    → lookup i c.clients ≡ some client
    → lookup i (data_point_event strptime at now i channel pong value s c).0.clients
      ≡ some (pong_event strptime i value now client).0
unfolding data_point_event
event_pong strptime i channel value at now s client c found =
    rw (data_point_event, found) (lookup-insert i i _ c.clients ∙ (rw (==_refl i) refl))

-- A ping of the client of a CCU that is live while it is sent, and whose time is no unknown pong,
-- leaves no trace in the client's cache once the event with its text is there: the text names the
-- interface and the time, neither of which holds a number sign, and the time is read back.
pub event-ping :
    (strftime : ℕ → Text) (strptime : Text → Option ℕ) (i channel : Text) (fine : Bool) (ts at : ℕ)
    (pings later : ℕ → ℕ) (s : Subscriptions) (client : Client) (c : Central)
    → has_char hash i ≡ false
    → has_char hash (strftime ts) ≡ false
    → strptime (strftime ts) ≡ some ts
    → client.kind ≡ ccu
    → client.supports_ping_pong ≡ true
    → IsLive client.ping_pong_cache.ttl ts pings
    → is_unknown ts client.ping_pong_cache ≡ false
    → lookup i c.clients ≡ some (check_connection_availability fine ts pings client).1.0
    → let c' =
        (data_point_event strptime at later i channel pong (i ++ hash ∷ strftime ts) s c).0 in
      (after : Client) × (lookup i c'.clients ≡ some after)
      × (is_pending ts after.ping_pong_cache ≡ false)
      × (is_unknown ts after.ping_pong_cache ≡ false)
event-ping strftime strptime i channel fine ts at pings later s client c hi ht parsed kind supported
      live unknown found =
    let pinged = (check_connection_availability fine ts pings client).1.0 in
    let (sent, supports) = pinged_cache fine ts pings client kind supported in
    let reached = pong_event_lem strptime i (strftime ts) ts later pinged hi ht supports parsed in
    let answered = answered_ping ts pings later client.ping_pong_cache live unknown in
    (
      _,
      event_pong strptime i channel (i ++ hash ∷ strftime ts) at later s pinged c found,
      rw (reached, sent) answered.0,
      rw (reached, sent) answered.1,
    )

-- After a readable data point or one with events has subscribed, an event of its key on an interface
-- with a client calls the handlers that were there and then its own, with the value.
pub event-subscribed :
    (strptime : Text → Option ℕ) (at : ℕ) (now : ℕ → ℕ) (i channel parameter value : Text)
    (p : Subscriber) (s : Subscriptions) (client : Client) (c : Central)
    → p.data_point_key ≡ record {
      interface_id = i;
      channel_address = channel;
      paramset_key = values;
      parameter = parameter;
    }
    → (p.is_readable || p.supports_events) ≡ true
    → (parameter == pong) ≡ false
    → lookup i c.clients ≡ some client
    → (data_point_event strptime at now i channel parameter value (add_event_subscription p s) c).1
      ≡ called
          (get_or [] (lookup p.data_point_key s.data_point_key_event_subscriptions)
            ++ (p.event ∷ []))
          value
unfolding data_point_event add_event_subscription
event-subscribed strptime at now i channel parameter value p s client c key wanted other found =
    let handlers = get_or [] (lookup p.data_point_key s.data_point_key_event_subscriptions) in
    rw
      (
        data_point_event,
        found,
        other,
        add_event_subscription,
        wanted,
        sym key,
        lookup-insert p.data_point_key p.data_point_key (handlers ++ (p.event ∷ []))
            s.data_point_key_event_subscriptions,
        ==_refl p.data_point_key,
      )
      refl
