-- ===== src/Connection.antt =====
-- The connection of a client: hahomematic/client/__init__.py from `proxy_init` to
-- `is_callback_alive`, with `check_connection_availability` of the three kinds of client. What the
-- backend answers to a call and what the clock reads are arguments; a call that raises answers
-- `false`. The devices of the central are part of the state, as far as they are marked here. The
-- comparison of seconds is made in microseconds.
pub mod Marks
pub mod Checks
pub mod Callback
pub mod Recovery
use hahomematic.Base.{
  ℕ, zero, suc, ◌+◌, ◌*◌, Bool, true, false, not, ◌&&◌, ◌||◌, Option, none, some, List, [], ◌∷◌,
  ◌++◌, map, ◌==◌, list_eq, nat_eq, if◌then◌else◌, ltb, eqb,
}
use hahomematic.Base.Text.{Text}
use hahomematic.Clock.{second, init_datetime}
use hahomematic.PingPong.{PingPongCache, Effect, clear, handle_send_ping}

pub data ProxyInitState : Type 0 where
  init_failed init_success de_init_failed de_init_success de_init_skipped : ProxyInitState

pub data ForcedDeviceAvailability : Type 0 where
  force_false force_true not_set : ForcedDeviceAvailability

pub data ClientKind : Type 0 where
  ccu json_ccu homegear : ClientKind

pub record Device : Type 0 where
  pub interface_id : Text
  pub forced_availability : ForcedDeviceAvailability

pub data Event : Type 0 where
  fire_proxy fire_callback : Bool → Event
  add_new_devices : ℕ → Event
  fire_ping : Effect → Event

pub record Client : Type 0 where
  pub interface_id : Text
  pub kind : ClientKind
  pub supports_xml_rpc : Bool
  pub supports_push_updates : Bool
  pub supports_ping_pong : Bool
  pub available : Bool
  pub callback_alive : Bool
  pub connection_error_count : ℕ
  pub modified_at : ℕ
  pub ping_pong_cache : PingPongCache
  pub devices : List Device

-- config.py: `CALLBACK_WARN_INTERVAL`, in microseconds
abbrev pub callback_warn_interval : ℕ
callback_warn_interval = 600 * second

abbrev pub is_force_false : ForcedDeviceAvailability → Bool
is_force_false force_false = true
is_force_false _ = false

unfoldable pub mark_devices : Text → ForcedDeviceAvailability → List Device → List Device
mark_devices interface_id forced [] = []
mark_devices interface_id forced (d ∷ ds) =
    (if d.interface_id == interface_id then record d { forced_availability = forced } else d)
    ∷ mark_devices interface_id forced ds

abbrev pub same : Bool → Bool → Bool
same true b = b
same false b = not b

-- `_mark_all_devices_forced_availability`
unfoldable pub mark_all : ForcedDeviceAvailability → Client → Client × List Event
mark_all forced c =
    let available = not (is_force_false forced) in
    (
      (if same c.available available then c else record c {
        devices = mark_devices c.interface_id forced c.devices;
        available = available;
      }),
      fire_proxy available ∷ [],
    )

-- New devices of an interface, whose availability is not forced.
unfoldable pub new_devices : Text → ℕ → List Device
new_devices interface_id zero = []
new_devices interface_id (suc n) =
    record { interface_id = interface_id; forced_availability = not_set }
    ∷ new_devices interface_id n

-- `proxy_init`; a client without XML-RPC has the central add the devices that the backend lists. How
-- many of them are new is `added`.
unfoldable pub proxy_init : Bool → ℕ → ℕ → Client → ProxyInitState × (Client × List Event)
unfolding mark_all clear new_devices
proxy_init fine now added c =
    if c.supports_xml_rpc
    then (let c1 : Client = record c { ping_pong_cache = clear c.ping_pong_cache } in
        let (c2, events) = mark_all not_set c1 in
        if fine
        then (init_success, (record c2 { modified_at = now }, events))
        else (init_failed, (record c1 { modified_at = init_datetime }, [])))
    else (
      init_success,
      (
        record c { devices = c.devices ++ new_devices c.interface_id added },
        add_new_devices added ∷ [],
      ),
    )

unfoldable pub proxy_de_init : Bool → Client → ProxyInitState × Client
proxy_de_init fine c =
    if not c.supports_xml_rpc
    then (de_init_success, c)
    else if eqb c.modified_at init_datetime
    then (de_init_skipped, c)
    else if fine
    then (de_init_success, record c { modified_at = init_datetime })
    else (de_init_failed, c)

abbrev pub is_de_init_failed : ProxyInitState → Bool
is_de_init_failed de_init_failed = true
is_de_init_failed _ = false

-- `proxy_re_init`, with the answers to the two calls
unfoldable pub proxy_re_init : Bool → Bool → ℕ → ℕ → Client → ProxyInitState × (Client × List Event)
unfolding proxy_de_init proxy_init
proxy_re_init gone fine now added c =
    let (state, c1) = proxy_de_init gone c in
    let done = proxy_init fine now added c1 in
    if is_de_init_failed state then (de_init_failed, (c1, [])) else done

-- `check_connection_availability` with `handle_ping_pong`; `now` is the reading that is stored and
-- `pings` those of the ping-pong cache.
unfoldable pub check_connection_availability :
    Bool → ℕ → (ℕ → ℕ) → Client → Bool × (Client × List Event)
unfolding handle_send_ping
check_connection_availability fine now pings c = elim c.kind [
  | ccu ↦
      let (cache, effects) = handle_send_ping now pings c.ping_pong_cache in
      let pinged : Client =
        if c.supports_ping_pong then record c { ping_pong_cache = cache } else c in
      let events = if c.supports_ping_pong then map fire_ping effects else [] in
      (fine, (record pinged { modified_at = if fine then now else init_datetime }, events))
  | json_ccu ↦ (fine, (c, []))
  | homegear ↦ (fine, (record c { modified_at = if fine then now else init_datetime }, []))
]

-- `is_connected`, with the last reading of the clock
unfoldable pub is_connected : Bool → ℕ → (ℕ → ℕ) → ℕ → Client → Bool × (Client × List Event)
unfolding check_connection_availability mark_all
is_connected fine now pings later c =
    let (present, (c1, events)) = check_connection_availability fine now pings c in
    let c2 : Client = record c1 {
      connection_error_count = if present then 0 else c1.connection_error_count + 1;
    } in
    let (c3, marked) = mark_all force_false c2 in
    if ltb 3 c2.connection_error_count
    then (false, (c3, events ++ marked))
    else if not c2.supports_push_updates
    then (true, (c2, events))
    else (ltb later (c2.modified_at + callback_warn_interval), (c2, events))

-- `reconnect`, which first asks `is_connected`
unfoldable pub reconnect :
    Bool → ℕ → (ℕ → ℕ) → ℕ → Bool → Bool → ℕ → ℕ → Client → Bool × (Client × List Event)
unfolding is_connected proxy_re_init
reconnect fine now pings later gone there at added c =
    let (connected, (c1, events)) = is_connected fine now pings later c in
    let (_, (c2, more)) = proxy_re_init gone there at added c1 in
    if connected then (true, (c2, events ++ more)) else (false, (c1, events))

-- `is_callback_alive`, with the time of the last event of the interface
unfoldable pub is_callback_alive : Option ℕ → ℕ → Client → Bool × (Client × List Event)
is_callback_alive last now c = if not c.supports_ping_pong then (true, (c, [])) else elim last [
  | none ↦ (true, (c, []))
  | some t ↦
      if ltb (t + callback_warn_interval) now
      then (
        false,
        (
          record c { callback_alive = false },
          if c.callback_alive then fire_callback false ∷ [] else [],
        ),
      )
      else (
        true,
        (
          record c { callback_alive = true },
          if c.callback_alive then [] else fire_callback true ∷ [],
        ),
      )
]

-- What happens to a client, with the answers and the readings of each.
pub data Op : Type 0 where
  op_init : Bool → ℕ → ℕ → Op
  op_de_init : Bool → Op
  op_re_init : Bool → Bool → ℕ → ℕ → Op
  op_connected : Bool → ℕ → (ℕ → ℕ) → ℕ → Op
  op_reconnect : Bool → ℕ → (ℕ → ℕ) → ℕ → Bool → Bool → ℕ → ℕ → Op
  op_callback : Option ℕ → ℕ → Op

unfoldable pub apply : Op → Client → Client × List Event
apply (op_init fine now added) c = (proxy_init fine now added c).1
apply (op_de_init fine) c = ((proxy_de_init fine c).1, [])
apply (op_re_init gone fine now added) c = (proxy_re_init gone fine now added c).1
apply (op_connected fine now pings later) c = (is_connected fine now pings later c).1
apply (op_reconnect fine now pings later gone there at added) c =
    (reconnect fine now pings later gone there at added c).1
apply (op_callback last now) c = (is_callback_alive last now c).1

unfoldable pub run : List Op → Client → Client × List Event
run [] c = (c, [])
run (op ∷ ops) c =
    let (c1, first) = apply op c in let (c2, rest) = run ops c1 in (c2, first ++ rest)
