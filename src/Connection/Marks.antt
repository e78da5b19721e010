-- ===== src/Connection/Marks.antt =====
-- Whether the devices of a client are marked as it is available (hahomematic/client/__init__.py).
use hahomematic.Base.{
  ℕ, zero, suc, ◌≡◌, refl, Bool, true, false, ◌++◌, if◌then◌else◌, Bool-cases, inl, inr, not, ◌||◌,
  Option, List, [], ◌∷◌, arith, ◌==◌, list_eq, nat_eq, all,
}
use hahomematic.Base.Text.{Text}
use hahomematic.Connection.{
  ForcedDeviceAvailability, force_false, not_set, Device, Client, is_force_false, mark_devices,
  mark_all, new_devices, proxy_init, proxy_de_init, proxy_re_init, check_connection_availability,
  is_connected, reconnect, is_callback_alive, Op, op_init, op_de_init, op_re_init, op_connected,
  op_reconnect, op_callback, apply, run,
}

-- A device of another interface, or one that is not forced to be unavailable while the client is
-- available; with XML-RPC it is forced so while the client is not.
unfoldable pub is_marked : Text → Bool → Bool → Device → Bool
is_marked interface_id xml_rpc available d =
    not (d.interface_id == interface_id)
    || (if is_force_false d.forced_availability then not available else (available || not xml_rpc))

-- every device of the client's interface is marked
pub record IsMarked (c : Client) : Type 0 where
  pub marks : all (is_marked c.interface_id c.supports_xml_rpc c.available) c.devices ≡ true

all-mark_devices :
    (i : Text) (xml_rpc : Bool) (forced : ForcedDeviceAvailability) (ds : List Device)
    → all (is_marked i xml_rpc (not (is_force_false forced))) (mark_devices i forced ds) ≡ true
unfolding all is_marked mark_devices
all-mark_devices i xml_rpc forced [] = refl
all-mark_devices i xml_rpc forced (d ∷ ds) = ground (arith, all-mark_devices i xml_rpc forced ds)

all-new_devices :
    (i : Text) (available : Bool) (n : ℕ) (ds : List Device)
    → all (is_marked i false available) ds ≡ true
    → all (is_marked i false available) (ds ++ new_devices i n) ≡ true
unfolding all is_marked new_devices
all-new_devices i available zero [] h = refl
all-new_devices i available (suc n) [] h = ground (arith, all-new_devices i available n [] h)
all-new_devices i available n (d ∷ ds) h = ground (arith, all-new_devices i available n ds, h)

mark_all-IsMarked :
    (forced : ForcedDeviceAvailability) (c : Client) → IsMarked c → IsMarked (mark_all forced c).0
unfolding mark_all
mark_all-IsMarked forced c w = record {
  marks =
      ground (arith, w.marks, all-mark_devices c.interface_id c.supports_xml_rpc forced c.devices);
}

pub proxy_init-IsMarked :
    (fine : Bool) (now added : ℕ) (c : Client)
    → IsMarked c
    → IsMarked (proxy_init fine now added c).1.0
unfolding proxy_init
proxy_init-IsMarked fine now added c w = elim (Bool-cases c.supports_xml_rpc) [
  | inl xml ↦ record {
    marks =
        unfold mark_all in
        ground (
          arith,
          xml,
          w.marks,
          all-mark_devices c.interface_id c.supports_xml_rpc not_set c.devices,
        );
  }
  | inr none_there ↦ record {
    marks =
        ground
          (arith, none_there, w.marks, all-new_devices c.interface_id c.available added c.devices);
  }
]

proxy_de_init-IsMarked : (fine : Bool) (c : Client) → IsMarked c → IsMarked (proxy_de_init fine c).1
unfolding proxy_de_init
proxy_de_init-IsMarked fine c w = record { marks = ground (arith, w.marks) }

proxy_re_init-IsMarked :
    (gone fine : Bool) (now added : ℕ) (c : Client)
    → IsMarked c
    → IsMarked (proxy_re_init gone fine now added c).1.0
unfolding proxy_re_init
proxy_re_init-IsMarked gone fine now added c w =
    let c1 = (proxy_de_init gone c).1 in
    let before = proxy_de_init-IsMarked gone c w in
    let after = proxy_init-IsMarked fine now added c1 before in
    record { marks = ground (arith, before.marks, after.marks) }

pub check-same :
    (fine : Bool) (now : ℕ) (pings : ℕ → ℕ) (c : Client)
    → let c' = (check_connection_availability fine now pings c).1.0 in
      (c'.devices ≡ c.devices)
      × (c'.available ≡ c.available)
      × (c'.interface_id ≡ c.interface_id)
      × (c'.supports_xml_rpc ≡ c.supports_xml_rpc)
unfolding check_connection_availability
check-same fine now pings c = ground arith

pub is_connected-IsMarked :
    (fine : Bool) (now : ℕ) (pings : ℕ → ℕ) (later : ℕ) (c : Client)
    → IsMarked c
    → IsMarked (is_connected fine now pings later c).1.0
unfolding is_connected mark_all
is_connected-IsMarked fine now pings later c w = record {
  marks = ground (
    arith,
    w.marks,
    check-same fine now pings c,
    all-mark_devices c.interface_id c.supports_xml_rpc force_false c.devices,
  );
}

reconnect-IsMarked :
    (fine : Bool) (now : ℕ) (pings : ℕ → ℕ) (later : ℕ) (gone there : Bool) (at added : ℕ)
    (c : Client)
    → IsMarked c
    → IsMarked (reconnect fine now pings later gone there at added c).1.0
unfolding reconnect
reconnect-IsMarked fine now pings later gone there at added c w =
    let before = is_connected-IsMarked fine now pings later c w in
    let after =
      proxy_re_init-IsMarked gone there at added (is_connected fine now pings later c).1.0 before in
    record { marks = ground (arith, before.marks, after.marks) }

callback-IsMarked :
    (last : Option ℕ) (now : ℕ) (c : Client)
    → IsMarked c
    → IsMarked (is_callback_alive last now c).1.0
unfolding is_callback_alive
callback-IsMarked last now c w = record { marks = ground (arith, w.marks) }

pub apply-IsMarked : (op : Op) (c : Client) → IsMarked c → IsMarked (apply op c).0
unfolding apply
apply-IsMarked (op_init fine now added) c w = proxy_init-IsMarked fine now added c w
apply-IsMarked (op_de_init fine) c w = proxy_de_init-IsMarked fine c w
apply-IsMarked (op_re_init gone fine now added) c w = proxy_re_init-IsMarked gone fine now added c w
apply-IsMarked (op_connected fine now pings later) c w =
    is_connected-IsMarked fine now pings later c w
apply-IsMarked (op_reconnect fine now pings later gone there at added) c w =
    reconnect-IsMarked fine now pings later gone there at added c w
apply-IsMarked (op_callback last now) c w = callback-IsMarked last now c w

-- Whatever calls a client gets, with whatever answers, no device of its interface is forced to be
-- unavailable while the client is available, if that was so before; and with XML-RPC each of them is
-- forced so while the client is unavailable, if that was so before too.
pub run-IsMarked : (ops : List Op) (c : Client) → IsMarked c → IsMarked (run ops c).0
unfolding run
run-IsMarked [] c w = w
run-IsMarked (op ∷ ops) c w = run-IsMarked ops (apply op c).0 (apply-IsMarked op c w)
