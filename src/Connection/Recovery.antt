-- ===== src/Connection/Recovery.antt =====
-- A client that loses its connection and registers again (hahomematic/client/__init__.py).
use hahomematic.Base.{
  ℕ, ◌≤◌, ◌≡◌, refl, ◌∙◌, Bool, true, false, not, ◌||◌, ◌==◌, list_eq, nat_eq, List, [], ◌∷◌, all,
  length, arith,
}
use hahomematic.Base.Text.{Text}
use hahomematic.Connection.{
  Device, Client, is_force_false, same, mark_all, proxy_init, proxy_de_init, proxy_re_init,
  check_connection_availability, is_connected, reconnect, is_callback_alive, Op, op_init,
  op_de_init, op_re_init, op_connected, op_reconnect, op_callback, apply, run,
}
use hahomematic.Connection.Marks.{
  is_marked, IsMarked, is_connected-IsMarked, proxy_init-IsMarked, check-same,
}
use hahomematic.Connection.Checks.{Readings, fail_checks, fail_checks-available}

-- A device of another interface, or one that is forced to be unavailable, or not, as is said.
unfoldable pub is_forced : Text → Bool → Device → Bool
is_forced interface_id forced d =
    not (d.interface_id == interface_id) || same (is_force_false d.forced_availability) forced

all-forced :
    (i : Text) (available : Bool) (ds : List Device)
    → all (is_marked i true available) ds ≡ true
    → all (is_forced i (not available)) ds ≡ true
unfolding all is_marked is_forced
all-forced i available [] h = refl
all-forced i available (d ∷ ds) h = ground (arith, all-forced i available ds, h)

is_connected-same :
    (fine : Bool) (now : ℕ) (pings : ℕ → ℕ) (later : ℕ) (c : Client)
    → let c' = (is_connected fine now pings later c).1.0 in
      (c'.interface_id ≡ c.interface_id) × (c'.supports_xml_rpc ≡ c.supports_xml_rpc)
unfolding is_connected mark_all
is_connected-same fine now pings later c = ground (arith, check-same fine now pings c)

fail_checks-same :
    (checks : List Readings) (c : Client)
    → let c' = fail_checks checks c in
      (c'.interface_id ≡ c.interface_id) × (c'.supports_xml_rpc ≡ c.supports_xml_rpc)
unfolding fail_checks
fail_checks-same [] c = (refl, refl)
fail_checks-same ((now, (pings, later)) ∷ rest) c =
    let c1 = (is_connected false now pings later c).1.0 in
    let (i, x) = fail_checks-same rest c1 in
    let (i1, x1) = is_connected-same false now pings later c in (i ∙ i1, x ∙ x1)

fail_checks-IsMarked :
    (checks : List Readings) (c : Client) → IsMarked c → IsMarked (fail_checks checks c)
unfolding fail_checks
fail_checks-IsMarked [] c w = w
fail_checks-IsMarked ((now, (pings, later)) ∷ rest) c w =
    fail_checks-IsMarked rest (is_connected false now pings later c).1.0
      (is_connected-IsMarked false now pings later c w)

init_same :
    (now added : ℕ) (c : Client)
    → c.supports_xml_rpc ≡ true
    → let c' = (proxy_init true now added c).1.0 in
      (c'.available ≡ true) × (c'.interface_id ≡ c.interface_id) × (c'.supports_xml_rpc ≡ true)
unfolding proxy_init mark_all
init_same now added c xml = ground (arith, xml)

all_forced-IsMarked :
    (c : Client)
    → IsMarked c
    → c.supports_xml_rpc ≡ true
    → all (is_forced c.interface_id (not c.available)) c.devices ≡ true
all_forced-IsMarked c w xml =
    all-forced c.interface_id c.available c.devices (ground (arith, w.marks, xml))

-- After more than three failed checks in a row, from an error count of at most 3, a client with XML-RPC
-- is unavailable and all devices of its interface are forced to be so; a successful initialisation
-- then makes it available and forces none of them, if before the checks they were forced to be
-- unavailable just while the client was.
pub proxy_init-fail_checks :
    (checks : List Readings) (now added : ℕ) (c : Client)
    → IsMarked c
    → c.supports_xml_rpc ≡ true
    → c.connection_error_count ≤ 3
    → 4 ≤ length checks
    → let c1 = fail_checks checks c in
      let c2 = (proxy_init true now added c1).1.0 in
      (c1.available ≡ false)
      × (all (is_forced c.interface_id true) c1.devices ≡ true)
      × (c2.available ≡ true)
      × (all (is_forced c.interface_id false) c2.devices ≡ true)
proxy_init-fail_checks checks now added c w xml few many =
    let c1 = fail_checks checks c in
    let (i1, x1) = fail_checks-same checks c in
    let w1 = fail_checks-IsMarked checks c w in
    let lost : c1.available ≡ false = ground (arith, fail_checks-available checks c few, many) in
    let (found, i2, x2) = init_same now added c1 (x1 ∙ xml) in
    let w2 = proxy_init-IsMarked true now added c1 w1 in
    let c2 = (proxy_init true now added c1).1.0 in
    (
      lost,
      ground (arith, all_forced-IsMarked c1 w1 (x1 ∙ xml), lost, i1),
      found,
      ground (arith, all_forced-IsMarked c2 w2 x2, found, i1, i2),
    )

apply-unavailable :
    (op : Op) (c : Client)
    → c.supports_xml_rpc ≡ false
    → c.available ≡ false
    → let c' = (apply op c).0 in (c'.supports_xml_rpc ≡ false) × (c'.available ≡ false)
unfolding apply proxy_init proxy_de_init proxy_re_init is_connected reconnect is_callback_alive
    mark_all check_connection_availability
apply-unavailable (op_init fine now added) c xml lost = ground (arith, xml, lost)
apply-unavailable (op_de_init fine) c xml lost = ground (arith, xml, lost)
apply-unavailable (op_re_init gone fine now added) c xml lost = ground (arith, xml, lost)
apply-unavailable (op_connected fine now pings later) c xml lost = ground (arith, xml, lost)
apply-unavailable (op_reconnect fine now pings later gone there at added) c xml lost =
    ground (arith, xml, lost)
apply-unavailable (op_callback last now) c xml lost = ground (arith, xml, lost)

-- A client without XML-RPC that is unavailable stays so, whatever calls it gets, initialisations,
-- reconnections and answered checks among them, and with whatever answers.
pub run-unavailable :
    (ops : List Op) (c : Client)
    → c.supports_xml_rpc ≡ false
    → c.available ≡ false
    → (run ops c).0.available ≡ false
unfolding run
run-unavailable [] c xml lost = lost
run-unavailable (op ∷ ops) c xml lost =
    let (xml1, lost1) = apply-unavailable op c xml lost in
    run-unavailable ops (apply op c).0 xml1 lost1
