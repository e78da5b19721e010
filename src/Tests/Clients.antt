-- ===== src/Tests/Clients.antt =====
-- The theorems about the connection of a client at a concrete client.
use hahomematic.Base.{
  ℕ, ◌+◌, ◌*◌, ◌≡◌, refl, arith, true, false, ◌&&◌, List, [], ◌∷◌, all, leb, length, list_eq,
  nat_eq,
}
use hahomematic.Base.Text.{codes}
use hahomematic.Clock.{second}
use hahomematic.PingPong.{new}
use hahomematic.Connection.{
  Client, ccu, json_ccu, not_set, op_init, op_connected, op_reconnect, Op, run, proxy_init,
}
use hahomematic.Connection.Marks.{is_marked, IsMarked, run-IsMarked}
use hahomematic.Connection.Recovery.{is_forced, proxy_init-fail_checks, run-unavailable}
use hahomematic.Connection.Checks.{Readings, fail_checks, fail_checks-available}

abbrev start : ℕ
start = 63000000000 * second

abbrev client : Client
client = record {
  interface_id = codes "rf";
  kind = ccu;
  supports_xml_rpc = true;
  supports_push_updates = true;
  supports_ping_pong = true;
  available = true;
  callback_alive = true;
  connection_error_count = 0;
  modified_at = start;
  ping_pong_cache = new;
  devices = record { interface_id = codes "rf"; forced_availability = not_set } ∷ [];
}

client-IsMarked : IsMarked client
unfolding all is_marked
client-IsMarked = record { marks = refl }

abbrev check : Op
check = op_connected false start (λ i. start) start

abbrev ops : List Op
ops = check ∷ check ∷ check ∷ check ∷ op_init true start 0 ∷ []

run-IsMarked_example : IsMarked (run ops client).0
run-IsMarked_example = run-IsMarked ops client client-IsMarked

abbrev reading : Readings
reading = (start, ((λ i. start), start))

fail_checks-available_example :
    (fail_checks (reading ∷ reading ∷ reading ∷ reading ∷ []) client).available
    ≡ (true && leb (0 + length (reading ∷ reading ∷ reading ∷ reading ∷ [])) 3)
fail_checks-available_example =
    fail_checks-available (reading ∷ reading ∷ reading ∷ reading ∷ []) client (ground arith)

abbrev four : List Readings
four = reading ∷ reading ∷ reading ∷ reading ∷ []

proxy_init-fail_checks_example :
    let lost = fail_checks four client in
    let back = (proxy_init true start 0 lost).1.0 in
    (lost.available ≡ false)
    × (all (is_forced (codes "rf") true) lost.devices ≡ true)
    × (back.available ≡ true)
    × (all (is_forced (codes "rf") false) back.devices ≡ true)
proxy_init-fail_checks_example =
    proxy_init-fail_checks four start 0 client client-IsMarked refl (ground arith) (ground arith)

abbrev cuxd_client : Client
cuxd_client = record client {
  kind = json_ccu;
  supports_xml_rpc = false;
  supports_push_updates = false;
  supports_ping_pong = false;
  available = false;
}

abbrev tries : List Op
tries =
    op_connected true start (λ i. start) start
    ∷ op_reconnect true start (λ i. start) start true true start 1
    ∷ op_init true start 2
    ∷ []

run-unavailable_example : (run tries cuxd_client).0.available ≡ false
run-unavailable_example = run-unavailable tries cuxd_client refl refl
