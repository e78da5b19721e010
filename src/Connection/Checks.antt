-- ===== src/Connection/Checks.antt =====
-- Repeated checks of the connection of a client (hahomematic/client/__init__.py).
use hahomematic.Base.{
  ℕ, ◌+◌, ◌≤◌, ◌<◌, ◌≡◌, ◌≢◌, Bool, true, false, ◌&&◌, ◌||◌, List, [], ◌∷◌, arith, length, leb, eqb,
}
use hahomematic.Clock.{init_datetime}
use hahomematic.Connection.{
  ccu, json_ccu, Client, mark_all, proxy_de_init, check_connection_availability, is_connected,
  callback_warn_interval, de_init_skipped,
}

-- The readings of one check: for the stored time, the ping-pong cache and the comparison.
abbrev pub Readings : Type 0
Readings = ℕ × ((ℕ → ℕ) × ℕ)

-- Checks that all fail, one after the other.
unfoldable pub fail_checks : List Readings → Client → Client
fail_checks [] c = c
fail_checks ((now, (pings, later)) ∷ rest) c =
    fail_checks rest (is_connected false now pings later c).1.0

check-failed :
    (now : ℕ) (pings : ℕ → ℕ) (c : Client)
    → let c' = (check_connection_availability false now pings c).1.0 in
      ((check_connection_availability false now pings c).0 ≡ false)
      × (c'.connection_error_count ≡ c.connection_error_count)
      × (c'.available ≡ c.available)
unfolding check_connection_availability
check-failed now pings c = ground arith

is_connected-failed :
    (now : ℕ) (pings : ℕ → ℕ) (later : ℕ) (c : Client)
    → let c' = (is_connected false now pings later c).1.0 in
      (c'.connection_error_count ≡ c.connection_error_count + 1)
      × (c'.available ≡ (c.available && leb (c.connection_error_count + 1) 3))
unfolding is_connected mark_all
is_connected-failed now pings later c = ground (arith, check-failed now pings c)

fail_checks_either :
    (checks : List Readings) (c : Client)
    → (fail_checks checks c).available
      ≡ (c.available && (eqb (length checks) 0 || leb (c.connection_error_count + length checks) 3))
unfolding fail_checks
fail_checks_either [] c = ground arith
fail_checks_either ((now, (pings, later)) ∷ rest) c = ground (
  arith,
  fail_checks_either rest (is_connected false now pings later c).1.0,
  is_connected-failed now pings later c,
)

-- A client whose error count is at most 3 stays as available as it was while the failed checks and
-- the count add up to at most 3, and becomes unavailable with the failed check after that.
pub fail_checks-available :
    (checks : List Readings) (c : Client)
    → c.connection_error_count ≤ 3
    → (fail_checks checks c).available
      ≡ (c.available && leb (c.connection_error_count + length checks) 3)
fail_checks-available checks c h = ground (arith, fail_checks_either checks c)

-- An answered check resets the error count, makes nothing unavailable, and is `true` for an interface
-- that pushes no updates, or if the client of a CCU reads the clock within the interval.
pub is_connected-answered :
    (now : ℕ) (pings : ℕ → ℕ) (later : ℕ) (c : Client)
    → c.kind ≡ ccu
    → later < now + callback_warn_interval
    → let (connected, (c', events)) = is_connected true now pings later c in
      (connected ≡ true)
      × (c'.connection_error_count ≡ 0)
      × (c'.available ≡ c.available)
      × (c'.modified_at ≡ now)
unfolding is_connected check_connection_availability
is_connected-answered now pings later c k h = ground (arith, k, h)

-- After one failed check of the client of a CCU or a Homegear, with XML-RPC on an interface that
-- pushes updates, the client counts as not connected if the clock is ten minutes past 1970, and a
-- re-initialisation skips the call that ends the old registration.
pub is_connected-lost :
    (now : ℕ) (pings : ℕ → ℕ) (later : ℕ) (gone : Bool) (c : Client)
    → c.supports_push_updates ≡ true
    → c.supports_xml_rpc ≡ true
    → c.kind ≢ json_ccu
    → init_datetime + callback_warn_interval ≤ later
    → let (connected, (c', events)) = is_connected false now pings later c in
      (connected ≡ false) × (proxy_de_init gone c' ≡ (de_init_skipped, c'))
unfolding is_connected check_connection_availability mark_all proxy_de_init
is_connected-lost now pings later gone c p x k h = ground (arith, p, x, k, h)
