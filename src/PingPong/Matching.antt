-- ===== src/PingPong/Matching.antt =====
-- How pongs are matched with pings in hahomematic/caches/dynamic.py.
use hahomematic.Base.{
  ℕ, ◌≡◌, refl, Bool, true, false, ◌&&◌, arith, nat_eq, contains, add, remove, contains-keep,
  contains-add, contains-remove,
}
use hahomematic.PingPong.{
  PingPongCache, EventType, pending_pong, unknown_pong, is_live, cleanup_pending_pongs,
  cleanup_unknown_pongs, report_high, check_and_fire_pong_event, handle_send_ping,
  handle_received_pong,
}
use hahomematic.Base.{eqb_refl, length, ◌∙◌}

abbrev pub is_pending : ℕ → PingPongCache → Bool
is_pending ts c = contains ts c.pending_pongs

abbrev pub is_unknown : ℕ → PingPongCache → Bool
is_unknown ts c = contains ts c.unknown_pongs

-- the age of `ts` is at most the time to live at each reading of the clock
abbrev pub IsLive : ℕ → ℕ → (ℕ → ℕ) → Type 0
IsLive ttl ts now = (i : ℕ) → is_live ttl (now i) ts ≡ true

module _ (ts now : ℕ) (c : PingPongCache) where
  cleanup_pending :
      is_pending ts (cleanup_pending_pongs now c) ≡ (is_live c.ttl now ts && is_pending ts c)
  unfolding cleanup_pending_pongs
  cleanup_pending = contains-keep (is_live c.ttl now) ts c.pending_pongs

  cleanup_pending_unknown : is_unknown ts (cleanup_pending_pongs now c) ≡ is_unknown ts c
  unfolding cleanup_pending_pongs
  cleanup_pending_unknown = refl

  cleanup_unknown :
      is_unknown ts (cleanup_unknown_pongs now c) ≡ (is_live c.ttl now ts && is_unknown ts c)
  unfolding cleanup_unknown_pongs
  cleanup_unknown = contains-keep (is_live c.ttl now) ts c.unknown_pongs

  cleanup_unknown_pending : is_pending ts (cleanup_unknown_pongs now c) ≡ is_pending ts c
  unfolding cleanup_unknown_pongs
  cleanup_unknown_pending = refl

module _ (now : ℕ) (c : PingPongCache) where
  cleanup_pending-ttl : (cleanup_pending_pongs now c).ttl ≡ c.ttl
  unfolding cleanup_pending_pongs
  cleanup_pending-ttl = refl

  cleanup_unknown-ttl : (cleanup_unknown_pongs now c).ttl ≡ c.ttl
  unfolding cleanup_unknown_pongs
  cleanup_unknown-ttl = refl

module _ (ts : ℕ) (e : EventType) (count : ℕ) (c : PingPongCache) where
  report_high-pending : is_pending ts (report_high e count c).0 ≡ is_pending ts c
  unfolding report_high
  report_high-pending =
      elim e as (λ e'. is_pending ts (report_high e' count c).0 ≡ is_pending ts c) [
        | pending_pong ↦ ground arith
        | unknown_pong ↦ ground arith
      ]

  report_high-unknown : is_unknown ts (report_high e count c).0 ≡ is_unknown ts c
  unfolding report_high
  report_high-unknown =
      elim e as (λ e'. is_unknown ts (report_high e' count c).0 ≡ is_unknown ts c) [
        | pending_pong ↦ ground arith
        | unknown_pong ↦ ground arith
      ]

module _ (e : EventType) (count : ℕ) (c : PingPongCache) where
  report_high-ttl : (report_high e count c).0.ttl ≡ c.ttl
  unfolding report_high
  report_high-ttl = elim e as (λ e'. (report_high e' count c).0.ttl ≡ c.ttl) [
    | pending_pong ↦ ground arith
    | unknown_pong ↦ ground arith
  ]

ruleset cleanup_laws = (
  cleanup_pending, cleanup_pending_unknown, cleanup_unknown, cleanup_unknown_pending,
  cleanup_pending-ttl, cleanup_unknown-ttl, report_high-pending, report_high-unknown,
  report_high-ttl,
)

-- A timestamp that is live at all readings stays where it is.
check-live :
    (e : EventType) (ts count : ℕ) (now : ℕ → ℕ) (c : PingPongCache)
    → IsLive c.ttl ts now
    → (is_pending ts (check_and_fire_pong_event e count now c).0 ≡ is_pending ts c)
      × (is_unknown ts (check_and_fire_pong_event e count now c).0 ≡ is_unknown ts c)
unfolding check_and_fire_pong_event
check-live pending_pong ts count now c live =
    grind (arith, cleanup_laws, live 0, live 1, live 2, live 3)
check-live unknown_pong ts count now c live =
    grind (arith, cleanup_laws, live 0, live 1, live 2, live 3)

-- No timestamp comes up that was not there.
check-shrinks :
    (e : EventType) (ts count : ℕ) (now : ℕ → ℕ) (c : PingPongCache)
    → (is_pending ts c ≡ false → is_pending ts (check_and_fire_pong_event e count now c).0 ≡ false)
      × (is_unknown ts c ≡ false
          → is_unknown ts (check_and_fire_pong_event e count now c).0 ≡ false)
unfolding check_and_fire_pong_event
check-shrinks pending_pong ts count now c = grind (arith, cleanup_laws)
check-shrinks unknown_pong ts count now c = grind (arith, cleanup_laws)

-- A ping that is live at the readings of its own handling waits for its pong.
handle_send_ping-pending :
    (ts : ℕ) (now : ℕ → ℕ) (c : PingPongCache)
    → IsLive c.ttl ts now
    → is_pending ts (handle_send_ping ts now c).0 ≡ true
unfolding handle_send_ping
handle_send_ping-pending ts now c live =
    (check-live pending_pong ts _ now _ live).0 ∙ contains-add ts ts c.pending_pongs ∙ rw eqb_refl

-- A pong whose ping waits takes the ping off and is no unknown pong.
handle_received_pong-matched :
    (ts : ℕ) (now : ℕ → ℕ) (c : PingPongCache)
    → is_pending ts c ≡ true
    → is_unknown ts c ≡ false
    → (is_pending ts (handle_received_pong ts now c).0 ≡ false)
      × (is_unknown ts (handle_received_pong ts now c).0 ≡ false)
unfolding handle_received_pong
handle_received_pong-matched ts now c p u =
    let c' : PingPongCache = record c { pending_pongs = remove ts c.pending_pongs } in
    let gone : is_pending ts c' ≡ false = contains-remove ts ts c.pending_pongs ∙ rw eqb_refl in
    let (pending, unknown) = check-shrinks pending_pong ts (length c'.pending_pongs) now c' in
    rw p (pending gone, unknown u)

-- A pong whose ping does not wait is an unknown pong from then on, and no pending one.
pub handle_received_pong-unmatched :
    (ts : ℕ) (now : ℕ → ℕ) (c : PingPongCache)
    → is_pending ts c ≡ false
    → IsLive c.ttl ts now
    → (is_pending ts (handle_received_pong ts now c).0 ≡ false)
      × (is_unknown ts (handle_received_pong ts now c).0 ≡ true)
unfolding handle_received_pong
handle_received_pong-unmatched ts now c p live =
    let c' : PingPongCache = record c { unknown_pongs = add ts c.unknown_pongs } in
    let there : is_unknown ts c' ≡ true = contains-add ts ts c.unknown_pongs ∙ rw eqb_refl in
    let (pending, unknown) = check-live unknown_pong ts (length c'.unknown_pongs) now c' live in
    rw p (pending ∙ p, unknown ∙ there)

-- A ping that is live while it is handled, and whose timestamp is no unknown pong, leaves no trace
-- once its pong is there, whatever the clock reads then.
pub answered_ping :
    (ts : ℕ) (now later : ℕ → ℕ) (c : PingPongCache)
    → IsLive c.ttl ts now
    → is_unknown ts c ≡ false
    → let c' = (handle_received_pong ts later (handle_send_ping ts now c).0).0 in
      (is_pending ts c' ≡ false) × (is_unknown ts c' ≡ false)
answered_ping ts now later c live u =
    handle_received_pong-matched ts later (handle_send_ping ts now c).0
      (handle_send_ping-pending ts now c live)
      (unfold handle_send_ping in (check-shrinks pending_pong ts _ now _).1 u)
