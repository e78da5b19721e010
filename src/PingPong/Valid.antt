-- ===== src/PingPong/Valid.antt =====
-- The invariant of `PingPongCache` (hahomematic/caches/dynamic.py), for every method of it.
use hahomematic.Base.{ℕ, [], ◌∷◌, List, arith, nat_eq, Distinct}
use hahomematic.Base.{keep-Distinct, add-Distinct, remove-Distinct, contains, Bool-cases, inl, inr}
use hahomematic.PingPong.{
  PingPongCache, EventType, pending_pong, unknown_pong, cleanup_pending_pongs,
  cleanup_unknown_pongs, clear, report_high, Op, send, receive, reset, apply, run,
  check_and_fire_pong_event, handle_send_ping, handle_received_pong,
}

-- The two lists stand for sets: their lengths are the counts that the methods compare.
pub record IsValid (c : PingPongCache) : Type 0 where
  pub pending : Distinct c.pending_pongs
  pub unknown : Distinct c.unknown_pongs

pub cleanup_pending_pongs-IsValid :
    (now : ℕ) (c : PingPongCache) → IsValid c → IsValid (cleanup_pending_pongs now c)
unfolding cleanup_pending_pongs
cleanup_pending_pongs-IsValid now c v = record {
  pending = keep-Distinct _ c.pending_pongs v.pending;
  unknown = v.unknown;
}

pub cleanup_unknown_pongs-IsValid :
    (now : ℕ) (c : PingPongCache) → IsValid c → IsValid (cleanup_unknown_pongs now c)
unfolding cleanup_unknown_pongs
cleanup_unknown_pongs-IsValid now c v = record {
  pending = v.pending;
  unknown = keep-Distinct _ c.unknown_pongs v.unknown;
}

report_high-IsValid :
    (e : EventType) (count : ℕ) (c : PingPongCache) → IsValid c → IsValid (report_high e count c).0
unfolding report_high
report_high-IsValid pending_pong count c v = ground arith
report_high-IsValid unknown_pong count c v = ground arith

check-IsValid :
    (e : EventType) (count : ℕ) (now : ℕ → ℕ) (c : PingPongCache)
    → IsValid c
    → IsValid (check_and_fire_pong_event e count now c).0
unfolding check_and_fire_pong_event
check-IsValid pending_pong count now c v =
    grind (arith, cleanup_pending_pongs-IsValid, cleanup_unknown_pongs-IsValid, report_high-IsValid)
check-IsValid unknown_pong count now c v =
    grind (arith, cleanup_pending_pongs-IsValid, cleanup_unknown_pongs-IsValid, report_high-IsValid)

handle_send_ping-IsValid :
    (ts : ℕ) (now : ℕ → ℕ) (c : PingPongCache) → IsValid c → IsValid (handle_send_ping ts now c).0
unfolding handle_send_ping
handle_send_ping-IsValid ts now c v =
    check-IsValid pending_pong _ now _
      (record { pending = add-Distinct ts c.pending_pongs v.pending; unknown = v.unknown })

handle_received_pong-IsValid :
    (ts : ℕ) (now : ℕ → ℕ) (c : PingPongCache)
    → IsValid c
    → IsValid (handle_received_pong ts now c).0
unfolding handle_received_pong
handle_received_pong-IsValid ts now c v = elim (Bool-cases (contains ts c.pending_pongs)) [
  | inl e ↦ rw e (
      check-IsValid pending_pong _ now _
        (record { pending = remove-Distinct ts c.pending_pongs v.pending; unknown = v.unknown }))
  | inr e ↦ rw e (
      check-IsValid unknown_pong _ now _
        (record { pending = v.pending; unknown = add-Distinct ts c.unknown_pongs v.unknown }))
]

apply-IsValid : (op : Op) (c : PingPongCache) → IsValid c → IsValid (apply op c).0
unfolding apply clear
apply-IsValid (send ts now) c v = handle_send_ping-IsValid ts now c v
apply-IsValid (receive ts now) c v = handle_received_pong-IsValid ts now c v
apply-IsValid reset c v = record { pending = tt; unknown = tt }

-- Pings, pongs and clears in any order, at any readings of the clock, keep each timestamp at most
-- once among the pending and at most once among the unknown pongs.
pub run-IsValid : (ops : List Op) (c : PingPongCache) → IsValid c → IsValid (run ops c).0
unfolding run
run-IsValid [] c v = v
run-IsValid (op ∷ ops) c v = run-IsValid ops (apply op c).0 (apply-IsValid op c v)
