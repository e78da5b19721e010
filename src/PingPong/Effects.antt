-- ===== src/PingPong/Effects.antt =====
-- Which events `PingPongCache` of hahomematic/caches/dynamic.py fires, and when it warns.
use hahomematic.Base.{
  ℕ, ◌*◌, ◌≡◌, true, List, [], ◌∷◌, arith, ltb, if◌then◌else◌, length, all, keep-all,
}
use hahomematic.PingPong.{
  PingPongCache, pending_pong, unknown_pong, Effect, fire, warn, is_live, cleanup_pending_pongs,
  cleanup_unknown_pongs, report_high, check_and_fire_pong_event,
}

-- no timestamp of the cache has expired at a reading
pub record IsFresh (now : ℕ) (c : PingPongCache) : Type 0 where
  pub pending : all (is_live c.ttl now) c.pending_pongs ≡ true
  pub unknown : all (is_live c.ttl now) c.unknown_pongs ≡ true

cleanup_pending_pongs-fresh :
    (now : ℕ) (c : PingPongCache) → IsFresh now c → cleanup_pending_pongs now c ≡ c
unfolding cleanup_pending_pongs
cleanup_pending_pongs-fresh now c f = rw (keep-all (is_live c.ttl now) c.pending_pongs f.pending)

cleanup_unknown_pongs-fresh :
    (now : ℕ) (c : PingPongCache) → IsFresh now c → cleanup_unknown_pongs now c ≡ c
unfolding cleanup_unknown_pongs
cleanup_unknown_pongs-fresh now c f = rw (keep-all (is_live c.ttl now) c.unknown_pongs f.unknown)

-- what a report of `n` mismatches fires, by the count alone
abbrev pub pending_effects : PingPongCache → ℕ → List Effect
pending_effects c n =
    if ltb (2 * n) c.allowed_delta
    then fire 0 ∷ []
    else if ltb c.allowed_delta n
    then fire n ∷ (if c.pending_pong_logged then [] else warn pending_pong ∷ [])
    else []

abbrev pub unknown_effects : PingPongCache → ℕ → List Effect
unknown_effects c n =
    if ltb (2 * n) c.allowed_delta
    then []
    else if ltb c.allowed_delta n
    then (if c.unknown_pong_logged then [] else warn unknown_pong ∷ [])
    else []

-- Where nothing has expired, a check about pending pongs fires 0 below half of the allowed count,
-- the count above the allowed count, with a warning if none was logged, and nothing in between.
pub check_and_fire-pending :
    (now : ℕ → ℕ) (c : PingPongCache)
    → ((i : ℕ) → IsFresh (now i) c)
    → (check_and_fire_pong_event pending_pong (length c.pending_pongs) now c).1
      ≡ pending_effects c (length c.pending_pongs)
unfolding check_and_fire_pong_event report_high
check_and_fire-pending now c f =
    rw
      (
        cleanup_pending_pongs-fresh (now 0) c (f 0),
        cleanup_unknown_pongs-fresh (now 1) c (f 1),
        cleanup_pending_pongs-fresh (now 2) c (f 2),
      )
      (ground arith)

-- The same check about unknown pongs fires no event; it warns above the allowed count, if no
-- warning was logged.
pub check_and_fire-unknown :
    (now : ℕ → ℕ) (c : PingPongCache)
    → ((i : ℕ) → IsFresh (now i) c)
    → (check_and_fire_pong_event unknown_pong (length c.unknown_pongs) now c).1
      ≡ unknown_effects c (length c.unknown_pongs)
unfolding check_and_fire_pong_event report_high
check_and_fire-unknown now c f =
    rw
      (
        cleanup_pending_pongs-fresh (now 0) c (f 0),
        cleanup_unknown_pongs-fresh (now 1) c (f 1),
        cleanup_pending_pongs-fresh (now 2) c (f 2),
        cleanup_unknown_pongs-fresh (now 3) c (f 3),
      )
      (ground arith)
