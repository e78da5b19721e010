-- ===== src/Tests/Pings.antt =====
-- The theorems about `PingPongCache` of hahomematic/caches/dynamic.py at concrete pings.
use hahomematic.Base.{ℕ, ◌≡◌, refl, false, List, [], ◌∷◌, contains, add, keep, if◌then◌else◌}
use hahomematic.Clock.{second, delta_seconds}
use hahomematic.PingPong.{
  Op, send, new, run, apply, is_live, PingPongCache, check_and_fire_pong_event, report_high,
  cleanup_pending_pongs, cleanup_unknown_pongs, handle_send_ping, handle_received_pong,
}
use hahomematic.PingPong.Warnings.{warnings, all_clears, resets, warnings-run}
use hahomematic.PingPong.Matching.{is_pending, is_unknown, IsLive, answered_ping}
use hahomematic.Base.{◌+◌, ◌≤◌, ◌*◌}

abbrev start : ℕ
start = 63000000000 * second

-- sixteen pings pending
abbrev many_pending : PingPongCache
many_pending = record new {
  pending_pongs = 1 ∷ 2 ∷ 3 ∷ 4 ∷ 5 ∷ 6 ∷ 7 ∷ 8 ∷ 9 ∷ 10 ∷ 11 ∷ 12 ∷ 13 ∷ 14 ∷ 15 ∷ 16 ∷ [];
}

abbrev more : List Op
more = send 17 (λ i. 18) ∷ send 18 (λ i. 19) ∷ []

no_sign_there : all_clears (run more many_pending).1 + resets more ≡ 0
unfolding run apply handle_send_ping check_and_fire_pong_event report_high cleanup_pending_pongs
    cleanup_unknown_pongs is_live delta_seconds new add contains keep
no_sign_there = refl

warnings-run_example :
    warnings (run more many_pending).1 ≤ (if many_pending.pending_pong_logged then 0 else 1)
warnings-run_example = warnings-run more many_pending no_sign_there

start-IsLive : IsLive 300 start (λ i. start)
unfolding is_live delta_seconds
start-IsLive i = refl

answered_ping_example :
    (is_pending start
        (handle_received_pong start (λ i. start) (handle_send_ping start (λ i. start) new).0).0
      ≡ false)
    × (is_unknown start
          (handle_received_pong start (λ i. start) (handle_send_ping start (λ i. start) new).0).0
        ≡ false)
unfolding new contains
answered_ping_example = answered_ping start (λ i. start) (λ i. start) new start-IsLive refl
