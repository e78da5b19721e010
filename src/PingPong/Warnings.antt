-- ===== src/PingPong/Warnings.antt =====
-- How often `_check_and_fire_pong_event` of hahomematic/caches/dynamic.py logs its warning.
use hahomematic.Base.{
  ℕ, ◌+◌, ◌≤◌, ◌≡◌, List, [], ◌∷◌, ◌++◌, arith, eqb, if◌then◌else◌, nat_eq, contains, Bool-cases,
  inl, inr,
}
use hahomematic.PingPong.{
  PingPongCache, EventType, pending_pong, unknown_pong, Effect, fire, warn, cleanup_pending_pongs,
  cleanup_unknown_pongs, clear, report_high, check_and_fire_pong_event, handle_send_ping,
  handle_received_pong, Op, send, receive, reset, apply, run,
}

-- the warnings about pending pongs, and the events that report no mismatch
abbrev pub warnings : List Effect → ℕ
warnings [] = 0
warnings (warn pending_pong ∷ es) = warnings es + 1
warnings (_ ∷ es) = warnings es

abbrev pub all_clears : List Effect → ℕ
all_clears [] = 0
all_clears (fire n ∷ es) = all_clears es + (if eqb n 0 then 1 else 0)
all_clears (_ ∷ es) = all_clears es

abbrev pub resets : List Op → ℕ
resets [] = 0
resets (reset ∷ ops) = resets ops + 1
resets (_ ∷ ops) = resets ops

abbrev room : PingPongCache → ℕ
room c = if c.pending_pong_logged then 0 else 1

warnings-append : (es fs : List Effect) → warnings (es ++ fs) ≡ warnings es + warnings fs
warnings-append [] fs = omega arith
warnings-append (fire n ∷ es) fs = warnings-append es fs
warnings-append (warn pending_pong ∷ es) fs = omega (arith, warnings-append es fs)
warnings-append (warn unknown_pong ∷ es) fs = warnings-append es fs

all_clears-append : (es fs : List Effect) → all_clears (es ++ fs) ≡ all_clears es + all_clears fs
all_clears-append [] fs = omega arith
all_clears-append (fire n ∷ es) fs = omega (arith, all_clears-append es fs)
all_clears-append (warn e ∷ es) fs = all_clears-append es fs

cleanup_pending_pongs-room :
    (now : ℕ) (c : PingPongCache) → room (cleanup_pending_pongs now c) ≡ room c
unfolding cleanup_pending_pongs
cleanup_pending_pongs-room now c = ground arith

cleanup_unknown_pongs-room :
    (now : ℕ) (c : PingPongCache) → room (cleanup_unknown_pongs now c) ≡ room c
unfolding cleanup_unknown_pongs
cleanup_unknown_pongs-room now c = ground arith

report_high-warnings :
    (e : EventType) (count : ℕ) (c : PingPongCache)
    → let (c', es) = report_high e count c in warnings es + room c' ≤ room c
unfolding report_high
report_high-warnings pending_pong count c = ground arith
report_high-warnings unknown_pong count c = ground arith

check-warnings :
    (e : EventType) (count : ℕ) (now : ℕ → ℕ) (c : PingPongCache)
    → let (c', es) = check_and_fire_pong_event e count now c in
      warnings es + room c' ≤ all_clears es + room c
unfolding check_and_fire_pong_event
check-warnings pending_pong count now c =
    grind (arith, cleanup_pending_pongs-room, cleanup_unknown_pongs-room, report_high-warnings)
check-warnings unknown_pong count now c =
    grind (arith, cleanup_pending_pongs-room, cleanup_unknown_pongs-room, report_high-warnings)

handle_send_ping-warnings :
    (ts : ℕ) (now : ℕ → ℕ) (c : PingPongCache)
    → let (c', es) = handle_send_ping ts now c in warnings es + room c' ≤ all_clears es + room c
unfolding handle_send_ping
handle_send_ping-warnings ts now c = check-warnings pending_pong _ now _

handle_received_pong-warnings :
    (ts : ℕ) (now : ℕ → ℕ) (c : PingPongCache)
    → let (c', es) = handle_received_pong ts now c in warnings es + room c' ≤ all_clears es + room c
unfolding handle_received_pong
handle_received_pong-warnings ts now c = elim (Bool-cases (contains ts c.pending_pongs)) [
  | inl e ↦ rw e (check-warnings pending_pong _ now _)
  | inr e ↦ rw e (check-warnings unknown_pong _ now _)
]

apply-warnings :
    (op : Op) (c : PingPongCache)
    → let (c', es) = apply op c in warnings es + room c' ≤ all_clears es + resets (op ∷ []) + room c
unfolding apply clear
apply-warnings (send ts now) c = omega (arith, handle_send_ping-warnings ts now c)
apply-warnings (receive ts now) c = omega (arith, handle_received_pong-warnings ts now c)
apply-warnings reset c = ground arith

resets-cons : (op : Op) (ops : List Op) → resets (op ∷ ops) ≡ resets (op ∷ []) + resets ops
resets-cons (send ts now) ops = omega arith
resets-cons (receive ts now) ops = omega arith
resets-cons reset ops = omega arith

run-warnings :
    (ops : List Op) (c : PingPongCache)
    → let (c', es) = run ops c in warnings es + room c' ≤ all_clears es + resets ops + room c
unfolding run
run-warnings [] c = omega arith
run-warnings (op ∷ ops) c =
    let (c1, first) = apply op c in
    let rest = (run ops c1).1 in
    omega (
      arith,
      apply-warnings op c,
      run-warnings ops c1,
      resets-cons op ops,
      warnings-append first rest,
      all_clears-append first rest,
    )

-- In any stretch of the calls of a cache that has no sign that the mismatch is gone, that is no event
-- that reports a mismatch of 0 and no `clear`, the warning about pending pongs is logged at most once,
-- and not at all if the cache has noted before it that the warning was logged.
pub warnings-run :
    (ops : List Op) (c : PingPongCache)
    → all_clears (run ops c).1 + resets ops ≡ 0
    → warnings (run ops c).1 ≤ (if c.pending_pong_logged then 0 else 1)
warnings-run ops c no_sign = omega (arith, run-warnings ops c, no_sign)
