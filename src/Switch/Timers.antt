-- ===== src/Switch/Timers.antt =====
-- The timer of a switch (hahomematic/model/support.py, hahomematic/model/custom/switch.py).
use hahomematic.Base.{
  ℕ, ◌<◌, ◌≡◌, refl, Bool, true, false, Option, none, some, List, [], ◌∷◌, leb, arith, Bool-cases,
  Option-cases, inl, inr,
}
use hahomematic.Base.Double.{Double}
use hahomematic.Clock.{init_datetime}
use hahomematic.Switch.{
  Timer, set_timer_on_time, reset_timer_on_time, timer_on_time_running, get_and_start_timer, Switch,
  send_on_time, send_state, has_timer, is_state_change, set_timer, turn_on, turn_off, Op, op_on,
  op_off, run,
}

-- a time that waits to be sent goes with an end that is not set
abbrev pub IsWaiting : Timer → Type 0
IsWaiting t = has_timer t ≡ true → t.timer_on_time_end ≡ init_datetime

set_timer-IsWaiting :
    (on_time : Option Double) (t : Timer) → IsWaiting t → IsWaiting (set_timer on_time t)
unfolding set_timer_on_time
set_timer-IsWaiting none t w = w
set_timer-IsWaiting (some x) t w = λ h. refl

started-IsWaiting :
    (plus_seconds : ℕ → Double → ℕ) (now later : ℕ) (t : Timer)
    → IsWaiting (get_and_start_timer plus_seconds now later t).1
unfolding get_and_start_timer reset_timer_on_time
started-IsWaiting plus_seconds now later t = λ h. ground (arith, h)

turn_on-IsWaiting :
    (plus_seconds : ℕ → Double → ℕ) (now : ℕ → ℕ) (on_time : Option Double) (s : Switch)
    → IsWaiting s.timer
    → IsWaiting (turn_on plus_seconds now on_time s).0.timer
unfolding turn_on
turn_on-IsWaiting plus_seconds now on_time s w =
    let s1 : Switch = record s { timer = set_timer on_time s.timer } in
    elim (Bool-cases (is_state_change true (now 0) s1)) [
      | inl changes ↦
          rw (turn_on, changes) (started-IsWaiting plus_seconds (now 1) (now 2) s1.timer)
      | inr stays ↦ rw (turn_on, stays) (set_timer-IsWaiting on_time s.timer w)
    ]

-- Whatever a switch is asked to do, a time of its timer that waits to be sent goes with an end that
-- is not set.
pub run-IsWaiting :
    (plus_seconds : ℕ → Double → ℕ) (ops : List Op) (s : Switch)
    → IsWaiting s.timer
    → IsWaiting (run plus_seconds ops s).timer
unfolding run turn_off reset_timer_on_time
run-IsWaiting plus_seconds [] s w = w
run-IsWaiting plus_seconds (op_on now on_time ∷ rest) s w =
    run-IsWaiting plus_seconds rest (turn_on plus_seconds now on_time s).0
      (turn_on-IsWaiting plus_seconds now on_time s w)
run-IsWaiting plus_seconds (op_off now ∷ rest) s w =
    run-IsWaiting plus_seconds rest (turn_off now s).0 (λ h. refl)

idle :
    (now : ℕ) (t : Timer) (x : Double)
    → init_datetime < now
    → IsWaiting t
    → t.timer_on_time ≡ some x
    → timer_on_time_running now t ≡ false
unfolding timer_on_time_running
idle now t x after w waits =
    let is_end : t.timer_on_time_end ≡ init_datetime = w (rw waits refl) in
    rw is_end (ground (arith, after))

-- After 1970, starting the timer returns the time that waits, as it was set: a time of 0 or less
-- never becomes the -1 that would end a timer that runs.
pub get_and_start_timer-waiting :
    (plus_seconds : ℕ → Double → ℕ) (now later : ℕ) (t : Timer)
    → init_datetime < now
    → IsWaiting t
    → (get_and_start_timer plus_seconds now later t).0 ≡ t.timer_on_time
unfolding get_and_start_timer
get_and_start_timer-waiting plus_seconds now later t after w = elim (Option-cases t.timer_on_time) [
  | inl none_waits ↦ rw none_waits refl
  | inr (x, waits) ↦ rw (waits, idle now t x after w waits) refl
]

changes_waiting :
    (on : Bool) (now : ℕ) (s : Switch) → has_timer s.timer ≡ true → is_state_change on now s ≡ true
unfolding is_state_change
changes_waiting on now s waits = ground (arith, waits)

started :
    (plus_seconds : ℕ → Double → ℕ) (now later : ℕ) (x : Double)
    → init_datetime < now
    → get_and_start_timer plus_seconds now later
        (record { timer_on_time = some x; timer_on_time_end = init_datetime })
      ≡ (some x, record { timer_on_time = none; timer_on_time_end = plus_seconds later x })
unfolding get_and_start_timer timer_on_time_running
started plus_seconds now later x after =
    let idle_now : leb now init_datetime ≡ false = ground (arith, after) in
    rw (get_and_start_timer, timer_on_time_running, idle_now) refl

-- After 1970, a switch that is turned on for a time sends this time and then the state, whatever its
-- state and its timer are; its timer then ends that time later, and no time waits.
pub turn_on-timed :
    (plus_seconds : ℕ → Double → ℕ) (now : ℕ → ℕ) (x : Double) (s : Switch)
    → init_datetime < now 1
    → let (s', sent) = turn_on plus_seconds now (some x) s in
      (sent ≡ send_on_time x ∷ (send_state true ∷ []))
      × (s'.timer ≡ record { timer_on_time = none; timer_on_time_end = plus_seconds (now 2) x })
unfolding turn_on set_timer_on_time
turn_on-timed plus_seconds now x s after =
    let s1 : Switch = record s { timer = set_timer (some x) s.timer } in
    let changes = changes_waiting true (now 0) s1 refl in
    let start = started plus_seconds (now 1) (now 2) x after in
    rw (turn_on, changes, start) (refl, refl)
