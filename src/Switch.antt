-- ===== src/Switch.antt =====
-- `CustomDpSwitch` of hahomematic/model/custom/switch.py with `TimerMixin` of
-- hahomematic/model/support.py. A method takes the readings of the clock that it makes, in their
-- order; how Python adds seconds to a datetime is an argument. A method returns what it sends.
pub mod Timers
use hahomematic.Base.{
  ℕ, Bool, true, false, not, ◌&&◌, ◌||◌, Option, none, some, List, [], ◌∷◌, ◌++◌, if◌then◌else◌,
  leb,
}
use hahomematic.Base.Double.{pos, negsuc, Double, of_int, exact, double_le}
use hahomematic.Clock.{init_datetime}

-- `TimerMixin`
pub record Timer : Type 0 where
  pub timer_on_time : Option Double
  pub timer_on_time_end : ℕ

unfoldable pub new : Timer
new = record { timer_on_time = none; timer_on_time_end = init_datetime }

unfoldable pub set_timer_on_time : Double → Timer → Timer
set_timer_on_time on_time t = record {
  timer_on_time = some on_time;
  timer_on_time_end = init_datetime;
}

unfoldable pub reset_timer_on_time : Timer → Timer
reset_timer_on_time t = record { timer_on_time = none; timer_on_time_end = init_datetime }

unfoldable pub timer_on_time_running : ℕ → Timer → Bool
timer_on_time_running now t = leb now t.timer_on_time_end

unfoldable pub minus_one : Double
unfolding of_int
minus_one = of_int (negsuc 0)

-- `get_and_start_timer`
unfoldable pub get_and_start_timer : (ℕ → Double → ℕ) → ℕ → ℕ → Timer → Option Double × Timer
unfolding timer_on_time_running reset_timer_on_time minus_one
get_and_start_timer plus_seconds now later t = elim t.timer_on_time [
  | none ↦ (none, reset_timer_on_time t)
  | some on_time ↦
      if timer_on_time_running now t && double_le on_time (exact (pos 0))
      then (some minus_one, reset_timer_on_time t)
      else (
        some on_time,
        record { timer_on_time = none; timer_on_time_end = plus_seconds later on_time },
      )
]

-- The values of the data points that a switch reads, and its timer.
pub record Switch : Type 0 where
  pub value : Option Bool
  pub state_uncertain : Bool
  pub timer : Timer

-- What goes to the time and to the state.
pub data Command : Type 0 where
  send_on_time : Double → Command
  send_state : Bool → Command

abbrev pub is_value : Bool → Option Bool → Bool
is_value b none = false
is_value true (some v) = v
is_value false (some v) = not v

abbrev pub has_timer : Timer → Bool
has_timer t = elim t.timer_on_time [ none ↦ false | some x ↦ true ]

-- `is_state_change` for on or off
unfoldable pub is_state_change : Bool → ℕ → Switch → Bool
is_state_change on now s =
    timer_on_time_running now s.timer
    || (has_timer s.timer || (not (is_value on s.value) || s.state_uncertain))

abbrev pub set_timer : Option Double → Timer → Timer
set_timer none t = t
set_timer (some on_time) t = set_timer_on_time on_time t

unfoldable pub turn_on : (ℕ → Double → ℕ) → (ℕ → ℕ) → Option Double → Switch → Switch × List Command
unfolding set_timer_on_time is_state_change get_and_start_timer
turn_on plus_seconds now on_time s =
    let s1 : Switch = record s { timer = set_timer on_time s.timer } in
    let (time, started) = get_and_start_timer plus_seconds (now 1) (now 2) s1.timer in
    if is_state_change true (now 0) s1
    then (
      record s1 { timer = started },
      (elim time [ none ↦ [] | some x ↦ send_on_time x ∷ [] ]) ++ (send_state true ∷ []),
    )
    else (s1, [])

unfoldable pub turn_off : ℕ → Switch → Switch × List Command
unfolding reset_timer_on_time is_state_change
turn_off now s =
    let s1 : Switch = record s { timer = reset_timer_on_time s.timer } in
    (s1, (if is_state_change false now s1 then send_state false ∷ [] else []))

-- The calls of a switch, with their readings of the clock.
pub data Op : Type 0 where
  op_on : (ℕ → ℕ) → Option Double → Op
  op_off : ℕ → Op

unfoldable pub run : (ℕ → Double → ℕ) → List Op → Switch → Switch
unfolding turn_on turn_off
run plus_seconds [] s = s
run plus_seconds (op_on now on_time ∷ rest) s =
    run plus_seconds rest (turn_on plus_seconds now on_time s).0
run plus_seconds (op_off now ∷ rest) s = run plus_seconds rest (turn_off now s).0
