-- ===== src/Light.antt =====
-- `CustomDpDimmer` of hahomematic/model/custom/light.py. The values of the data points that it reads
-- are the fields of its state; a method returns the values that it sends. An argument that is passed
-- is not None; a brightness is not negative. The colours and effects are those of the subclasses,
-- which are not here: how many of them are passed is a number.
pub mod Brightness
pub mod Color
use hahomematic.Base.{
  ℕ, ◌+◌, Bool, true, false, not, ◌&&◌, ◌||◌, Option, none, some, List, [], ◌∷◌, ◌++◌,
  if◌then◌else◌, ltb, eqb,
}
use hahomematic.Base.Double.{
  ℤ, pos, Double, div_int, mul_by, trunc, exact, double_eq, double_le, int_eq,
}
use hahomematic.Switch.{
  Timer, set_timer, reset_timer_on_time, timer_on_time_running, get_and_start_timer, has_timer,
}

pub record Dimmer : Type 0 where
  pub level : Option Double
  pub state_uncertain : Bool
  pub timer : Timer

-- The arguments of `turn_on`; the colours and the effect are counted.
pub record OnArgs : Type 0 where
  pub on_time : Option Double
  pub ramp_time : Option Double
  pub brightness : Option ℕ
  pub others : ℕ

pub data Command : Type 0 where
  send_on_time send_ramp_time send_level : Double → Command

-- `_DIMMER_OFF` and `_MIN_BRIGHTNESS`
unfoldable pub dimmer_off : Double
unfolding div_int
dimmer_off = div_int (pos 0) 1

abbrev or_off : Option Double → Double
or_off none = dimmer_off
or_off (some x) = x

unfoldable pub is_on : Dimmer → Bool
unfolding double_le dimmer_off
is_on d = elim d.level [ none ↦ false | some x ↦ not (double_le x dimmer_off) ]

unfoldable pub to_brightness : Double → ℤ
unfolding mul_by trunc
to_brightness x = trunc (mul_by x 255)

unfoldable pub brightness_of : Dimmer → ℤ
unfolding to_brightness dimmer_off
brightness_of d = to_brightness (or_off d.level)

abbrev pub given : Option Double → Bool
given none = false
given (some x) = true

abbrev pub other_brightness : Option ℕ → Dimmer → Bool
other_brightness none d = false
other_brightness (some b) d = not (int_eq (pos b) (brightness_of d))

abbrev pub alone : OnArgs → Bool
alone a = elim a.on_time [
  | some x ↦ false
  | none ↦ elim a.ramp_time [
    | some x ↦ false
    | none ↦ elim a.brightness [ some b ↦ false | none ↦ eqb a.others 0 ]
  ]
]

-- `is_state_change` for on
unfoldable pub is_on_change : OnArgs → ℕ → Dimmer → Bool
unfolding timer_on_time_running is_on brightness_of
is_on_change a now d =
    timer_on_time_running now d.timer
    || (has_timer d.timer
        || (given a.on_time
            || (given a.ramp_time
                || ((not (is_on d) && alone a)
                    || (other_brightness a.brightness d
                        || (ltb 0 a.others || d.state_uncertain))))))

-- `is_state_change` for off, with a time of the ramp that may be given
unfoldable pub is_off_change : Option Double → ℕ → Dimmer → Bool
unfolding timer_on_time_running is_on
is_off_change ramp_time now d =
    timer_on_time_running now d.timer
    || (has_timer d.timer || (given ramp_time || (is_on d || d.state_uncertain)))

-- A time of 0 is falsy.
abbrev pub ramp_commands : Option Double → List Command
ramp_commands none = []
ramp_commands (some x) = if double_eq x (exact (pos 0)) then [] else send_ramp_time x ∷ []

unfoldable pub level_of : ℤ → Double
unfolding div_int
level_of brightness = div_int brightness 255

abbrev pub or_full : ℤ → ℤ
or_full b = if int_eq b (pos 0) then pos 255 else b

-- The brightness that is passed, or the current one; 0 is falsy.
abbrev pub wanted_brightness : Option ℕ → Dimmer → ℤ
wanted_brightness (some b) d = or_full (pos b)
wanted_brightness none d = or_full (brightness_of d)

abbrev pub time_commands : Option Double → List Command
time_commands none = []
time_commands (some x) = send_on_time x ∷ []

-- `turn_on`, after the time that is passed was set
unfoldable pub turn_on_timed : (ℕ → Double → ℕ) → (ℕ → ℕ) → OnArgs → Dimmer → Dimmer × List Command
unfolding get_and_start_timer is_on_change level_of
turn_on_timed plus_seconds now a d =
    let (time, started) = get_and_start_timer plus_seconds (now 1) (now 2) d.timer in
    if is_on_change a (now 0) d
    then (
      record d { timer = started },
      time_commands time
          ++ (ramp_commands a.ramp_time
              ++ (send_level (level_of (wanted_brightness a.brightness d)) ∷ [])),
    )
    else (d, [])

unfoldable pub turn_on : (ℕ → Double → ℕ) → (ℕ → ℕ) → OnArgs → Dimmer → Dimmer × List Command
unfolding turn_on_timed
turn_on plus_seconds now a d =
    turn_on_timed plus_seconds now a (record d { timer = set_timer a.on_time d.timer })

unfoldable pub turn_off : ℕ → Option Double → Dimmer → Dimmer × List Command
unfolding reset_timer_on_time is_off_change dimmer_off
turn_off now ramp_time d =
    let d1 : Dimmer = record d { timer = reset_timer_on_time d.timer } in
    (
      d1,
      if is_off_change ramp_time now d1
          then ramp_commands ramp_time ++ (send_level dimmer_off ∷ [])
          else [],
    )

-- The device reports the level that it was sent.
unfoldable pub report : List Command → Dimmer → Dimmer
report [] d = d
report (send_level x ∷ rest) d = report rest (record d { level = some x })
report (_ ∷ rest) d = report rest d
