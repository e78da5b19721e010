-- ===== src/Light/Brightness.antt =====
-- The brightness of a dimmer (hahomematic/model/custom/light.py) after the device reported what it
-- was sent.
use hahomematic.Base.{
  ℕ, ◌<◌, ◌≡◌, refl, ap, sym, ◌∙◌, Bool, true, false, not, ◌&&◌, ◌||◌, Option, some, List, [], ◌∷◌,
  ◌++◌, ltb, eqb, arith, Bool-cases, inl, inr,
}
use hahomematic.Base.Table.{holds_below, holds_below_lem}
use hahomematic.Base.Double.{pos, Double, int_eq, int_eq_sound}
use hahomematic.Switch.{timer_on_time_running, has_timer, get_and_start_timer, set_timer}
use hahomematic.Light.{
  Dimmer, OnArgs, Command, send_level, send_ramp_time, send_on_time, to_brightness, brightness_of,
  level_of, other_brightness, wanted_brightness, time_commands, ramp_commands, is_on, is_on_change,
  turn_on, turn_on_timed, report, given, alone,
}

is_read : ℕ → Bool
is_read b = int_eq (to_brightness (level_of (pos b))) (pos b)

brightness_table : holds_below 256 is_read ≡ true
unfolding holds_below is_read to_brightness level_of int_eq
brightness_table = refl

-- Every brightness up to 255 is read back exactly from the level that stands for it.
pub to_brightness-level_of : (b : ℕ) → b < 256 → to_brightness (level_of (pos b)) ≡ pos b
unfolding is_read
to_brightness-level_of b h = int_eq_sound _ _ (holds_below_lem 256 is_read b brightness_table h)

level_sent :
    (xs : List Command) (x : Double) (d : Dimmer)
    → brightness_of (report (xs ++ (send_level x ∷ [])) d) ≡ to_brightness x
unfolding report brightness_of
level_sent [] x d = refl
level_sent (send_level y ∷ xs) x d = level_sent xs x (record d { level = some y })
level_sent (send_on_time y ∷ xs) x d = level_sent xs x d
level_sent (send_ramp_time y ∷ xs) x d = level_sent xs x d

level_sent_after :
    (xs ys : List Command) (x : Double) (d : Dimmer)
    → brightness_of (report (xs ++ (ys ++ (send_level x ∷ []))) d) ≡ to_brightness x
unfolding report
level_sent_after [] ys x d = level_sent ys x d
level_sent_after (send_level y ∷ xs) ys x d = level_sent_after xs ys x (record d { level = some y })
level_sent_after (send_on_time y ∷ xs) ys x d = level_sent_after xs ys x d
level_sent_after (send_ramp_time y ∷ xs) ys x d = level_sent_after xs ys x d

other_of : (b : Bool) → not b ≡ false → b ≡ true
other_of b h = ground (arith, h)

sixth : (a b c d e f g : Bool) → (a || (b || (c || (d || (e || (f || g)))))) ≡ false → f ≡ false
sixth a b c d e f g h = ground (arith, h)

module _ (plus_seconds : ℕ → Double → ℕ) (now : ℕ → ℕ) (a : OnArgs) (d : Dimmer) where
  on_changes :
      is_on_change a (now 0) d ≡ true
      → let (time, started) = get_and_start_timer plus_seconds (now 1) (now 2) d.timer in
        turn_on_timed plus_seconds now a d ≡ (
          record d { timer = started },
          time_commands time
              ++ (ramp_commands a.ramp_time
                  ++ (send_level (level_of (wanted_brightness a.brightness d)) ∷ [])),
        )
  unfolding turn_on_timed
  on_changes changes = simp (turn_on_timed, changes)

  on_stays : is_on_change a (now 0) d ≡ false → turn_on_timed plus_seconds now a d ≡ (d, [])
  unfolding turn_on_timed
  on_stays stays = simp (turn_on_timed, stays)

same_brightness :
    (a : OnArgs) (now b : ℕ) (d : Dimmer)
    → a.brightness ≡ some b
    → is_on_change a now d ≡ false
    → brightness_of d ≡ pos b
unfolding is_on_change
same_brightness a now b d asked stays =
    let same : other_brightness a.brightness d ≡ false =
      sixth (timer_on_time_running now d.timer) (has_timer d.timer) (given a.on_time)
        (given a.ramp_time) (not (is_on d) && alone a) (other_brightness a.brightness d)
        (ltb 0 a.others || d.state_uncertain) stays in
    let equal : not (int_eq (pos b) (brightness_of d)) ≡ false =
      ap (λ o. other_brightness o d) (sym asked) ∙ same in
    sym (int_eq_sound (pos b) (brightness_of d) (other_of (int_eq (pos b) (brightness_of d)) equal))

full_brightness :
    (b : ℕ) (o : Option ℕ) (d : Dimmer) → o ≡ some b → 0 < b → wanted_brightness o d ≡ pos b
unfolding int_eq
full_brightness b o d asked positive =
    let some_light : eqb b 0 ≡ false = ground (arith, positive) in
    ap (λ x. wanted_brightness x d) asked ∙ rw some_light refl

-- A dimmer that is turned on with a brightness from 1 to 255 reads exactly this brightness after the
-- report of what it sent, whatever its state, its timer and the other arguments are, also if it
-- sends nothing.
pub turn_on-brightness :
    (plus_seconds : ℕ → Double → ℕ) (now : ℕ → ℕ) (a : OnArgs) (b : ℕ) (d : Dimmer)
    → a.brightness ≡ some b
    → 0 < b
    → b < 256
    → let (d', sent) = turn_on plus_seconds now a d in brightness_of (report sent d') ≡ pos b
unfolding turn_on
turn_on-brightness plus_seconds now a b d asked positive small =
    let d1 : Dimmer = record d { timer = set_timer a.on_time d.timer } in
    let wanted = wanted_brightness a.brightness d1 in
    let read = λ (r : Dimmer × List Command). brightness_of (report r.1 r.0) in
    elim (Bool-cases (is_on_change a (now 0) d1)) [
      | inl changes ↦
          ap read (on_changes plus_seconds now a d1 changes)
          ∙ level_sent_after _ (ramp_commands a.ramp_time) (level_of wanted) _
          ∙ ap (λ w. to_brightness (level_of w)) (full_brightness b a.brightness d1 asked positive)
          ∙ to_brightness-level_of b small
      | inr stays ↦
          ap read (on_stays plus_seconds now a d1 stays)
          ∙ (unfold report in same_brightness a (now 0) b d1 asked stays)
    ]
