-- ===== src/Cover/Positions.antt =====
-- What the covers of hahomematic/model/custom/cover.py read after the device reported what they
-- sent.
use hahomematic.Base.{
  ℕ, zero, suc, ◌^◌, ◌≤◌, ◌-◌, ◌<◌, ◌≡◌, refl, ap, ◌∙◌, ◌⊎◌, inl, inr, Bool, true, false, some,
  List, [], ◌∷◌, arith, if◌then◌else◌, contains, nat_eq, Bool-cases,
}
use hahomematic.Base.Table.{holds_below, holds_below_lem}
use hahomematic.Base.Double.{pos, Double, int_eq, int_eq_sound, double_eq}
use hahomematic.Cover.{
  CoverClass, cover, window_drive, Cover, open_level, closed_level, to_position, read_wd_level,
  send_level, get_channel_level, position_of, current_position, is_closed, differs, to_position_of,
  is_state_change, level_of, wd_level, set_position, open_cover, close_cover, report, set_level,
}

-- the positions whose level, times 100, falls just below them
abbrev pub low_positions : List ℕ
low_positions = 29 ∷ 57 ∷ 58 ∷ []

unfoldable pub seen : ℕ → ℕ
unfolding contains
seen p = if contains p low_positions then p - 1 else p

is_seen : CoverClass → ℕ → Bool
is_seen cover p = int_eq (to_position (level_of (pos p))) (pos (seen p))
is_seen window_drive p =
    int_eq (to_position (read_wd_level (wd_level (level_of (pos p))))) (pos (seen p))

cover_table : holds_below 101 (is_seen cover) ≡ true
unfolding holds_below is_seen to_position level_of seen int_eq
cover_table = refl

window_drive_table : holds_below 101 (is_seen window_drive) ≡ true
unfolding holds_below is_seen to_position level_of seen int_eq read_wd_level wd_level
window_drive_table = refl

pub to_position-level_of : (p : ℕ) → p < 101 → to_position (level_of (pos p)) ≡ pos (seen p)
unfolding is_seen
to_position-level_of p h = int_eq_sound _ _ (holds_below_lem 101 (is_seen cover) p cover_table h)

wd_seen :
    (p : ℕ) → p < 101 → to_position (read_wd_level (wd_level (level_of (pos p)))) ≡ pos (seen p)
unfolding is_seen
wd_seen p h = int_eq_sound _ _ (holds_below_lem 101 (is_seen window_drive) p window_drive_table h)

abbrev Reads : ℕ → Cover → Type 0
Reads p c =
    (current_position c ≡ pos p)
    ⊎ ((contains p low_positions ≡ true) × (current_position c ≡ pos (p - 1)))

position-Reads : (p : ℕ) (c : Cover) → current_position c ≡ pos (seen p) → Reads p c
unfolding seen
position-Reads p c h = ground (arith, h)

sent_position :
    (p : ℕ) (c : Cover)
    → p < 101
    → current_position (report (set_level c.class (some (level_of (pos p)))) c) ≡ pos (seen p)
unfolding current_position position_of report set_level get_channel_level
sent_position p c h = ground (arith, to_position-level_of p h, wd_seen p h)

unchanged :
    (p : ℕ) (c : Cover)
    → is_state_change (to_position_of (some (pos p))) c ≡ false
    → current_position c ≡ pos p
unfolding is_state_change differs
unchanged p c h = let e = int_eq_sound (pos p) (current_position c) in ground (arith, e, h)

-- A cover or window drive that was set to a position from 0 to 100 and got the report of what it
-- sent, if anything, reads that position, or at 29, 57 and 58 possibly the position below.
pub set_position-reported :
    (p : ℕ) (c : Cover)
    → p < 101
    → let c' = report (set_position (some (pos p)) c) c in
      (current_position c' ≡ pos p)
      ⊎ ((contains p low_positions ≡ true) × (current_position c' ≡ pos (p - 1)))
unfolding set_position report
set_position-reported p c h =
    let sent = set_level c.class (some (level_of (pos p))) in
    elim (Bool-cases (is_state_change (to_position_of (some (pos p))) c)) [
      | inl e ↦
          position-Reads p _
            (ap (λ b. current_position (report (if b then sent else []) c)) e ∙ sent_position p c h)
      | inr e ↦
          inl (ap (λ b. current_position (report (if b then sent else []) c)) e ∙ unchanged p c e)
    ]

levels_differ :
    (class : CoverClass)
    → (double_eq open_level (closed_level class) ≡ false)
      × (double_eq open_level open_level ≡ true)
      × (double_eq (closed_level class) (closed_level class) ≡ true)
      × (set_level class (some open_level) ≡ send_level open_level ∷ [])
      × (set_level class (some (closed_level class)) ≡ send_level (closed_level class) ∷ [])
unfolding double_eq open_level closed_level set_level wd_level
levels_differ cover = (refl, refl, refl, refl, refl)
levels_differ window_drive = (refl, refl, refl, refl, refl)

power_positive : (n : ℕ) → 1 ≤ 2 ^ n
power_positive zero = ground arith
power_positive (suc n) = ground (arith, power_positive n)

-- No level is both open and closed.
not_both :
    (class : CoverClass) (x : Double)
    → double_eq x open_level ≡ true
    → double_eq x (closed_level class) ≡ false
unfolding double_eq open_level closed_level
not_both cover x h = ground (arith, power_positive x.shift, h)
not_both window_drive x h = ground (arith, power_positive x.shift, h)

-- After opening and the report of what was sent, a cover or window drive is not closed, and opening
-- it again sends nothing if its state is certain.
pub open_cover-reported :
    (c : Cover)
    → let c' = report (open_cover c) c in
      (is_closed c' ≡ false) × (c.state_uncertain ≡ false → open_cover c' ≡ [])
unfolding open_cover report is_state_change is_closed get_channel_level
open_cover-reported c =
    ground (arith, levels_differ c.class, not_both c.class (get_channel_level c))

-- After closing and the report of what was sent, a cover or window drive is closed, and closing it
-- again sends nothing if its state is certain.
pub close_cover-reported :
    (c : Cover)
    → let c' = report (close_cover c) c in
      (is_closed c' ≡ true) × (c.state_uncertain ≡ false → close_cover c' ≡ [])
unfolding close_cover report is_state_change is_closed get_channel_level
close_cover-reported c = ground (arith, levels_differ c.class)
