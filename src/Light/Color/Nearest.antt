-- ===== src/Light/Color/Nearest.antt =====
-- The fixed colour that stands for a colour (hahomematic/model/custom/light.py).
use hahomematic.Base.Table.{holds_below, holds_below_lem}
use hahomematic.Base.{
  sym, ap, ◌∙◌, ◌||◌, ℕ, ◌+◌, ◌≤◌, ◌≡◌, refl, Bool, true, false, ◌&&◌, Option, none, some, ltb, leb,
  arith,
}
use hahomematic.Base.Double.{pos, Double, of_int, trunc}
use hahomematic.Light.Color.{
  FixedColor, black, blue, do_not_care, green, old_value, purple, red, turquoise, white, yellow,
  HsColor, color_of_hue, convert_color, fixed_color,
}

-- the hue of a fixed colour that has one, in degrees
abbrev pub hue_of : FixedColor → Option ℕ
hue_of red = some 0
hue_of yellow = some 60
hue_of green = some 120
hue_of turquoise = some 180
hue_of blue = some 240
hue_of purple = some 300
hue_of _ = none

-- whether a hue up to 360 is at most 30 degrees away from that of a fixed colour, on the circle
abbrev pub is_near : ℕ → ℕ → Bool
is_near n h = (leb n (h + 30) && leb h (n + 30)) || leb (h + 330) n

abbrev is_near_color : ℕ → FixedColor → Bool
is_near_color n c = elim (hue_of c) [ none ↦ false | some h ↦ is_near n h ]

near_table : holds_below 361 (λ n. is_near_color n (color_of_hue (pos n))) ≡ true
unfolding holds_below color_of_hue
near_table = refl

near_hue : (n : ℕ) → n ≤ 360 → is_near_color n (color_of_hue (pos n)) ≡ true
near_hue n small =
    holds_below_lem 361 (λ k. is_near_color k (color_of_hue (pos k))) n near_table
      (omega (arith, small))

-- a full colour that is near a hue
abbrev pub NearColor : ℕ → Option HsColor → Type 0
NearColor n c = (h : ℕ) × (c ≡ some (of_int (pos h), of_int (pos 100))) × (is_near n h ≡ true)

near_color : (n : ℕ) (c : FixedColor) → is_near_color n c ≡ true → NearColor n (fixed_color c)
unfolding fixed_color
near_color n red near = (0, refl, near)
near_color n yellow near = (60, refl, near)
near_color n green near = (120, refl, near)
near_color n turquoise near = (180, refl, near)
near_color n blue near = (240, refl, near)
near_color n purple near = (300, refl, near)
near_color n white near = cc (near)
near_color n black near = cc (near)
near_color n do_not_care near = cc (near)
near_color n old_value near = cc (near)

-- A colour with a hue up to 360 degrees and a saturation of at least 5 is converted to a fixed colour
-- that is shown with the saturation 100 and a hue at most 30 degrees away, where the parts after the
-- point do not count.
pub convert_color-near :
    (x y : Double) (n m : ℕ)
    → trunc x ≡ pos n
    → trunc y ≡ pos m
    → n ≤ 360
    → 5 ≤ m
    → NearColor n (fixed_color (convert_color (x, y)))
unfolding convert_color
convert_color-near x y n m hue saturation small strong =
    let colored : ltb m 5 ≡ false = ground (arith, strong) in
    rw (saturation, colored, hue) (near_color n (color_of_hue (pos n)) (near_hue n small))

same_some {ℓ} : {A : Type ℓ} (a b : A) → some a ≡ some b → a ≡ b
same_some a b h = cc

converted :
    (c : FixedColor) (known hs : HsColor)
    → convert_color known ≡ c
    → some known ≡ some hs
    → convert_color hs ≡ c
converted c known hs itself same = ap convert_color (sym (same_some known hs same)) ∙ itself

-- A fixed colour is converted to itself.
convert_color-fixed_color :
    (c : FixedColor) (hs : HsColor) → fixed_color c ≡ some hs → convert_color hs ≡ c
unfolding fixed_color convert_color of_int
convert_color-fixed_color white hs h = converted white (of_int (pos 0), of_int (pos 0)) hs refl h
convert_color-fixed_color red hs h = converted red (of_int (pos 0), of_int (pos 100)) hs refl h
convert_color-fixed_color yellow hs h =
    converted yellow (of_int (pos 60), of_int (pos 100)) hs refl h
convert_color-fixed_color green hs h =
    converted green (of_int (pos 120), of_int (pos 100)) hs refl h
convert_color-fixed_color turquoise hs h =
    converted turquoise (of_int (pos 180), of_int (pos 100)) hs refl h
convert_color-fixed_color blue hs h = converted blue (of_int (pos 240), of_int (pos 100)) hs refl h
convert_color-fixed_color purple hs h =
    converted purple (of_int (pos 300), of_int (pos 100)) hs refl h
convert_color-fixed_color black hs h = cc h
convert_color-fixed_color do_not_care hs h = cc h
convert_color-fixed_color old_value hs h = cc h
