-- ===== src/Visibility/Parts.antt =====
-- Texts that are joined by one sign and taken apart again, as the lines of the un-ignore file are
-- (hahomematic/caches/visibility.py).
use mathlib.Core.List.{reverse, reverse-append}
use hahomematic.Base.{
  ℕ, ◌≡◌, ◌≢◌, refl, ap, ◌∙◌, true, false, ◌||◌, [], ◌∷◌, ◌++◌, arith, list_eq, nat_eq, eqb_iff,
}
use hahomematic.Base.Text.{
  Text, strip, split, has_char, split_none, split_cons, is_space, strip_left,
}
use hahomematic.Const.{paramset_key_eq}
use hahomematic.Visibility.{channel_no_eq}

has_char-append : (x : ℕ) (s t : Text) → has_char x (s ++ t) ≡ (has_char x s || has_char x t)
unfolding has_char
has_char-append x [] t = refl
has_char-append x (y ∷ s) t = ground (arith, has_char-append x s t)

pub two_parts :
    (x : ℕ) (s t : Text)
    → has_char x s ≡ false
    → has_char x t ≡ false
    → split x (s ++ x ∷ t) ≡ s ∷ t ∷ []
two_parts x s t hs ht = split_cons x s t hs ∙ ap (λ parts. s ∷ parts) (split_none x t ht)

pub joined_plain :
    (x y : ℕ) (s t : Text)
    → has_char x s ≡ false
    → has_char x (y ∷ t) ≡ false
    → has_char x (s ++ y ∷ t) ≡ false
joined_plain x y s t hs ht = ground (arith, has_char-append x s (y ∷ t), hs, ht)

pub plain_cons : (t : Text) → has_char b'@' t ≡ false → has_char b'@' (b':' ∷ t) ≡ false
unfolding has_char
plain_cons t h = ground (arith, h)

has_char-strip_left :
    (x : ℕ) (s : Text) → is_space x ≡ false → has_char x (strip_left s) ≡ has_char x s
unfolding has_char strip_left
has_char-strip_left x [] h = refl
has_char-strip_left x (y ∷ s) h = ground (arith, has_char-strip_left x s h, eqb_iff y x, h)

has_char-reverse : (x : ℕ) (s : Text) → has_char x (reverse s) ≡ has_char x s
unfolding has_char
has_char-reverse x [] = refl
has_char-reverse x (y ∷ s) =
    rw (reverse-append (y ∷ []) s)
      (ground (arith, has_char-append x (reverse s) (y ∷ []), has_char-reverse x s))

nothing_there : (x : ℕ) (s : Text) → has_char x s ≡ true → s ≢ []
unfolding has_char
nothing_there x [] h e = ground (arith, h)
nothing_there x (y ∷ s) h e = cc (e)

pub strip-has_char : (x : ℕ) (s : Text) → is_space x ≡ false → has_char x s ≡ true → strip s ≢ []
unfolding strip is_space
strip-has_char x s h there empty =
    let left = strip_left s in
    let inner : has_char x (strip s) ≡ true =
      has_char-reverse x (strip_left (reverse left))
      ∙ has_char-strip_left x (reverse left) h
      ∙ has_char-reverse x left
      ∙ has_char-strip_left x s h
      ∙ there in
    nothing_there x (strip s) inner empty
