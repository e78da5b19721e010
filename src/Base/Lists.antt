-- ===== src/Base/Lists.antt =====
-- Lists measured by native numbers, and lists in the place of Python's sets.
use Prim.Native.Nat.{ℕ, suc, ◌≤◌}
use mathlib.Core.Path.{◌≡◌, refl}
use mathlib.Core.Bool.{Bool, true, false, ◌||◌, ◌&&◌, not}
use mathlib.Core.List.{List, [], ◌∷◌, ◌++◌, reverse, reverse-append}
use native.Mathlib.Omega.{arith}
use hahomematic.Base.Tests.{Eq, ◌==◌, if◌then◌else◌}

module _ {ℓ} {A : Type ℓ} where
  abbrev pub length : List A → ℕ
  length [] = 0
  length (x ∷ xs) = suc (length xs)

  -- The elements that pass a test, in their order.
  unfoldable pub keep : (A → Bool) → List A → List A
  keep p [] = []
  keep p (x ∷ xs) = let rest = keep p xs in if p x then x ∷ rest else rest

  unfoldable pub any : (A → Bool) → List A → Bool
  any p [] = false
  any p (x ∷ xs) = p x || any p xs

  unfoldable pub all : (A → Bool) → List A → Bool
  all p [] = true
  all p (x ∷ xs) = p x && all p xs

  pub length-keep : (p : A → Bool) (xs : List A) → length (keep p xs) ≤ length xs
  unfolding keep
  length-keep p [] = omega arith
  length-keep p (x ∷ xs) = ground (arith, length-keep p xs)

  pub keep-all : (p : A → Bool) (xs : List A) → all p xs ≡ true → keep p xs ≡ xs
  unfolding keep all
  keep-all p [] h = refl
  keep-all p (x ∷ xs) h = ground (arith, keep-all p xs)

module _ {ℓ} {A : Type ℓ} ⦃e : Eq A⦄ where
  -- `a in xs`
  unfoldable pub contains : A → List A → Bool
  contains a [] = false
  contains a (x ∷ xs) = x == a || contains a xs

  -- `s.add(a)`
  unfoldable pub add : A → List A → List A
  unfolding contains
  add a xs = if contains a xs then xs else xs ++ (a ∷ [])

  -- `s.remove(a)` of an element that is there
  unfoldable pub remove : A → List A → List A
  unfolding keep
  remove a = keep (λ x. not (x == a))

  pub contains-append :
      (a : A) (xs ys : List A) → contains a (xs ++ ys) ≡ (contains a xs || contains a ys)
  unfolding contains
  contains-append a [] ys = refl
  contains-append a (x ∷ xs) ys = ground (arith, contains-append a xs ys)

  pub contains-add : (a b : A) (xs : List A) → contains b (add a xs) ≡ (a == b || contains b xs)
  unfolding add
  contains-add a b xs = ground (arith, contains-append b xs (a ∷ []), e.test_iff a b)

  pub contains-keep :
      (p : A → Bool) (b : A) (xs : List A) → contains b (keep p xs) ≡ (p b && contains b xs)
  unfolding contains keep
  contains-keep p b [] = ground arith
  contains-keep p b (x ∷ xs) = ground (arith, contains-keep p b xs, e.test_iff x b)

  pub contains-remove :
      (a b : A) (xs : List A) → contains b (remove a xs) ≡ (not (b == a) && contains b xs)
  unfolding remove
  contains-remove a b xs = contains-keep _ b xs

module _ {ℓ} {A : Type ℓ} ⦃e : Eq A⦄ where
  -- A list that stands for a set: no element twice, so that `length` is the set's size.
  abbrev pub Distinct : List A → Type 0
  Distinct [] = Unit
  Distinct (x ∷ xs) = (contains x xs ≡ false) × Distinct xs

  pub keep-Distinct : (p : A → Bool) (xs : List A) → Distinct xs → Distinct (keep p xs)
  unfolding keep
  keep-Distinct p [] h = h
  keep-Distinct p (x ∷ xs) h = ground (arith, keep-Distinct p xs h.1, contains-keep p x xs)

  append-Distinct :
      (a : A) (xs : List A) → contains a xs ≡ false → Distinct xs → Distinct (xs ++ (a ∷ []))
  unfolding contains
  append-Distinct a [] n h = (refl, tt)
  append-Distinct a (x ∷ xs) n h =
      ground
        (arith, append-Distinct a xs, contains-append x xs (a ∷ []), e.test_iff a x, e.test_iff x a)

  pub add-Distinct : (a : A) (xs : List A) → Distinct xs → Distinct (add a xs)
  unfolding add
  add-Distinct a xs h = ground (arith, append-Distinct a xs)

  pub remove-Distinct : (a : A) (xs : List A) → Distinct xs → Distinct (remove a xs)
  unfolding remove
  remove-Distinct a xs h = keep-Distinct _ xs h

module _ {ℓ} {A : Type ℓ} where
  pub all-append : (p : A → Bool) (xs ys : List A) → all p (xs ++ ys) ≡ (all p xs && all p ys)
  unfolding all
  all-append p [] ys = refl
  all-append p (x ∷ xs) ys = ground (arith, all-append p xs ys)

  pub all-reverse : (p : A → Bool) (xs : List A) → all p xs ≡ true → all p (reverse xs) ≡ true
  unfolding all
  all-reverse p [] h = refl
  all-reverse p (x ∷ xs) h =
      rw (reverse-append (x ∷ []) xs)
        (ground (arith, all-append p (reverse xs) (x ∷ []), all-reverse p xs))
