-- ===== src/Base/Sorted.antt =====
-- Python's `sorted` on the entries of a dict whose keys are numbers: it is stable.
use Prim.Native.Nat.{ℕ, ◌≤◌}
use mathlib.Core.Path.{◌≡◌, refl, ◌∙◌}
use mathlib.Core.Bool.{Bool, true, ◌&&◌}
use mathlib.Core.Option.{some}
use mathlib.Core.List.{[], ◌∷◌}
use native.Mathlib.Omega.{arith}
use hahomematic.Base.Tests.{◌==◌, nat_eq, ltb, leb, eqb_iff, if◌then◌else◌}
use hahomematic.Base.Lists.{all}
use hahomematic.Base.Dict.{Dict, lookup}

module _ {ℓ} {A : Type ℓ} where
  unfoldable pub place : ℕ → A → Dict ℕ A → Dict ℕ A
  place m x [] = (m, x) ∷ []
  place m x ((n, y) ∷ rest) =
      let after = place m x rest in if ltb n m then (n, y) ∷ after else (m, x) ∷ (n, y) ∷ rest

  unfoldable pub sorted : Dict ℕ A → Dict ℕ A
  unfolding place
  sorted [] = []
  sorted ((m, x) ∷ rest) = place m x (sorted rest)

  lookup-place :
      (n m : ℕ) (x : A) (d : Dict ℕ A)
      → lookup n (place m x d) ≡ (if m == n then some x else lookup n d)
  unfolding place lookup
  lookup-place n m x [] = refl
  lookup-place n m x ((l, y) ∷ rest) = ground (arith, lookup-place n m x rest)

  pub lookup-sorted : (n : ℕ) (d : Dict ℕ A) → lookup n (sorted d) ≡ lookup n d
  unfolding sorted lookup
  lookup-sorted n [] = refl
  lookup-sorted n ((m, x) ∷ rest) =
      lookup-place n m x (sorted rest) ∙ (rw (lookup-sorted n rest) refl)

  -- every key of `d` is at least `m`
  abbrev pub at_least : ℕ → Dict ℕ A → Bool
  at_least m d = all (λ e. leb m e.0) d

  abbrev pub ascending : Dict ℕ A → Bool
  ascending [] = true
  ascending ((m, x) ∷ rest) = at_least m rest && ascending rest

  at_least-place :
      (l m : ℕ) (x : A) (d : Dict ℕ A) → at_least l (place m x d) ≡ (leb l m && at_least l d)
  unfolding place all
  at_least-place l m x [] = refl
  at_least-place l m x ((n, y) ∷ rest) = ground (arith, at_least-place l m x rest)

  at_least_lower : (l m : ℕ) (d : Dict ℕ A) → l ≤ m → at_least m d ≡ true → at_least l d ≡ true
  unfolding all
  at_least_lower l m [] le h = refl
  at_least_lower l m ((n, y) ∷ rest) le h = ground (arith, le, h, at_least_lower l m rest le)

  ascending-place :
      (m : ℕ) (x : A) (d : Dict ℕ A) → ascending d ≡ true → ascending (place m x d) ≡ true
  unfolding place all
  ascending-place m x [] h = refl
  ascending-place m x ((n, y) ∷ rest) h =
      ground
        (arith, h, ascending-place m x rest, at_least-place n m x rest, at_least_lower m n rest)

  pub ascending-sorted : (d : Dict ℕ A) → ascending (sorted d) ≡ true
  unfolding sorted
  ascending-sorted [] = refl
  ascending-sorted ((m, x) ∷ rest) = ascending-place m x (sorted rest) (ascending-sorted rest)

  pub at_least_found :
      (l m : ℕ) (x : A) (d : Dict ℕ A) → at_least l d ≡ true → lookup m d ≡ some x → l ≤ m
  unfolding all lookup
  at_least_found l m x [] h found = ground (arith, found)
  at_least_found l m x ((k, y) ∷ d) h found =
      ground (arith, h, found, at_least_found l m x d, eqb_iff k m)
