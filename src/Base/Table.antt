-- ===== src/Base/Table.antt =====
-- Claims about the numbers of a small range, checked one by one.
use Prim.Native.Nat.{ℕ, zero, suc, ◌<◌}
use mathlib.Core.Path.{◌≡◌}
use mathlib.Core.Bool.{Bool, true, false}
use hahomematic.Base.Tests.{if◌then◌else◌}
use native.Mathlib.Omega.{arith}

-- Whether a test passes for each number below a limit.
unfoldable pub holds_below : ℕ → (ℕ → Bool) → Bool
holds_below zero test = true
holds_below (suc limit) test =
    let rest = holds_below limit test in if test limit then rest else false

pub holds_below_lem :
    (limit : ℕ) (test : ℕ → Bool) (i : ℕ)
    → holds_below limit test ≡ true
    → i < limit
    → test i ≡ true
unfolding holds_below
holds_below_lem zero test i passed below = ground (arith, below)
holds_below_lem (suc limit) test i passed below =
    ground (arith, holds_below_lem limit test i, passed, below)
