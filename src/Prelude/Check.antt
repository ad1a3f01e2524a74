-- ===== src/Prelude/Check.antt =====
-- Checks of a finite range by evaluation.
use Prim.Native.Nat.{ℕ, zero, suc, ◌<◌}
use mathlib.Core.Path.{◌≡◌}
use mathlib.Core.Bool.{Bool, true, ◌&&◌}
use native.Mathlib.Omega.{arith}

unfoldable pub holds_below : ℕ → (ℕ → Bool) → Bool
holds_below zero test = true
holds_below (suc last) test = holds_below last test && test last

-- A test that holds below a limit holds at each number below it.
pub holds_below_at :
    (limit : ℕ) (test : ℕ → Bool) (i : ℕ)
    → holds_below limit test ≡ true
    → i < limit
    → test i ≡ true
unfolding holds_below
holds_below_at zero test i passed below = absurd (omega arith)
holds_below_at (suc last) test i passed below = ground (arith, holds_below_at last test i)
