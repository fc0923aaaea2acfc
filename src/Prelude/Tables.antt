-- ===== src/Prelude/Tables.antt =====
-- Facts about small numbers that are checked by evaluation, one value at a time.
use Prim.Native.Nat.{ℕ, zero, suc, ◌<◌}
use mathlib.Core.Path.{◌≡◌}
use mathlib.Core.Bool.{Bool, true, ◌&&◌}
use native.Mathlib.Omega.{arith}

-- The test holds of every number below the bound.
unfoldable pub holds_below : (ℕ → Bool) → ℕ → Bool
holds_below p zero = true
holds_below p (suc n) = holds_below p n && p n

pub holds_below-lookup : (p : ℕ → Bool) (n x : ℕ) → holds_below p n ≡ true → x < n → p x ≡ true
unfolding holds_below
holds_below-lookup p zero x h lt = absurd (omega arith)
holds_below-lookup p (suc n) x h lt = ground (arith, holds_below-lookup p n x)
