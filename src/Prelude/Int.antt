-- ===== src/Prelude/Int.antt =====
-- Signed machine integers: the C types i8, i32 and i64 as integers, and their casts to unsigned.
use Prim.Native.Nat.{ℕ, ◌-◌, ◌*◌, ◌/◌, ◌%◌, ◌^◌, ◌<◌}
use mathlib.Core.Path.{◌≡◌}
use mathlib.Core.Bool.{Bool, true, false}
use native.Mathlib.Omega.{arith}
use native.Mathlib.Nat.{mod-eq_of_lt}
use o.Prelude.Tests.{ltb, leb, if◌then◌else◌}

-- `negsuc n` is -(n + 1).
pub data ℤ : Type 0 where
  pos : ℕ → ℤ
  negsuc : ℕ → ℤ

abbrev pub ◌≤ℤ?◌ : ℤ → ℤ → Bool
◌≤ℤ?◌ (pos a) (pos b) = leb a b
◌≤ℤ?◌ (pos a) (negsuc b) = false
◌≤ℤ?◌ (negsuc a) (pos b) = true
◌≤ℤ?◌ (negsuc a) (negsuc b) = leb b a

infix 50 ◌≤ℤ?◌
-- The cast to an unsigned type with `m` values.
unfoldable pub wrap : ℕ → ℤ → ℕ
wrap m (pos n) = n % m
wrap m (negsuc n) = m - 1 - n % m

-- The cast from an unsigned type with `m` values to the signed type of the same width.
unfoldable pub signed : ℕ → ℕ → ℤ
signed m w = if ltb w (m / 2) then pos w else negsuc (m - 1 - w)

-- The integers from -(h) to h - 1: the range of a signed type whose unsigned twin has 2 * h values.
abbrev pub FitsSigned : ℕ → ℤ → Type 0
FitsSigned h (pos n) = n < h
FitsSigned h (negsuc n) = n < h

pub signed-wrap : (h : ℕ) (v : ℤ) → FitsSigned h v → signed (2 * h) (wrap (2 * h) v) ≡ v
unfolding signed wrap
signed-wrap h (pos n) f = ground (arith, mod-eq_of_lt {n = n} {m = 2 * h} (omega arith))
signed-wrap h (negsuc n) f = ground (arith, mod-eq_of_lt {n = n} {m = 2 * h} (omega arith))

pub wrap32-lt : (v : ℤ) → wrap (2 ^ 32) v < 2 ^ 32
unfolding wrap
wrap32-lt (pos n) = omega arith
wrap32-lt (negsuc n) = omega arith
