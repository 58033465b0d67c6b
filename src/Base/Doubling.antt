-- ===== src/Base/Doubling.antt =====
-- Doubling a duration, and powers of two.
use Prim.Native.Nat.{ℕ, zero, suc, ◌*◌, ◌^◌, ◌≤◌, ◌<◌}
use mathlib.Core.Path.{◌≡◌, ap}
use native.Mathlib.Nat.{pow-suc, mul_assoc, mul_comm}
use native.Mathlib.Omega.{arith}
use ocihood.Base.Int.{pos, double, wrap-small}

pow-pos : (n : ℕ) → 1 ≤ 2 ^ n
pow-pos zero = omega arith
pow-pos (suc n) = omega (arith, pow-pos n, pow-suc 2 n)

pub double-small : (d : ℕ) → d * 2 < 2 ^ 63 → double (pos d) ≡ pos (d * 2)
unfolding double
double-small d h = wrap-small (d * 2) h

pub le-mul-pow : (d n : ℕ) → d ≤ d * 2 ^ n
le-mul-pow d n = let h : 1 ≤ 2 ^ n = pow-pos n in grind arith

pub pow-step : (d n : ℕ) → d * 2 ^ suc n ≡ d * 2 * 2 ^ n
pow-step d n = simp (pow-suc, mul_assoc) (ap (λ (t : ℕ). d * t) (mul_comm (2 ^ n) 2))
