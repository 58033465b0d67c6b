-- ===== src/Capacity/Backoff.antt =====
-- internal/capacity/capacity.go: the delays of `backoff`.
use ocihood.Base.{
  ℕ, zero, suc, ◌*◌, ◌/◌, ◌^◌, ◌≤◌, ◌<◌, min, ◌≡◌, refl, arith, Bool-cases, inl, inr, ℤ, pos, half,
  double, ltb, ◌≤ℤ◌,
}
use ocihood.Base.Doubling.{double-small, le-mul-pow, pow-step}
use ocihood.Capacity.{Float64, Config, grow, backoff}

grow_max : (n m : ℕ) → grow n (pos m) (pos m) ≡ pos m
unfolding grow
grow_max zero m = refl
grow_max (suc n) m = ground arith

-- Before the jitter, a positive interval that fits 64 bits is doubled once for each retry after the
-- first, up to the maximum, and never wraps around.
pub grow-min :
    (n d m : ℕ) → 0 < d → d ≤ m → m < 2 ^ 63 → grow n (pos d) (pos m) ≡ pos (min (d * 2 ^ n) m)
unfolding grow half
grow-min zero d m p q r = ground arith
grow-min (suc n) d m p q r = elim (Bool-cases (ltb d m)) [
  | inl less ↦ elim (Bool-cases (ltb (m / 2) d)) [
    | inl over ↦ ground (arith, pow-step d n, le-mul-pow (d * 2) n, grow_max n m)
    | inr under ↦
        let fits : d * 2 ≤ m = ground arith in
        let rest : grow n (double (pos d)) (pos m) ≡ pos (min (d * 2 * 2 ^ n) m) =
          rw (double-small d (omega arith)) (grow-min n (d * 2) m (omega arith) fits r) in
        ground (arith, rest, pow-step d n)
  ]
  | inr equal ↦ ground (arith, le-mul-pow d (suc n))
]

-- Whatever the random number, and however the floating-point operations round, the jittered delay
-- does not exceed the maximum.
pub backoff-le :
    (float : Float64) (c : Config float) (retry : ℤ) (random : float.F)
    → backoff float c retry random ≤ℤ c.max_interval
unfolding backoff
backoff-le float c retry random = ground arith
