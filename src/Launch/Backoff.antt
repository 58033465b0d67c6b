-- ===== src/Launch/Backoff.antt =====
-- internal/launch/launch.go: the retry delays of `backoff`.
use ocihood.Base.{
  ℕ, zero, suc, ◌*◌, ◌/◌, ◌^◌, ◌≤◌, ◌<◌, min, ◌≡◌, arith, Bool-cases, inl, inr, pos, half, double,
  ltb,
}
use ocihood.Base.Doubling.{double-small, le-mul-pow, pow-step}
use ocihood.Launch.{backoff, backoff_from}

backoff_from-min :
    (n d m : ℕ)
    → 0 < d
    → d ≤ m
    → m < 2 ^ 63
    → backoff_from n (pos d) (pos m) ≡ pos (min (d * 2 ^ n) m)
unfolding backoff_from half
backoff_from-min zero d m p q r = ground arith
backoff_from-min (suc n) d m p q r = elim (Bool-cases (ltb d m)) [
  | inl less ↦ elim (Bool-cases (ltb (m / 2) d)) [
    | inl over ↦ ground (arith, pow-step d n, le-mul-pow (d * 2) n)
    | inr under ↦
        let fits : d * 2 ≤ m = ground arith in
        let rest : backoff_from n (double (pos d)) (pos m) ≡ pos (min (d * 2 * 2 ^ n) m) =
          rw (double-small d (omega arith)) (backoff_from-min n (d * 2) m (omega arith) fits r) in
        ground (arith, rest, pow-step d n)
  ]
  | inr equal ↦ ground (arith, le-mul-pow d (suc n))
]

-- For positive bounds that fit 64 bits, the delay of a retry is the minimum doubled once for each
-- earlier retry, up to the maximum; the doubling never wraps around.
pub backoff-min :
    (minimum maximum retry : ℕ)
    → 0 < minimum
    → minimum ≤ maximum
    → maximum < 2 ^ 63
    → backoff (pos minimum) (pos maximum) retry ≡ pos (min (minimum * 2 ^ retry) maximum)
unfolding backoff
backoff-min minimum maximum retry p q r = backoff_from-min retry minimum maximum p q r
