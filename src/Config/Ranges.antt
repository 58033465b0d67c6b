-- ===== src/Config/Ranges.antt =====
-- internal/config/config.go: the ranges that `validateSettings` checks, and `apply`.
use ocihood.Base.{
  ◌*◌, String, Bool, true, false, ◌≡◌, refl, Option, none, some, List, [], ◌∷◌, arith, str_eq, ℤ,
  pos, lt_int, le_int, or_else, value_or, All,
}
use ocihood.Errors.{Err}
use ocihood.Time.{second, hour}
use ocihood.Config.{Settings, Effective, apply}
use ocihood.Config.Validate.{
  first_failed, beyond, not_positive, empty_text, breaker_checks, value_checks, limit_checks,
  allowed_fault, validate_settings,
}

abbrev pub In : ℤ → ℤ → ℤ → Type 0
In lo hi v = (lt_int v lo ≡ false) × (lt_int hi v ≡ false)

abbrev pub IsPositive : ℤ → Type 0
IsPositive v = le_int v (pos 0) ≡ false

abbrev pub IsNonempty : String → Type 0
IsNonempty t = str_eq t "" ≡ false

-- The ranges that the circuit breaker, the watcher and the orchestrator rely on.
abbrev pub InRange : Effective → Type 0
InRange e =
    In (pos 1) (pos 100) e.breaker.failures
    × In (pos 1) (pos 10) e.breaker.half_open_requests
    × In (pos second) (pos (24 * hour)) e.breaker.interval
    × In (pos second) (pos hour) e.breaker.open_timeout
    × IsPositive e.request_timeout
    × IsPositive e.retry_min
    × IsPositive e.retry_max
    × IsPositive e.ocpus
    × IsPositive e.memory_gb
    × IsPositive e.boot_volume_gb
    × IsNonempty e.shape
    × IsNonempty e.state_dir
    × IsNonempty e.log_dir
    × IsPositive e.policy.max_ocpus
    × IsPositive e.policy.max_memory_gb
    × IsPositive e.policy.max_boot_gb

In-applied :
    (lo hi v : ℤ) (o : Option ℤ) → beyond lo hi o ≡ false → In lo hi v → In lo hi (value_or v o)
In-applied lo hi v none h k = k
In-applied lo hi v (some w) h k = (ground arith, ground arith)

IsPositive-applied :
    (v : ℤ) (o : Option ℤ) → not_positive o ≡ false → IsPositive v → IsPositive (value_or v o)
IsPositive-applied v none h k = k
IsPositive-applied v (some w) h k = h

IsNonempty-applied :
    (t : String) (o : Option String)
    → empty_text o ≡ false
    → IsNonempty t
    → IsNonempty (value_or t o)
IsNonempty-applied t none h k = k
IsNonempty-applied t (some u) h k = h

first_failed-none : (cs : List (Bool × String)) → first_failed cs ≡ none → All (λ c. c.0 ≡ false) cs
first_failed-none [] h = tt
first_failed-none ((true, t) ∷ cs) h = absurd (cc)
first_failed-none ((false, t) ∷ cs) h = (refl, first_failed-none cs h)

pub or_else-none : (a b : Option Err) → or_else a b ≡ none → (a ≡ none) × (b ≡ none)
or_else-none none b h = (refl, h)
or_else-none (some e) b h = absurd (cc)

settings_checked :
    (scope : String) (s : Settings)
    → validate_settings scope s ≡ none
    → All (λ c. c.0 ≡ false) (breaker_checks scope s)
      × All (λ c. c.0 ≡ false) (value_checks scope s)
      × All (λ c. c.0 ≡ false) (limit_checks scope s)
unfolding validate_settings
settings_checked scope s h =
    let (a, rest) = or_else-none (first_failed (breaker_checks scope s)) _ h in
    let (b, rest2) = or_else-none (first_failed (value_checks scope s)) _ rest in
    let (_, c) = or_else-none (allowed_fault scope s.policy.allowed_shapes) _ rest2 in
    (
      first_failed-none (breaker_checks scope s) a,
      first_failed-none (value_checks scope s) b,
      first_failed-none (limit_checks scope s) c,
    )

pub apply-InRange :
    (scope : String) (s : Settings) (e : Effective)
    → validate_settings scope s ≡ none
    → InRange e
    → InRange (apply s e)
unfolding apply
apply-InRange scope s e h k =
    let ((c1, (c2, (c3, (c4, _)))), values, (c14, (c15, (c16, _)))) = settings_checked scope s h in
    let (_, (_, (c5, (c6, (c7, (c8, (c9, (c10, (c11, (c12, (c13, _))))))))))) = values in
    let (k1, k2, k3, k4, k5, k6, k7, k8, k9, k10, k11, k12, k13, k14, k15, k16) = k in
    (
      In-applied (pos 1) (pos 100) e.breaker.failures s.breaker.failures c1 k1,
      In-applied (pos 1) (pos 10) e.breaker.half_open_requests s.breaker.half_open_requests c2 k2,
      In-applied (pos second) (pos (24 * hour)) e.breaker.interval s.breaker.interval c3 k3,
      In-applied (pos second) (pos hour) e.breaker.open_timeout s.breaker.open_timeout c4 k4,
      IsPositive-applied e.request_timeout s.request_timeout c5 k5,
      IsPositive-applied e.retry_min s.retry_min c6 k6,
      IsPositive-applied e.retry_max s.retry_max c7 k7,
      IsPositive-applied e.ocpus s.ocpus c8 k8,
      IsPositive-applied e.memory_gb s.memory_gb c9 k9,
      IsPositive-applied e.boot_volume_gb s.boot_volume_gb c10 k10,
      IsNonempty-applied e.shape s.shape c11 k11,
      IsNonempty-applied e.state_dir s.state_dir c12 k12,
      IsNonempty-applied e.log_dir s.log_dir c13 k13,
      IsPositive-applied e.policy.max_ocpus s.policy.max_ocpus c14 k14,
      IsPositive-applied e.policy.max_memory_gb s.policy.max_memory_gb c15 k15,
      IsPositive-applied e.policy.max_boot_gb s.policy.max_boot_gb c16 k16,
    )
