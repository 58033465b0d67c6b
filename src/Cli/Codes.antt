-- ===== src/Cli/Codes.antt =====
-- internal/cli/cli.go: the exit codes of `commandResult`.
use ocihood.Base.{
  String, Bool, true, false, ◌≡◌, ◌≢◌, ◌↔◌, ◌⊎◌, refl, Option, none, some, arith, Bool-cases, inl,
  inr,
}
use ocihood.Errors.{
  Err, app_error, is, deadline_exceeded, context_canceled, as_discovery, as_capacity, as_launch,
  discovery_error, message,
}
use ocihood.Errors.Kinds.{
  DiscoveryKind, invalid, not_found, CapacityKind, unavailable, throttled, LaunchKind,
  out_of_capacity,
}
use ocihood.App.Run.{RunResult}
use ocihood.Discovery.{Input}
use ocihood.Discovery.Discover.{validate}
use ocihood.Cli.Outcome.{command_result, is_retryable, is_retryable_probe, is_retryable_launch}

-- How a run without an error exits: 3 where no capacity was found, else 0.
pub command_result_succeeded :
    (account : String) (r : RunResult)
    → (((command_result account r none).1 ≡ 3) ↔ (r.capacity ≡ unavailable))
      × (((command_result account r none).1 ≡ 0) ↔ (r.capacity ≢ unavailable))
unfolding command_result
command_result_succeeded account r = ground arith

-- Of a discovery error, whether it is one of an invalid input.
abbrev pub is_invalid : Option (DiscoveryKind × Err) → Bool
is_invalid (some (invalid, _)) = true
is_invalid _ = false

-- A discovery that found nothing, or found too many.
abbrev pub is_unresolved : Option (DiscoveryKind × Err) → Bool
is_unresolved (some (not_found, _)) = true
is_unresolved (some (DiscoveryKind.ambiguous, _)) = true
is_unresolved _ = false

-- Of a probe: transient, or refused for a while.
abbrev pub IsRetryableProbe : Option (CapacityKind × Err) → Type 0
IsRetryableProbe o =
    (f : Err) × ((o ≡ some (CapacityKind.transient, f)) ⊎ (o ≡ some (throttled, f)))

-- Of a launch: transient, of an unknown outcome, or out of capacity.
abbrev pub IsRetryableLaunch : Option (LaunchKind × Err) → Type 0
IsRetryableLaunch o =
    (f : Err) × ((o ≡ some (LaunchKind.transient, f))
      ⊎ (o ≡ some (LaunchKind.ambiguous, f))
      ⊎ (o ≡ some (out_of_capacity, f)))

-- A failure of a probe or a launch after which a later run may succeed.
abbrev pub IsRetryable : Err → Type 0
IsRetryable e = IsRetryableProbe (as_capacity e) ⊎ IsRetryableLaunch (as_launch e)

probe_iff : (o : Option (CapacityKind × Err)) → (is_retryable_probe o ≡ true) ↔ IsRetryableProbe o
probe_iff none = ground arith
probe_iff (some (CapacityKind.transient, f)) = (λ _. (f, inl refl), λ _. refl)
probe_iff (some (throttled, f)) = (λ _. (f, inr refl), λ _. refl)
probe_iff (some (CapacityKind.available, f)) = ground arith
probe_iff (some (unavailable, f)) = ground arith
probe_iff (some (CapacityKind.probe_unavailable, f)) = ground arith
probe_iff (some (CapacityKind.fatal, f)) = ground arith
probe_iff (some (CapacityKind.canceled, f)) = ground arith
probe_iff (some (CapacityKind.other s, f)) = ground arith

launch_iff : (o : Option (LaunchKind × Err)) → (is_retryable_launch o ≡ true) ↔ IsRetryableLaunch o
launch_iff none = ground arith
launch_iff (some (LaunchKind.transient, f)) = (λ _. (f, inl refl), λ _. refl)
launch_iff (some (LaunchKind.ambiguous, f)) = (λ _. (f, inr (inl refl)), λ _. refl)
launch_iff (some (out_of_capacity, f)) = (λ _. (f, inr (inr refl)), λ _. refl)
launch_iff (some (LaunchKind.accepted, f)) = ground arith
launch_iff (some (LaunchKind.fatal, f)) = ground arith
launch_iff (some (LaunchKind.limit_exceeded, f)) = ground arith
launch_iff (some (LaunchKind.canceled, f)) = ground arith
launch_iff (some (LaunchKind.unset, f)) = ground arith
launch_iff (some (LaunchKind.other s, f)) = ground arith

is_retryable_iff : (e : Err) → (is_retryable e ≡ true) ↔ IsRetryable e
unfolding is_retryable
is_retryable_iff e =
    let (probe, probe') = probe_iff (as_capacity e) in
    let (launched, launched') = launch_iff (as_launch e) in
    (
      λ h. elim (Bool-cases (is_retryable_probe (as_capacity e))) [
        | inl p ↦ inl (probe p)
        | inr q ↦ inr (launched (rw q at h))
      ],
      λ o. elim o [
        | inl x ↦ rw (probe' x) refl
        | inr x ↦ elim (Bool-cases (is_retryable_probe (as_capacity e))) [
          | inl p ↦ rw p refl
          | inr q ↦ rw (q, launched' x) refl
        ]
      ],
    )

-- How a failed run exits, unless discovery found its input invalid: 124 exactly when the deadline
-- passed; 130 when else it was canceled; 4 when else the failure of a probe or a launch is retryable and
-- discovery did not fail to resolve a resource; 1 exactly in all other cases.
pub command_result_failed :
    (account : String) (r : RunResult) (e : Err)
    → is_invalid (as_discovery e) ≡ false
    → (((command_result account r (some e)).1 ≡ 124) ↔ (is deadline_exceeded e ≡ true))
      × (((command_result account r (some e)).1 ≡ 130)
          ↔ ((is deadline_exceeded e ≡ false) × (is context_canceled e ≡ true)))
      × (((command_result account r (some e)).1 ≡ 4) ↔ (
          (is deadline_exceeded e ≡ false)
          × (is context_canceled e ≡ false)
          × (is_unresolved (as_discovery e) ≡ false)
          × IsRetryable e))
      × (((command_result account r (some e)).1 ≡ 1) ↔ (
          (is deadline_exceeded e ≡ false)
          × (is context_canceled e ≡ false)
          × ((is_unresolved (as_discovery e) ≡ true) ⊎ (¬ IsRetryable e))))
unfolding command_result
command_result_failed account r e other =
    let (there, back) = is_retryable_iff e in
    elim (Bool-cases (is_retryable e)) [
      | inl again ↦ let k = there again in ground arith
      | inr never ↦ let k : ¬ IsRetryable e = λ x. absurd (ground (arith, back x)) in ground arith
    ]

-- A fault of the input, as `validate` makes it.
abbrev is_fault : Err → Bool
is_fault (discovery_error invalid _ (message _)) = true
is_fault _ = false

abbrev faults : Option Err → Bool
faults none = true
faults (some e) = is_fault e

validate-faults : (i : Input) → faults (validate i) ≡ true
unfolding validate
validate-faults i = ground arith

fault-code :
    (account : String) (r : RunResult) (e : Err)
    → is_fault e ≡ true
    → (command_result account r (some (app_error "discovery" e))).1 ≡ 2
unfolding command_result is as_discovery
fault-code account r (discovery_error invalid stage (message text)) h = refl
fault-code account r _ h = absurd (cc)

-- An input that discovery refuses before it asks the provider makes `start` exit with 2.
pub validate-code :
    (account : String) (r : RunResult) (i : Input) (e : Err)
    → validate i ≡ some e
    → (command_result account r (some (app_error "discovery" e))).1 ≡ 2
validate-code account r i e h =
    let fault : is_fault e ≡ true = rw h at (validate-faults i) in fault-code account r e fault
