-- ===== src/Config/Validate.antt =====
-- internal/config/config.go: `validateSettings`. Go visits the small maps of values in any order, so
-- which of several faults is reported may differ from run to run; here it is the first of a list.
use ocihood.Base.{
  ◌*◌, String, Bool, true, false, ◌||◌, Option, none, some, List, [], ◌∷◌, str_eq, if◌then◌else◌, ℤ,
  pos, lt_int, le_int, or_else, is_blank, ◌^^◌, any,
}
use ocihood.Errors.{Err, message}
use ocihood.Time.{second, hour}
use ocihood.Config.{Settings}

-- The first fault, of a list of checks.
abbrev pub first_failed : List (Bool × String) → Option Err
first_failed [] = none
first_failed ((failed, text) ∷ cs) = elim failed [
  | true ↦ some (message text)
  | false ↦ first_failed cs
]

-- A value that is present and outside its range.
abbrev pub beyond : ℤ → ℤ → Option ℤ → Bool
beyond lo hi none = false
beyond lo hi (some v) = lt_int v lo || lt_int hi v

-- A value that is present and not positive.
abbrev pub not_positive : Option ℤ → Bool
not_positive none = false
not_positive (some v) = le_int v (pos 0)

abbrev pub empty_text : Option String → Bool
empty_text none = false
empty_text (some t) = str_eq t ""

abbrev pub blank_text : Option String → Bool
blank_text none = false
blank_text (some t) = is_blank t

-- The loop over the allowed shapes.
unfoldable pub shapes_fault : String → List String → List String → Option Err
shapes_fault scope seen [] = none
shapes_fault scope seen (shape ∷ shapes) =
    let rest = shapes_fault scope (shape ∷ seen) shapes in
    if is_blank shape
    then some (message (scope ^^ ".policy.allowed_shapes must not contain blank values"))
    else if any (str_eq shape) seen
    then some (message (scope ^^ ".policy.allowed_shapes contains duplicate \"" ^^ shape ^^ "\""))
    else rest

unfoldable pub allowed_fault : String → Option (List String) → Option Err
unfolding shapes_fault
allowed_fault scope none = none
allowed_fault scope (some []) = some (message (scope ^^ ".policy.allowed_shapes must not be empty"))
allowed_fault scope (some (shape ∷ shapes)) = shapes_fault scope [] (shape ∷ shapes)

abbrev pub breaker_checks : String → Settings → List (Bool × String)
breaker_checks scope s =
    (
      beyond (pos 1) (pos 100) s.breaker.failures,
      scope ^^ ".circuit_breaker.failures is outside its safe range",
    )
    ∷ (
      beyond (pos 1) (pos 10) s.breaker.half_open_requests,
      scope ^^ ".circuit_breaker.half_open_requests is outside its safe range",
    )
    ∷ (
      beyond (pos second) (pos (24 * hour)) s.breaker.interval,
      scope ^^ ".circuit_breaker.interval is outside its safe range",
    )
    ∷ (
      beyond (pos second) (pos hour) s.breaker.open_timeout,
      scope ^^ ".circuit_breaker.open_timeout is outside its safe range",
    )
    ∷ []

abbrev pub value_checks : String → Settings → List (Bool × String)
value_checks scope s =
    (
      blank_text s.notifications.telegram_chat,
      scope ^^ ".notifications.telegram_chat_id must not be blank",
    )
    ∷ (
      blank_text s.notifications.telegram_token_env,
      scope ^^ ".notifications.telegram_token_env must not be blank",
    )
    ∷ (not_positive s.request_timeout, scope ^^ ".request_timeout must be greater than zero")
    ∷ (not_positive s.retry_min, scope ^^ ".retry_min must be greater than zero")
    ∷ (not_positive s.retry_max, scope ^^ ".retry_max must be greater than zero")
    ∷ (not_positive s.ocpus, scope ^^ ".ocpus must be greater than zero")
    ∷ (not_positive s.memory_gb, scope ^^ ".memory_gb must be greater than zero")
    ∷ (not_positive s.boot_volume_gb, scope ^^ ".boot_volume_gb must be greater than zero")
    ∷ (empty_text s.shape, scope ^^ ".shape must not be empty")
    ∷ (empty_text s.state_dir, scope ^^ ".state_dir must not be empty")
    ∷ (empty_text s.log_dir, scope ^^ ".log_dir must not be empty")
    ∷ []

abbrev pub limit_checks : String → Settings → List (Bool × String)
limit_checks scope s =
    (not_positive s.policy.max_ocpus, scope ^^ ".policy.max_ocpus must be greater than zero")
    ∷ (
      not_positive s.policy.max_memory_gb,
      scope ^^ ".policy.max_memory_gb must be greater than zero",
    )
    ∷ (
      not_positive s.policy.max_boot_gb,
      scope ^^ ".policy.max_boot_volume_gb must be greater than zero",
    )
    ∷ []

unfoldable pub validate_settings : String → Settings → Option Err
validate_settings scope s = or_else (first_failed (breaker_checks scope s)) (
    or_else (first_failed (value_checks scope s))
      (or_else (allowed_fault scope s.policy.allowed_shapes) (first_failed (limit_checks scope s))))
