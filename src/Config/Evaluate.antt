-- ===== src/Config/Evaluate.antt =====
-- internal/config/config.go: `EvaluatePolicy`.
use ocihood.Base.{
  ◌≡◌, ◌↔◌, arith, ◌≤ℤ◌, suc, String, Bool, true, false, ◌&&◌, ◌||◌, not, List, [], ◌∷◌, ◌++◌,
  str_eq, if◌then◌else◌, ℤ, pos, negsuc, lt_int, eq_int, any, ◌^^◌, decimal,
}
use ocihood.Config.{
  Effective, Policy, default_shape, default_ocpus, default_memory_gb, default_boot_gb,
  default_allowed_shapes,
}

pub record PolicyDecision : Type 0 where
  pub allowed : Bool
  pub overridden : Bool
  pub violations : List String

-- `%d`
abbrev pub int_text : ℤ → String
int_text (pos n) = decimal n
int_text (negsuc n) = "-" ^^ decimal (suc n)

abbrev pub or_default : ℤ → ℤ → ℤ
or_default v default = if eq_int v (pos 0) then default else v

abbrev pub requested_shape : Effective → String
requested_shape e = if str_eq e.shape "" then default_shape else e.shape

abbrev pub allowed_shapes : Policy → List String
allowed_shapes p = elim p.allowed_shapes [ [] ↦ default_allowed_shapes | s ∷ ss ↦ s ∷ ss ]

-- The violation of a check that failed.
abbrev pub violation : Bool → String → List String
violation failed text = if failed then text ∷ [] else []

abbrev pub exceeds : String → ℤ → ℤ → List String
exceeds name value maximum =
    violation (lt_int maximum value)
      (name ^^ " " ^^ int_text value ^^ " exceeds maximum " ^^ int_text maximum)

unfoldable pub violations_of : Effective → List String
violations_of e =
    violation (not (any (str_eq (requested_shape e)) (allowed_shapes e.policy)))
      ("shape \"" ^^ requested_shape e ^^ "\" is not allowed")
    ++ exceeds "ocpus" (or_default e.ocpus default_ocpus)
        (or_default e.policy.max_ocpus default_ocpus)
    ++ exceeds "memory_gb" (or_default e.memory_gb default_memory_gb)
        (or_default e.policy.max_memory_gb default_memory_gb)
    ++ exceeds "boot_volume_gb" (or_default e.boot_volume_gb default_boot_gb)
        (or_default e.policy.max_boot_gb default_boot_gb)

abbrev is_empty : List String → Bool
is_empty [] = true
is_empty (_ ∷ _) = false

unfoldable pub evaluate_policy : Effective → PolicyDecision
unfolding violations_of
evaluate_policy e =
    let vs = violations_of e in
    record {
      allowed = is_empty vs || e.policy.allow_exceed;
      overridden = not (is_empty vs) && e.policy.allow_exceed;
      violations = vs;
    }

-- The request is one of the shapes, and no larger than the limits, where neither is left unset.
abbrev pub Within : Effective → Type 0
Within e =
    (any (str_eq (requested_shape e)) (allowed_shapes e.policy) ≡ true)
    × (or_default e.ocpus default_ocpus ≤ℤ or_default e.policy.max_ocpus default_ocpus)
    × (or_default e.memory_gb default_memory_gb
        ≤ℤ or_default e.policy.max_memory_gb default_memory_gb)
    × (or_default e.boot_volume_gb default_boot_gb
        ≤ℤ or_default e.policy.max_boot_gb default_boot_gb)

-- A request is allowed without an override exactly when its shape is one of the allowed ones and its
-- cores, memory and boot volume are at most their maxima (an unset value counts as its default); a
-- request that is allowed although it is not so is one that the policy lets exceed, and only such a
-- one is reported as overridden.
pub evaluate_policy-Within :
    (e : Effective)
    → (((evaluate_policy e).allowed ≡ true) × ((evaluate_policy e).overridden ≡ false) ↔ Within e)
      × ((evaluate_policy e).overridden ≡ true
          → ((evaluate_policy e).allowed ≡ true) × (e.policy.allow_exceed ≡ true) × (Within e → ⊥))
unfolding evaluate_policy violations_of
evaluate_policy-Within e = ground arith
