-- ===== src/App/Phases.antt =====
-- internal/app/app.go: the phases that the failures of `Run` name, and those of `prepare`.
use ocihood.Base.{
  String, true, ◌≡◌, refl, Option, none, some, List, [], ◌∷◌, str_eq, inl, inr, any, Bool-cases,
}
use ocihood.Errors.{Err, app_error}
use ocihood.Io.{Result, ok, err, error_of, to_result, and_then, Result-cases}
use ocihood.Config.{Effective}
use ocihood.Discovery.{Discovered}
use ocihood.App.Prepare.{
  Injected, Request, prepare, resolve, phase, execute, bootstrap, configless_checks, after_resolved,
  after_bootstrapped,
}

-- The phases of a run.
abbrev pub phases : List String
phases =
    "config" ∷ "authentication" ∷ "bootstrap" ∷ "discovery" ∷ "policy" ∷ "state" ∷ "capacity"
    ∷ "launch" ∷ []

-- A failure that names its phase.
abbrev pub IsPhased : String → Err → Err → Type 0
IsPhased phase cause f = (f ≡ app_error phase cause) × (any (str_eq phase) phases ≡ true)

abbrev pub HasPhase : Err → Type 0
HasPhase f = (phase : String) × (cause : Err) × IsPhased phase cause f

abbrev pub HasPhases : Option Err → Type 0
HasPhases none = Unit
HasPhases (some f) = HasPhase f

-- Of a step that may fail.
abbrev FailsPhased {ℓ} : {A : Type ℓ} → Result A → Type 0
FailsPhased (ok a) = Unit
FailsPhased (err f) = HasPhase f

phase-FailsPhased {ℓ} :
    {A : Type ℓ} (name : String) (x : Result A)
    → any (str_eq name) phases ≡ true
    → FailsPhased (phase name x)
phase-FailsPhased name (ok a) h = tt
phase-FailsPhased name (err f) h = (name, f, (refl, h))

and_then-FailsPhased {ℓ κ} :
    {A : Type ℓ} {B : Type κ} (x : Result A) (k : A → Result B)
    → FailsPhased x
    → ((a : A) → FailsPhased (k a))
    → FailsPhased (and_then x k)
and_then-FailsPhased (ok a) k h later = later a
and_then-FailsPhased (err f) k h later = h

error_of-HasPhases {ℓ} : {A : Type ℓ} (x : Result A) → FailsPhased x → HasPhases (error_of x)
error_of-HasPhases (ok a) h = tt
error_of-HasPhases (err f) h = h

module _ (env : Injected) where
  bootstrap-FailsPhased : (e : Effective) → FailsPhased (bootstrap env e)
  unfolding bootstrap
  bootstrap-FailsPhased e =
      and_then-FailsPhased (phase "authentication" (env.authenticate e)) _
        (phase-FailsPhased "authentication" (env.authenticate e) refl)
        λ _.
          and_then-FailsPhased (phase "authentication" (to_result env.after_authentication)) _
            (phase-FailsPhased "authentication" (to_result env.after_authentication) refl)
            λ _.
              and_then-FailsPhased
                (phase "bootstrap" (execute env.before_validation (env.validate e))) _
                (phase-FailsPhased "bootstrap" _ refl)
                λ _. phase-FailsPhased "bootstrap" (to_result env.after_bootstrap) refl

  configless_checks-FailsPhased :
      (q : Request) (e : Effective) → FailsPhased (configless_checks env q e)
  unfolding configless_checks
  configless_checks-FailsPhased q e = elim (Bool-cases q.configless) [
    | inl checks ↦ rw checks (phase-FailsPhased "config" _ refl)
    | inr trusts ↦ rw trusts tt
  ]

  after_bootstrapped-HasPhases :
      (e : Effective) (b : Result (Unit {0})) (d : Result Discovered)
      → FailsPhased b
      → HasPhases (after_bootstrapped env e b d).error
  after_bootstrapped-HasPhases e (err f) d h = h
  after_bootstrapped-HasPhases e (ok _) (err f) h = ("discovery", f, (refl, refl))
  after_bootstrapped-HasPhases e (ok _) (ok d) h =
      error_of-HasPhases (phase "discovery" (to_result env.after_discovery))
        (phase-FailsPhased "discovery" (to_result env.after_discovery) refl)

  after_resolved-HasPhases :
      (q : Request) (x : Result Effective)
      → FailsPhased x
      → HasPhases (after_resolved env q x).error
  unfolding after_resolved
  after_resolved-HasPhases q (err f) h = h
  after_resolved-HasPhases q (ok e) h =
      let checks = configless_checks-FailsPhased q e in
      elim (Result-cases (configless_checks env q e)) [
        | inl (_, passed) ↦
            rw (passed, after_resolved)
              (after_bootstrapped-HasPhases e (bootstrap env e) (env.discover e)
                (bootstrap-FailsPhased e))
        | inr (f, failed) ↦
            let k : HasPhase f = rw failed at checks in rw (failed, after_resolved) k
      ]

  pub prepare-HasPhases : (q : Request) → HasPhases (prepare env q).error
  unfolding prepare resolve
  prepare-HasPhases q =
      after_resolved-HasPhases q (resolve env q) (phase-FailsPhased "config" _ refl)
