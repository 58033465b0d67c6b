-- ===== src/Discovery/Tasks.antt =====
-- internal/discovery/discovery.go: chains of its fallible steps.
use ocihood.Base.{Bool, true, false, ◌≡◌, ◌≢◌, refl, Option, none, some}
use ocihood.Errors.{Err, discovery_error}
use ocihood.Io.{Result, ok, err}
use ocihood.Discovery.{Task, go_on}

-- Inversion of a chain that succeeds.
pub go_on_ok :
    {W A B : Type 0} (r : Option (Result A × W)) (f : A → Task W B) {b : B} {v : W}
    → go_on r f ≡ some (ok b, v)
    → (a : A) × (u : W) × (r ≡ some (ok a, u)) × (f a u ≡ some (ok b, v))
go_on_ok none f h = absurd (cc)
go_on_ok (some (ok a, u)) f h = (a, u, refl, h)
go_on_ok (some (err e, u)) f h = absurd (cc)

abbrev pub is_discovery : Err → Bool
is_discovery (discovery_error _ _ _) = true
is_discovery _ = false

-- An error that is there is a discovery error.
abbrev pub is_classified : {W A : Type 0} → Option (Result A × W) → Bool
is_classified none = true
is_classified (some (ok a, w)) = true
is_classified (some (err e, w)) = is_discovery e

pub go_on-is_classified :
    {W A B : Type 0} (r : Option (Result A × W)) (f : A → Task W B)
    → is_classified r ≡ true
    → ((a : A) (u : W) → is_classified (f a u) ≡ true)
    → is_classified (go_on r f) ≡ true
go_on-is_classified none f h k = refl
go_on-is_classified (some (ok a, u)) f h k = k a u
go_on-is_classified (some (err e, u)) f h k = h

-- A step that ends, followed by one that ends, ends.
pub go_on-ends :
    {W A B : Type 0} (r : Option (Result A × W)) (f : A → Task W B)
    → r ≢ none
    → ((a : A) (u : W) → f a u ≢ none)
    → go_on r f ≢ none
go_on-ends none f h k = absurd (h refl)
go_on-ends (some (ok a, u)) f h k = k a u
go_on-ends (some (err e, u)) f h k = λ q. cc

-- The postcondition of a step that succeeds.
abbrev pub Ensures : {W A : Type 0} → (A → W → Type 0) → Option (Result A × W) → Type 0
Ensures P none = Unit
Ensures P (some (ok a, w)) = P a w
Ensures P (some (err e, w)) = Unit

pub go_on-Ensures :
    {W A B : Type 0} (P : B → W → Type 0) (r : Option (Result A × W)) (f : A → Task W B)
    → ((a : A) (u : W) → r ≡ some (ok a, u) → Ensures P (f a u))
    → Ensures P (go_on r f)
go_on-Ensures P none f h = tt
go_on-Ensures P (some (ok a, u)) f h = h a u refl
go_on-Ensures P (some (err e, u)) f h = tt
