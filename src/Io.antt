-- ===== src/Io.antt =====
-- Results, and actions that change a world and may fail: a Go function that returns `(T, error)`.
use ocihood.Base.{◌≡◌, refl, ap, sym, Option, none, some, ◌⊎◌, inl, inr}
use ocihood.Errors.{Err}

pub data Result {ℓ} (A : Type ℓ) : Type ℓ where
  ok : A → Result A
  err : Err → Result A

pub Result-cases {ℓ} :
    {A : Type ℓ} (r : Result A) → ((a : A) × (r ≡ ok a)) ⊎ ((e : Err) × (r ≡ err e))
Result-cases (ok a) = inl (a, refl)
Result-cases (err e) = inr (e, refl)

-- `if err != nil { return err }` on values.
abbrev pub and_then {ℓ κ} : {A : Type ℓ} {B : Type κ} → Result A → (A → Result B) → Result B
and_then (ok a) f = f a
and_then (err e) f = err e

-- The error of a function that returns `error` alone.
abbrev pub to_result : Option Err → Result (Unit {0})
to_result none = ok tt
to_result (some e) = err e

abbrev pub error_of {ℓ} : {A : Type ℓ} → Result A → Option Err
error_of (ok _) = none
error_of (err e) = some e

abbrev pub Io {ℓ κ} : Type ℓ → Type κ → Type (ℓ ⊔ κ)
Io W A = W → Result A × W

abbrev pub continue_with {ℓ κ} :
    {W : Type ℓ} {A B : Type κ} → Result A × W → (A → Io W B) → Result B × W
continue_with (ok a, w) f = f a w
continue_with (err e, w) f = (err e, w)

-- `if err != nil { return err }` after a call that changes the world.
infixl 5 ◌>>=◌ ◌>>◌
abbrev pub ◌>>=◌ {ℓ κ} : {W : Type ℓ} {A B : Type κ} → Io W A → (A → Io W B) → Io W B
◌>>=◌ m f w = continue_with (m w) f

abbrev pub ◌>>◌ {ℓ} : {W : Type ℓ} {B : Type 0} → Io W (Unit {0}) → Io W B → Io W B
m >> k = m >>= λ _. k

abbrev pub pure {ℓ κ} : {W : Type ℓ} {A : Type κ} → A → Io W A
pure a w = (ok a, w)

abbrev pub fail {ℓ κ} : {W : Type ℓ} {A : Type κ} → Err → Io W A
fail e w = (err e, w)

abbrev pub lift {ℓ κ} : {W : Type ℓ} {A : Type κ} → Result A → Io W A
lift r w = (r, w)

-- A read of the world that may fail.
abbrev pub query {ℓ κ} : {W : Type ℓ} {A : Type κ} → (W → Result A) → Io W A
query f w = (f w, w)

-- `defer`: a change of the world at the end, on every path.
abbrev pub finally {ℓ κ} : {W : Type ℓ} {A : Type κ} → Io W A → (W → W) → Io W A
finally m last w = let (r, w') = m w in (r, last w')

continue_with-eq-ok {ℓ κ} :
    {W : Type ℓ} {A B : Type κ} (r : Result A × W) (f : A → Io W B) {b : B} {v : W}
    → continue_with r f ≡ (ok b, v)
    → (a : A) × (u : W) × (r ≡ (ok a, u)) × (f a u ≡ (ok b, v))
continue_with-eq-ok (ok a, u) f h = (a, u, refl, h)
continue_with-eq-ok (err e, u) f h = absurd (cc)

-- Inversion of a chain that succeeds.
pub >>=-eq-ok {ℓ κ} :
    {W : Type ℓ} {A B : Type κ} (m : Io W A) (f : A → Io W B) (w : W) {b : B} {v : W}
    → (m >>= f) w ≡ (ok b, v)
    → (a : A) × (u : W) × (m w ≡ (ok a, u)) × (f a u ≡ (ok b, v))
>>=-eq-ok m f w h = continue_with-eq-ok (m w) f h

-- What a deferred change follows.
pub finally_ok {ℓ κ} :
    {W : Type ℓ} {A : Type κ} (m : Io W A) (last : W → W) (w : W) {x : A} {v : W}
    → finally m last w ≡ (ok x, v)
    → (m w ≡ (ok x, (m w).1)) × (v ≡ last (m w).1)
finally_ok m last w h = (ap (λ r. (r.0, (m w).1)) h, sym (ap (λ r. r.1) h))

pub query_ok {ℓ κ} :
    {W : Type ℓ} {A : Type κ} (f : W → Result A) (w : W) {a : A} {v : W}
    → query f w ≡ (ok a, v)
    → (f w ≡ ok a) × (v ≡ w)
query_ok f w h = (ap (λ r. r.0) h, sym (ap (λ r. r.1) h))
