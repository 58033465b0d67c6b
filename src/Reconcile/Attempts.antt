-- ===== src/Reconcile/Attempts.antt =====
-- internal/reconcile/reconcile.go: `NewAttempt`.
use ocihood.Base.{
  ℕ, ◌<◌, false, ◌≡◌, List, [], ◌∷◌, arith, ltb, ℤ, pos, le_int, length, take, is_blank, All,
  Bool-cases, inl, inr,
}
use ocihood.Base.Hex.{hex-blank}
use ocihood.Io.{ok}
use ocihood.Reconcile.{Attempt, new_attempt}

-- The values of a reader of bytes.
abbrev pub AreBytes : List ℕ → Type 0
AreBytes random = All (λ b. b < 256) random

abbrev pub IsComplete : Attempt → Type 0
IsComplete a = (is_blank a.id ≡ false) × (is_blank a.retry_token ≡ false)

-- An attempt that is generated has an identity and a retry token that are not blank, and it is valid
-- for some time to come.
pub new_attempt-IsComplete :
    (random : List ℕ) (now : ℕ) (validity : ℤ) (a : Attempt) (rest : List ℕ)
    → AreBytes random
    → new_attempt random now validity ≡ (ok a, rest)
    → IsComplete a × (now < a.valid_until)
unfolding new_attempt
new_attempt-IsComplete [] now validity a rest bytes h = absurd (ground arith)
new_attempt-IsComplete (b ∷ bs) now validity a rest (small, _) h =
    elim (Bool-cases (le_int validity (pos 0))) [
      | inl refused ↦ absurd (ground arith)
      | inr valid ↦ elim (Bool-cases (ltb (length (b ∷ bs)) 32)) [
        | inl few ↦ absurd (ground arith)
        | inr enough ↦ (
          (
            ground (arith, hex-blank b (take 15 (take 31 bs)) small),
            ground (arith, hex-blank b (take 31 bs) small),
          ),
          ground arith,
        )
      ]
    ]
