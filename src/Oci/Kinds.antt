-- ===== src/Oci/Kinds.antt =====
-- internal/provider/oci: what the adapters make of errors and headers.
use ocihood.Base.{
  ℕ, ◌*◌, ◌^◌, ◌<◌, ◌≤◌, String, Bool, true, false, ◌≡◌, ◌↔◌, ◌⊎◌, Option, none, some, arith,
  Bool-cases, Option-cases, inl, inr, contains, to_lower, ℤ, pos, negsuc, ◌≤ℤ◌, wrap-small,
}
use ocihood.Errors.{Err, auth_error, is, context_canceled, deadline_exceeded, as_service}
use ocihood.Errors.Kinds.{transient, ambiguous, local_credentials}
use ocihood.Io.{err}
use ocihood.Time.{second}
use ocihood.Config.{Effective}
use ocihood.Oci.Compute
use ocihood.Oci.Reports.{after_date, parse_retry_after}
use ocihood.Oci.Session.{Sdk, new}
use ocihood.Discovery.Version.{atoi}

-- The texts of the codes that are not retried.
abbrev pub OtherCode : String → Type 0
OtherCode code =
    (contains (to_lower code) "capacity" ≡ false)
    × (contains (to_lower code) "outofhostcapacity" ≡ false)
    × (contains (to_lower code) "limitexceeded" ≡ false)

-- A service that answers that it is overloaded or broken, and not that capacity or a limit is short.
abbrev pub IsOverloaded : Err → Type 0
IsOverloaded e =
    (status : ℕ) × (code : String) × (as_service e ≡ some (status, code))
    × OtherCode code
    × ((status ≡ 429) ⊎ (500 ≤ status))

again_iff :
    (status : ℕ) (code : String)
    → ((Compute.service_kind status code ≡ transient)
        ⊎ (Compute.service_kind status code ≡ ambiguous))
      ↔ (OtherCode code × ((status ≡ 429) ⊎ (500 ≤ status)))
unfolding Compute.service_kind
again_iff status code = ground arith

MayRetry : Err → Type 0
MayRetry e = (Compute.classify e ≡ transient) ⊎ (Compute.classify e ≡ ambiguous)

classify_late :
    (e : Err)
    → is context_canceled e ≡ false
    → is deadline_exceeded e ≡ true
    → Compute.classify e ≡ ambiguous
unfolding Compute.classify
classify_late e live late = ground arith

classify_unanswered :
    (e : Err)
    → is context_canceled e ≡ false
    → is deadline_exceeded e ≡ false
    → as_service e ≡ none
    → MayRetry e
unfolding Compute.classify MayRetry
classify_unanswered e live early silent = ground arith

classify_answered :
    (e : Err) (status : ℕ) (code : String)
    → is context_canceled e ≡ false
    → is deadline_exceeded e ≡ false
    → as_service e ≡ some (status, code)
    → Compute.classify e ≡ Compute.service_kind status code
unfolding Compute.classify
classify_answered e status code live early answered = ground arith

classify_canceled : (e : Err) → is context_canceled e ≡ true → ¬ MayRetry e
unfolding Compute.classify MayRetry
classify_canceled e h = ground arith

-- An error of a launch is taken for one after which the same attempt may be sent again exactly when
-- the call was not canceled, and its deadline passed, no service answered, or the service is
-- overloaded or broken.
pub classify_iff :
    (e : Err)
    → ((Compute.classify e ≡ transient) ⊎ (Compute.classify e ≡ ambiguous)) ↔ (
        (is context_canceled e ≡ false)
        × ((is deadline_exceeded e ≡ true) ⊎ (as_service e ≡ none) ⊎ IsOverloaded e))
unfolding MayRetry
classify_iff e = (
  λ h. elim (Bool-cases (is context_canceled e)) [
    | inl gone ↦ absurd (classify_canceled e gone h)
    | inr live ↦ elim (Bool-cases (is deadline_exceeded e)) [
      | inl late ↦ (live, inl late)
      | inr early ↦ elim (Option-cases (as_service e)) [
        | inl silent ↦ (live, inr (inl silent))
        | inr ((status, code), answered) ↦
            let k = classify_answered e status code live early answered in
            let (other, again) = (again_iff status code).0 (rw k at h) in
            (live, inr (inr (status, code, answered, other, again)))
      ]
    ]
  ],
  λ (live, why). elim (Bool-cases (is deadline_exceeded e)) [
    | inl late ↦ inr (classify_late e live late)
    | inr early ↦ elim why [
      | inl late ↦ absurd (cc)
      | inr (inl silent) ↦ classify_unanswered e live early silent
      | inr (inr (status, code, answered, other, again)) ↦
          rw (classify_answered e status code live early answered)
            ((again_iff status code).1 (other, again))
    ]
  ],
)

after_date_bounds :
    (date : Option ℕ) (now : ℕ) → pos 0 ≤ℤ after_date (λ _. none) (λ _. pos 0) date now
after_date_bounds none now = omega arith
after_date_bounds (some date) now = ground arith

-- A `Retry-After` header never asks for a negative wait, where its number of seconds, if it is one,
-- fits into a duration.
pub parse_retry_after_bounds :
    (parse_time : String → Option ℕ) (retry_after : Err → ℤ) (text : String) (now : ℕ)
    → ((n : ℕ) → atoi text ≡ some (pos n) → n * second < 2 ^ 63)
    → pos 0 ≤ℤ parse_retry_after parse_time retry_after text now
unfolding parse_retry_after
parse_retry_after_bounds parse_time retry_after text now fits = elim (Option-cases (atoi text)) [
  | inl none_ ↦ rw (none_, parse_retry_after) (after_date_bounds (parse_time text) now)
  | inr (pos n, some_) ↦
      rw (some_, parse_retry_after, wrap-small (n * second) (fits n some_)) (omega arith)
  | inr (negsuc n, some_) ↦ rw (some_, parse_retry_after) (after_date_bounds (parse_time text) now)
]

abbrev is_local : Err → Bool
is_local (auth_error local_credentials _ _) = true
is_local _ = false

-- Each error of `New` is one of the local credentials, whatever the SDK answers.
pub new_error :
    (sdk : Sdk) (account : Effective) (e : Err) → new sdk account ≡ err e → is_local e ≡ true
unfolding new
new_error sdk account e h = ground arith
