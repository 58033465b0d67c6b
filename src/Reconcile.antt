-- ===== src/Reconcile.antt =====
-- internal/reconcile/reconcile.go: the identity of a target, the ownership tags, launch attempts and
-- the decision what to do next.
pub mod Identity
pub mod Ownership
pub mod Safety
pub mod Order
pub mod Attempts
mod Examples
use ocihood.Base.{
  ℕ, String, Bool, true, false, ◌&&◌, ◌||◌, Option, none, some, List, [], ◌∷◌, ◌+◌, ltb, leb,
  str_eq, if◌then◌else◌, length, keep, take, drop, lookup, value_or, ◌^^◌, to_lower, trim_space,
  is_blank, hex, decimal, ℤ, pos, le_int,
}
use ocihood.Errors.{message, wrapped}
use ocihood.Io.{Result, ok, err}
use ocihood.Time.{is_zero, before, add_time}

abbrev pub managed_tag : String
managed_tag = "ocihood.managed"

abbrev pub target_id_tag : String
target_id_tag = "ocihood.target-id"

abbrev pub account_tag : String
account_tag = "ocihood.account"

abbrev pub Tags : Type 0
Tags = List (String × String)

-- `tags[key]`: the empty text where the key is missing.
unfoldable pub tag : Tags → String → String
unfolding lookup
tag tags key = value_or "" (lookup key tags)

abbrev pub normal_account : String → String
normal_account account = to_lower (trim_space account)

unfoldable pub ownership_tags : String → String → Tags
ownership_tags target_id account =
    (managed_tag, "true") ∷ (target_id_tag, target_id) ∷ (account_tag, normal_account account) ∷ []

unfoldable pub is_owned : Tags → String → String → Bool
unfolding tag ownership_tags
is_owned tags target_id account =
    let expected = ownership_tags target_id account in
    str_eq (tag tags managed_tag) (tag expected managed_tag)
    && str_eq (tag tags target_id_tag) (tag expected target_id_tag)
    && str_eq (tag tags account_tag) (tag expected account_tag)

pub record Attempt : Type 0 where
  pub id : String
  pub retry_token : String
  pub valid_until : ℕ

-- The reader is the list of the bytes that it still gives; `io.ReadFull` fails where they are too few.
unfoldable pub new_attempt : List ℕ → ℕ → ℤ → Result Attempt × List ℕ
new_attempt random now validity =
    if le_int validity (pos 0)
    then (err (message "attempt validity must be positive"), random)
    else if ltb (length random) 32
    then (err (wrapped "generate attempt identity" (message "unexpected EOF")), [])
    else let b = take 32 random in
      (
        ok (record {
          id = hex (take 16 b);
          retry_token = hex b;
          valid_until = add_time now validity;
        }),
        drop 32 random,
      )

pub data Lifecycle : Type 0 where
  unknown active terminated : Lifecycle

pub record Instance : Type 0 where
  pub id : String
  pub lifecycle : Lifecycle
  pub tags : Tags

pub record State : Type 0 where
  pub target_id : String
  pub instance_id : String
  pub attempt : Option Attempt

pub data DecisionKind : Type 0 where
  undecided create already_satisfied resume_reconcile retry_same_attempt new_attempt_safe conflict :
      DecisionKind

pub record Decision : Type 0 where
  pub kind : DecisionKind
  pub instance_id : String
  pub attempt : Option Attempt
  pub reason : String

pub record Input : Type 0 where
  pub target_id : String
  pub account : String
  pub state : Option State
  pub instances : List Instance
  pub now : ℕ

abbrev pub is_active : Lifecycle → Bool
is_active active = true
is_active _ = false

abbrev pub is_unknown : Lifecycle → Bool
is_unknown unknown = true
is_unknown _ = false

-- The two lists that the loop of `Decide` collects.
abbrev pub active_owned : Input → List Instance
active_owned i =
    keep (λ x. is_owned x.tags i.target_id i.account && is_active x.lifecycle) i.instances

abbrev pub unknown_owned : Input → List Instance
unknown_owned i =
    keep (λ x. is_owned x.tags i.target_id i.account && is_unknown x.lifecycle) i.instances

abbrev because : DecisionKind → String → Decision
because kind reason = record { kind = kind; instance_id = ""; attempt = none; reason = reason }

abbrev at_instance : DecisionKind → String → String → Decision
at_instance kind id reason = record {
  kind = kind;
  instance_id = id;
  attempt = none;
  reason = reason;
}

abbrev is_foreign : Option State → String → Bool
is_foreign none target_id = false
is_foreign (some s) target_id = if str_eq s.target_id target_id then false else true

abbrev is_incomplete : Attempt → Bool
is_incomplete a = is_blank a.id || is_blank a.retry_token || is_zero a.valid_until

-- The branches with a launch attempt in the state.
decide_attempt : Attempt → ℕ → Decision
decide_attempt a now =
    if is_incomplete a
    then because conflict "local state contains an incomplete launch attempt"
    else if before now a.valid_until
    then record {
      kind = retry_same_attempt;
      instance_id = "";
      attempt = some a;
      reason = "in-flight attempt remains retryable";
    }
    else because new_attempt_safe
        "previous attempt expired and reconciliation found no active instance"

-- The branches where no owned instance is active or unknown.
decide_absent : Option State → ℕ → Decision
unfolding decide_attempt
decide_absent none now = because create "no local state or active managed instance"
decide_absent (some s) now = elim s.attempt [
  | some a ↦ decide_attempt a now
  | none ↦
      because new_attempt_safe
        "local instance is absent and reconciliation found no active instance"
]

-- Whether the state names another instance than the one observed.
abbrev differs : Option State → String → Bool
differs none id = false
differs (some s) id =
    if str_eq s.instance_id "" then false else if str_eq s.instance_id id then false else true

decide_active : Option State → Instance → Decision
decide_active state x =
    if differs state x.id
    then at_instance resume_reconcile x.id "provider instance differs from local state"
    else at_instance already_satisfied x.id "one active managed instance satisfies target"

-- `active`, then `unknown`: at most one instance is in both together.
decide_found : Option State → ℕ → List Instance → List Instance → Decision
unfolding decide_absent decide_active
decide_found state now xs (u ∷ us) =
    at_instance resume_reconcile u.id "managed instance lifecycle is unknown"
decide_found state now (x ∷ xs) [] = decide_active state x
decide_found state now [] [] = decide_absent state now

-- `Decide`, from the two lists on.
decide_listed : Option State → String → ℕ → List Instance → List Instance → Decision
unfolding decide_found
decide_listed state target_id now xs us =
    if is_foreign state target_id
    then because conflict "local state belongs to a different target"
    else let n = length xs + length us in
      if ltb 1 n
      then because conflict
          ("found " ^^ decimal n ^^ " active or unknown managed instances for target")
      else decide_found state now xs us

unfoldable pub decide : Input → Decision
unfolding decide_listed
decide i = decide_listed i.state i.target_id i.now (active_owned i) (unknown_owned i)
