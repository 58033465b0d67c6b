-- ===== src/Cli/Outcome.antt =====
-- internal/cli/cli.go: `commandDocument`, `commandResult` and the text of a result.
use ocihood.Base.{
  ℕ, String, Bool, true, false, ◌||◌, not, Option, none, some, List, [], ◌∷◌, ◌^^◌, str_eq,
  if◌then◌else◌,
}
use ocihood.Errors.{
  Err, error_text, is, deadline_exceeded, context_canceled, as_discovery, as_capacity, as_launch,
  as_app,
}
use ocihood.Errors.Kinds.{
  DiscoveryKind, not_found, invalid, discovery_kind_text, CapacityKind, LaunchKind, out_of_capacity,
  throttled,
}
use ocihood.Reconcile.{DecisionKind, already_satisfied}
use ocihood.Config.Evaluate.{PolicyDecision}
use ocihood.App.Run.{RunResult, is_unavailable}

abbrev pub result_schema : String
result_schema = "ocihood.start/v1"

pub record CommandDocument : Type 0 where
  pub schema : String
  pub account : String
  pub target_id : String
  pub outcome : String
  pub region : String
  pub instance_id : String
  pub instance_state : String
  pub public_ip : String
  pub policy : Option PolicyDecision
  pub notification_errors : List String
  -- `Error.Category` and `Error.Message`
  pub category : String
  pub message : String

abbrev has_violations : List String → Bool
has_violations [] = false
has_violations (_ ∷ _) = true

abbrev policy_of : PolicyDecision → Option PolicyDecision
policy_of p = if p.allowed || p.overridden || has_violations p.violations then some p else none

unfoldable pub document_of : String → RunResult → CommandDocument
document_of account r = record {
  schema = result_schema;
  account = account;
  target_id = r.target_id;
  outcome = "success";
  region = r.region;
  instance_id = r.instance_id;
  instance_state = r.instance_state;
  public_ip = r.public_ip;
  policy = policy_of r.policy;
  notification_errors = r.notification_errors;
  category = "";
  message = "";
}

abbrev pub failing : String → String → String → CommandDocument → CommandDocument
failing outcome category text doc = record doc {
  outcome = outcome;
  category = category;
  message = text;
}

abbrev is_satisfied : DecisionKind → Bool
is_satisfied already_satisfied = true
is_satisfied _ = false

unfoldable pub succeeded : RunResult → CommandDocument → CommandDocument × ℕ
succeeded r doc =
    let doc' = record doc {
      outcome = if is_satisfied r.decision then "already_satisfied" else doc.outcome;
    } in
    if is_unavailable r.capacity
    then (
      failing "no_capacity" "capacity" "no capacity available in configured availability domains"
          doc',
      3,
    )
    else (doc', 0)

-- The kinds of a discovery error that are reported as such.
abbrev pub is_reported : DiscoveryKind → Bool
is_reported invalid = true
is_reported not_found = true
is_reported DiscoveryKind.ambiguous = true
is_reported _ = false

abbrev discovery_code : DiscoveryKind → ℕ
discovery_code invalid = 2
discovery_code _ = 1

abbrev pub is_retryable_probe : Option (CapacityKind × Err) → Bool
is_retryable_probe (some (CapacityKind.transient, _)) = true
is_retryable_probe (some (throttled, _)) = true
is_retryable_probe _ = false

abbrev pub is_retryable_launch : Option (LaunchKind × Err) → Bool
is_retryable_launch (some (LaunchKind.transient, _)) = true
is_retryable_launch (some (LaunchKind.ambiguous, _)) = true
is_retryable_launch (some (out_of_capacity, _)) = true
is_retryable_launch _ = false

unfoldable pub is_retryable : Err → Bool
is_retryable e = is_retryable_probe (as_capacity e) || is_retryable_launch (as_launch e)

abbrev by_phase : Option String → CommandDocument → CommandDocument
by_phase none doc = failing "failed" "fatal" "provisioning failed" doc
by_phase (some phase) doc = failing "failed" phase ("provisioning failed during " ^^ phase) doc

-- The last branches: retryable failures and the phases.
unfoldable pub other_failure : Err → CommandDocument → CommandDocument × ℕ
unfolding is_retryable
other_failure e doc =
    if is_retryable e
    then (failing "retryable_failure" "transient" "retryable provider failure" doc, 4)
    else (by_phase (as_app e) doc, 1)

abbrev discovery_failure :
    Err → CommandDocument → Option (DiscoveryKind × Err) → CommandDocument × ℕ
discovery_failure e doc none = other_failure e doc
discovery_failure e doc (some (kind, cause)) =
    if is_reported kind
    then (
      failing (discovery_kind_text kind) (discovery_kind_text kind) (error_text cause) doc,
      discovery_code kind,
    )
    else other_failure e doc

unfoldable pub failed : Err → CommandDocument → CommandDocument × ℕ
unfolding other_failure
failed e doc =
    if is deadline_exceeded e
    then (failing "deadline_exceeded" "deadline" "maximum runtime exceeded" doc, 124)
    else if is context_canceled e
    then (failing "canceled" "canceled" "provisioning canceled" doc, 130)
    else discovery_failure e doc (as_discovery e)

unfoldable pub command_result : String → RunResult → Option Err → CommandDocument × ℕ
unfolding succeeded failed document_of
command_result account r none = succeeded r (document_of account r)
command_result account r (some e) = failed e (document_of account r)

-- `write` in the text mode.
unfoldable pub result_text : CommandDocument → String
result_text d =
    if not (str_eq d.category "")
    then "account " ^^ d.account ^^ " provisioning " ^^ d.outcome ^^ " (" ^^ d.category ^^ ": "
      ^^ d.message ^^ ")\n"
    else "account " ^^ d.account ^^ " provisioning " ^^ d.outcome ^^ " (region " ^^ d.region
      ^^ ", instance " ^^ d.instance_id ^^ ", state " ^^ d.instance_state ^^ ", public_ip "
      ^^ d.public_ip ^^ ")\n"

-- `write`, where `encode` writes a document as JSON.
unfoldable pub write : (CommandDocument → String) → String → CommandDocument → String
unfolding result_text
write encode mode d = if str_eq mode "json" then encode d else result_text d
