-- ===== src/Cli/Render.antt =====
-- internal/cli/cli.go: the documents and texts of `plan`, `images list` and `status`.
-- `rfc3339` writes a time.
use ocihood.Base.{
  ℕ, suc, String, Bool, true, false, List, [], ◌∷◌, map, ◌^^◌, join, decimal, ℤ, pos, negsuc,
  if◌then◌else◌,
}
use ocihood.Time.{is_zero}
use ocihood.Reconcile.{
  Instance, Lifecycle, unknown, active, terminated, DecisionKind, undecided, create,
  already_satisfied, resume_reconcile, retry_same_attempt, new_attempt_safe, conflict,
}
use ocihood.State
use ocihood.State.{LocalState}
use ocihood.Config.Evaluate.{PolicyDecision}
use ocihood.App.Plan.{Plan}
use ocihood.App.Prepare.{ImageList}

-- `%d` and `%t`
abbrev pub int_text : ℤ → String
int_text (pos n) = decimal n
int_text (negsuc n) = "-" ^^ decimal (suc n)

abbrev pub bool_text : Bool → String
bool_text true = "true"
bool_text false = "false"

unfoldable pub render_policy : PolicyDecision → String
render_policy p =
    if p.overridden then "override-allowed" else if p.allowed then "within-policy" else "rejected"

unfoldable pub render_action : DecisionKind → String
render_action create = "create"
render_action new_attempt_safe = "create"
render_action retry_same_attempt = "create"
render_action already_satisfied = "already-satisfied"
render_action conflict = "blocked/conflict/ambiguous"
render_action resume_reconcile = "blocked/conflict/ambiguous"
render_action undecided = "blocked/conflict/ambiguous"

abbrev lifecycle_text : Lifecycle → String
lifecycle_text active = "active"
lifecycle_text terminated = "terminated"
lifecycle_text unknown = "unknown"

unfoldable pub render_instances : List Instance → String
render_instances xs = join "," (map (λ x. x.id ^^ "(" ^^ lifecycle_text x.lifecycle ^^ ")") xs)

-- `string(lifecycle)` of the number of the constant: one control character.
abbrev lifecycle_char : Lifecycle → String
lifecycle_char unknown = "\0"
lifecycle_char active = "\u{1}"
lifecycle_char terminated = "\u{2}"

pub record PlanInstance : Type 0 where
  pub id : String
  pub lifecycle : String

abbrev pub plan_schema : String
plan_schema = "ocihood.plan/v1"

-- The fields of the plan are those of `Plan`; what the document changes or adds stands beside it.
pub record PlanDocument : Type 0 where
  pub schema : String
  pub plan : Plan
  pub managed_instances : List PlanInstance
  pub action : String

unfoldable pub new_plan_document : Plan → PlanDocument
unfolding render_action
new_plan_document p = record {
  schema = plan_schema;
  plan = p;
  managed_instances =
      map (λ x. record { id = x.id; lifecycle = lifecycle_char x.lifecycle }) p.instances;
  action = render_action p.action;
}

abbrev line : String → String → String
line name value = name ^^ ": " ^^ value ^^ "\n"

unfoldable pub plan_text : Plan → String
unfolding render_policy render_instances render_action
plan_text p = join "" (
    line "account" p.account
    ∷ line "target_id" p.target_id
    ∷ line "region" p.region
    ∷ line "compartment_id" p.compartment_id
    ∷ line "shape" p.shape
    ∷ line "shape_architecture" p.shape_architecture
    ∷ line "ocpus" (int_text p.ocpus)
    ∷ line "memory_gb" (int_text p.memory_gb)
    ∷ line "image_id" p.image_id
    ∷ line "image_name" p.image_name
    ∷ line "operating_system" p.operating_system
    ∷ line "os_version" p.os_version
    ∷ line "vcn_id" p.vcn_id
    ∷ line "subnet_id" p.subnet_id
    ∷ line "boot_volume_gb" (int_text p.boot_volume_gb)
    ∷ line "public_ip" (bool_text p.public_ip)
    ∷ line "policy_decision" (render_policy p.policy)
    ∷ line "policy_violations" (join "; " p.policy.violations)
    ∷ line "availability_domains" (join "," p.availability_domains)
    ∷ line "managed_instances" (render_instances p.instances)
    ∷ line "action" (render_action p.action)
    ∷ line "reason" p.reason
    ∷ [])

abbrev state_text : State.Lifecycle → String
state_text State.discovered = "discovered"
state_text State.waiting = "waiting"
state_text State.provisioning = "provisioning"
state_text State.running = "running"
state_text State.failed = "failed"
state_text (State.other s) = s

pub record ImageOutput : Type 0 where
  pub id : String
  pub name : String
  pub operating_system : String
  pub os_version : String
  pub created_at : ℕ

pub record ImageListDocument : Type 0 where
  pub schema : String
  pub account : String
  pub region : String
  pub shape : String
  pub images : List ImageOutput

unfoldable pub image_list_document : ImageList → ImageListDocument
image_list_document l = record {
  schema = "ocihood.images/v1";
  account = l.account;
  region = l.region;
  shape = l.shape;
  images =
      map
        (λ x. record {
          id = x.id;
          name = x.name;
          operating_system = x.operating_system;
          os_version = x.os_version;
          created_at = x.created_at;
        })
        l.images;
}

module _ (rfc3339 : ℕ → String) where
  abbrev created : ImageOutput → String
  created x = if is_zero x.created_at then "-" else rfc3339 x.created_at

  -- The rows that are handed to the tab writer, cell by cell.
  unfoldable pub image_rows : ImageListDocument → List (List String)
  image_rows d =
      ("ID" ∷ "NAME" ∷ "OPERATING_SYSTEM" ∷ "OS_VERSION" ∷ "CREATED_AT" ∷ [])
      ∷ map (λ x. x.id ∷ x.name ∷ x.operating_system ∷ x.os_version ∷ created x ∷ []) d.images

  unfoldable pub status_text : LocalState → String
  status_text v = join "" (
      line "account" v.account
      ∷ line "target_id" v.target_id
      ∷ line "status" (state_text v.lifecycle)
      ∷ line "instance_id" v.instance_id
      ∷ line "public_ip" v.public_ip
      ∷ line "last_result" v.last_result
      ∷ line "last_error" v.last_error
      ∷ line "updated_at" (rfc3339 v.updated_at)
      ∷ [])
