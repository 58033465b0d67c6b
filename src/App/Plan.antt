-- ===== src/App/Plan.antt =====
-- internal/app/app.go: `Plan`, after the preparation that it shares with `Run`.
use ocihood.Base.{
  ℕ, String, Bool, ◌≡◌, ap, sym, ◌∙◌, Option, none, some, List, ℤ, keep, if◌then◌else◌, arith, inl,
  inr,
}
use ocihood.Errors.{app_error, no_local_state, is}
use ocihood.Io.{Result, ok, err, and_then, Result-cases}
use ocihood.Reconcile
use ocihood.Reconcile.{Decision, DecisionKind, decide, is_owned}
use ocihood.State.{LocalState, reconcile_state}
use ocihood.State.Disk.{Disk}
use ocihood.State.Store.{load, file_of}
use ocihood.State.Durability.{HasFreshTemp}
use ocihood.Discovery.{Discovered}
use ocihood.Config.{Effective}
use ocihood.Config.Evaluate.{PolicyDecision, evaluate_policy}
use ocihood.App.Persist.{Prior, prior, reconcile_and_persist, input_of, is_waiting}
use ocihood.App.Reconciled.{reconcile_and_persist_ok, outcome_ok, plan-keeps}

pub record Plan : Type 0 where
  pub account : String
  pub target_id : String
  pub region : String
  pub compartment_id : String
  pub shape : String
  pub shape_architecture : String
  pub image_id : String
  pub image_name : String
  pub operating_system : String
  pub os_version : String
  pub vcn_id : String
  pub subnet_id : String
  pub ocpus : ℤ
  pub memory_gb : ℤ
  pub boot_volume_gb : ℤ
  pub public_ip : Bool
  pub availability_domains : List String
  pub instances : List Reconcile.Instance
  pub action : DecisionKind
  pub reason : String
  pub policy : PolicyDecision

-- The state that the decision reads; a failed load but for a missing state is an error.
unfoldable pub local_state : Result LocalState → Result (Option Reconcile.State)
local_state (ok v) = ok (some (reconcile_state v))
local_state (err e) = if is no_local_state e then ok none else err (app_error "state" e)

abbrev pub planned : Effective → Discovered → Decision → Plan
planned e d decision = record {
  account = e.account;
  target_id = d.target_id;
  region = e.region;
  compartment_id = d.compartment_id;
  shape = e.shape;
  shape_architecture = d.shape_architecture;
  image_id = d.image.id;
  image_name = d.image.name;
  operating_system = d.image.operating_system;
  os_version = d.image.os_version;
  vcn_id = d.vcn.id;
  subnet_id = d.subnet.id;
  ocpus = e.ocpus;
  memory_gb = e.memory_gb;
  boot_volume_gb = e.boot_volume_gb;
  public_ip = e.public_ip;
  availability_domains = d.availability_domains;
  instances = keep (λ x. is_owned x.tags d.target_id e.account) d.instances;
  action = decision.kind;
  reason = decision.reason;
  policy = evaluate_policy e;
}

module _ (sha256 : String → String) (e : Effective) (d : Discovered) (now : ℕ) where
  unfoldable pub plan_target : Disk → Result Plan
  unfolding local_state
  plan_target disk =
      and_then (local_state (load sha256 e.state_dir e.account d.target_id disk)) (λ local. ok (
        planned e d
          (decide (input_of sha256 e.state_dir e.account d.target_id local d.instances now))))

  same_local :
      (r : Result LocalState) (local : Option Reconcile.State) (p : Prior)
      → local_state r ≡ ok local
      → prior e.account d.target_id r ≡ ok p
      → p.local ≡ local
  unfolding local_state prior
  same_local (ok v) local p h k = ground arith
  same_local (err x) local p h k = ground arith

  plan_target_ok :
      (disk : Disk) (x : Plan)
      → plan_target disk ≡ ok x
      → (local : Option Reconcile.State) × (local_state
            (load sha256 e.state_dir e.account d.target_id disk)
          ≡ ok local)
        × (x.action
            ≡ (decide
                (input_of sha256 e.state_dir e.account d.target_id local d.instances now)).kind)
  unfolding plan_target
  plan_target_ok disk x h =
      elim (Result-cases (local_state (load sha256 e.state_dir e.account d.target_id disk))) [
        | inr (f, bad) ↦ absurd (ground arith)
        | inl (local, fine) ↦ (local, fine, ground arith)
      ]

  -- The plan and the run agree: on the store and the discovery that a plan was made of, at the same
  -- time, a `reconcileAndPersist` that returns without an error decides for the plan's action.
  -- (The temporary file is new.)
  pub plan_target-reconcile_and_persist :
      (disk disk' : Disk) (x : Plan) (random : List ℕ) (y : Decision × Bool)
      → HasFreshTemp (file_of sha256 e.state_dir e.account d.target_id) disk
      → plan_target disk ≡ ok x
      → reconcile_and_persist sha256 e.state_dir e.account d.target_id d.instances random now disk
        ≡ (ok y, disk')
      → y.0.kind ≡ x.action
  plan_target-reconcile_and_persist disk disk' x random y fresh h run =
      let (local, read, action) = plan_target_ok disk x h in
      let k =
        reconcile_and_persist_ok sha256 e.state_dir e.account d.target_id d.instances random now
          disk disk' y fresh run in
      let same =
        same_local (load sha256 e.state_dir e.account d.target_id disk) local k.before read
          k.read_before in
      let kept = plan-keeps _ k.before.value random now k.planned k.made in
      ap (λ z. z.0.kind) (outcome_ok k.planned.0 (is_waiting k.before.value.lifecycle) y k.returned)
      ∙ kept
      ∙ ap
          (λ s. (decide (input_of sha256 e.state_dir e.account d.target_id s d.instances now)).kind)
          same
      ∙ sym action
