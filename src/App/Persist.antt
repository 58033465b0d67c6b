-- ===== src/App/Persist.antt =====
-- internal/app/app.go: `reconcileAndPersist`, `newAttemptAndPersist`, `waitingState`.
use ocihood.Base.{
  ℕ, ◌*◌, String, Bool, true, false, Option, none, some, List, ℤ, pos, if◌then◌else◌,
}
use ocihood.Errors.{message, no_local_state, is}
use ocihood.Io.{Result, ok, err, Io, ◌>>=◌, ◌>>◌, query, lift, pure}
use ocihood.Time.{hour}
use ocihood.Reconcile
use ocihood.Reconcile.{
  Attempt, Decision, new_attempt, decide, undecided, create, already_satisfied, resume_reconcile,
  retry_same_attempt, new_attempt_safe, conflict,
}
use ocihood.State.{
  LocalState, Lifecycle, discovered, waiting, provisioning, running, failed, zero_state,
  reconcile_state,
}
use ocihood.State.Disk.{Disk}
use ocihood.State.Store.{Locked, load, locking, save_or_fail}

abbrev pub attempt_validity : ℤ
attempt_validity = pos (24 * hour)

-- `value.Lifecycle == state.Waiting`
abbrev pub is_waiting : Lifecycle → Bool
is_waiting waiting = true
is_waiting _ = false

-- The state of a new attempt.
abbrev pub with_attempt : Attempt → ℕ → LocalState → LocalState
with_attempt a now v = record v {
  lifecycle = provisioning;
  attempt_id = a.id;
  retry_token = a.retry_token;
  attempt_valid_to = a.valid_until;
  last_attempt = now;
}

-- The state to change, and the part of it that the decision reads.
pub record Prior : Type 0 where
  pub value : LocalState
  pub local : Option Reconcile.State

-- The answer of `store.Load`: that there is no state is no error.
unfoldable pub prior : String → String → Result LocalState → Result Prior
prior account target (ok v) = ok (record { value = v; local = some (reconcile_state v) })
prior account target (err e) =
    if is no_local_state e
    then ok (record {
      value = record zero_state { account = account; target_id = target; lifecycle = discovered };
      local = none;
    })
    else err e

-- The decision and the state to save.
abbrev pub Planned : Type 0
Planned = Decision × LocalState

abbrev pub stays : Decision → LocalState → Result Planned
stays d v = ok (d, v)

-- The branch of a new attempt.
abbrev pub attempted : Decision → LocalState → ℕ → Result Attempt → Result Planned
attempted d v now (err e) = err e
attempted d v now (ok a) = ok (record d { attempt = some a }, with_attempt a now v)

-- The `switch` on the kind of the decision.
unfoldable pub plan_kind :
    Reconcile.DecisionKind → Decision → LocalState → List ℕ → ℕ → Result Planned
plan_kind already_satisfied d v random now =
    stays d (record v { lifecycle = running; instance_id = d.instance_id })
plan_kind resume_reconcile d v random now = stays d (record v { lifecycle = provisioning })
plan_kind retry_same_attempt d v random now = stays d (record v { lifecycle = provisioning })
plan_kind conflict d v random now = stays d (record v { lifecycle = failed; last_error = d.reason })
plan_kind create d v random now = attempted d v now (new_attempt random now attempt_validity).0
plan_kind new_attempt_safe d v random now =
    attempted d v now (new_attempt random now attempt_validity).0
plan_kind undecided d v random now = stays d (record v { lifecycle = discovered })

unfoldable pub plan : Decision → LocalState → List ℕ → ℕ → Result Planned
plan d v random now =
    plan_kind d.kind d (record v { last_result = d.reason; updated_at = now }) random now

-- The return: a conflict is saved, and is an error.
unfoldable pub outcome : Decision → Bool → Result (Decision × Bool)
outcome d resumed = elim d.kind [
  | conflict ↦ err (message d.reason)
  | undecided ↦ ok (d, resumed)
  | create ↦ ok (d, resumed)
  | already_satisfied ↦ ok (d, resumed)
  | resume_reconcile ↦ ok (d, resumed)
  | retry_same_attempt ↦ ok (d, resumed)
  | new_attempt_safe ↦ ok (d, resumed)
]

module _ (sha256 : String → String) (root account target : String) where
  abbrev pub input_of : Option Reconcile.State → List Reconcile.Instance → ℕ → Reconcile.Input
  input_of local instances now = record {
    target_id = target;
    account = account;
    state = local;
    instances = instances;
    now = now;
  }

  -- What is done between the lock and its release.
  abbrev pub reconciling : List Reconcile.Instance → List ℕ → ℕ → Locked → Io Disk (Decision × Bool)
  reconciling instances random now l = do
    p ← query (λ d. prior account target (load sha256 root account target d))
    planned ← lift (plan (decide (input_of p.local instances now)) p.value random now)
    save_or_fail l planned.1
    lift (outcome planned.0 (is_waiting p.value.lifecycle))

  unfoldable pub reconcile_and_persist :
      List Reconcile.Instance → List ℕ → ℕ → Io Disk (Decision × Bool)
  reconcile_and_persist instances random now =
      locking sha256 root account target (reconciling instances random now)

  abbrev pub renewing : Attempt → ℕ → Locked → Io Disk Attempt
  renewing a now l = do
    v ← query (load sha256 root account target)
    save_or_fail l
        (record (with_attempt a now v) { updated_at = now; instance_id = ""; last_error = "" })
    pure a

  unfoldable pub new_attempt_and_persist : List ℕ → ℕ → Io Disk Attempt
  new_attempt_and_persist random now = lift (new_attempt random now attempt_validity).0 >>= λ a.
      locking sha256 root account target (renewing a now)

  unfoldable pub waiting_state : Disk → Bool
  waiting_state d = elim (load sha256 root account target d) [
    | ok v ↦ is_waiting v.lifecycle
    | err e ↦ false
  ]
