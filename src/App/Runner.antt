-- ===== src/App/Runner.antt =====
-- internal/app/app.go: `Run` from its start to its end, around the loop of App/Run.antt.
use ocihood.Base.{
  String, Bool, true, false, ◌&&◌, Option, none, some, List, [], ◌^^◌, str_eq, if◌then◌else◌, join,
  value_or,
}
use ocihood.Errors.{Err, message, wrapped, app_error, as_app}
use ocihood.Errors.Kinds.{CapacityKind}
use ocihood.Io.{Result, ok, err}
use ocihood.Reconcile.{Decision, undecided}
use ocihood.State.Disk.{FilePath, Disk}
use ocihood.State.Store.{try_run_lock, release}
use ocihood.Config.{Effective}
use ocihood.Config.Evaluate.{PolicyDecision, evaluate_policy}
use ocihood.Discovery.{Discovered}
use ocihood.Notification.{Event, EventKind, run_started, terminal_failure}
use ocihood.App.Persist.{reconcile_and_persist}
use ocihood.App.Prepare.{Request, Prepared}
use ocihood.App.Run.{RunResult, Round, Runner, Going, Ended, notify, launches, ended, loop}

abbrev no_policy : PolicyDecision
no_policy = record { allowed = false; overridden = false; violations = [] }

-- `Result{Account: account, Region: region, TargetID: target}`
abbrev pub base_result : String → String → String → RunResult
base_result account region target = record {
  account = account;
  region = region;
  target_id = target;
  decision = undecided;
  attempt = none;
  capacity = CapacityKind.other "";
  availability_domain = "";
  instance_id = "";
  instance_state = "";
  public_ip = "";
  policy = no_policy;
  notification_errors = [];
}

abbrev pub region_of : Option Effective → String
region_of none = ""
region_of (some e) = e.region

abbrev pub account_of : Option Effective → String
account_of none = ""
account_of (some e) = e.account

abbrev pub target_of : Option Discovered → String
target_of none = ""
target_of (some d) = d.target_id

module _ (sha256 : String → String) (r : Runner) (request : Request) (p : Prepared) where
  abbrev pub event_of : EventKind → String → Event
  event_of kind detail = record {
    kind = kind;
    account = account_of p.effective;
    region = region_of p.effective;
    target_id = target_of p.discovered;
    instance_id = "";
    public_ip = "";
    detail = detail;
  }

  module _ (rounds : List Round) (e : Effective) (d : Discovered) where
    -- The loop, with the key that a launch needs.
    unfoldable pub with_key : Bool → Decision → Going → Result String → Option Ended
    with_key is_resumed decision g (err f) =
        ended g (some (app_error "launch" (wrapped "read SSH public key" f)))
    with_key is_resumed decision g (ok key) =
        loop sha256 r request.once e d key rounds is_resumed decision g

    abbrev pub key_for : Decision → Result String
    key_for decision = if r.has_launch && launches decision.kind then r.read_ssh_key else ok ""

    abbrev pub after_reconcile : Going → Result (Decision × Bool) × Disk → Option Ended
    after_reconcile g (err f, disk) = ended (record g { disk = disk }) (some (app_error "state" f))
    after_reconcile g (ok (decision, is_resumed), disk) =
        with_key is_resumed decision (record g { disk = disk }) (key_for decision)

    unfoldable pub reconciled : Going → Option Ended
    unfolding with_key
    reconciled g = after_reconcile g (
        reconcile_and_persist sha256 e.state_dir e.account d.target_id d.instances r.random r.now
          g.disk)

    -- `defer guard.Close()`
    abbrev pub unlocking : FilePath → Option Ended → Option Ended
    unlocking lock none = none
    unlocking lock (some x) =
        some (record x { going = record x.going { disk = release lock x.going.disk } })

    abbrev pub after_lock : Going → Result FilePath × Disk → Option Ended
    after_lock g (err f, disk) = ended (record g { disk = disk }) (some (app_error "state" f))
    after_lock g (ok lock, disk) = unlocking lock (reconciled (record g { disk = disk }))

    unfoldable pub guarded : Going → Option Ended
    unfolding reconciled
    guarded g =
        if r.has_launch
        then after_lock g (try_run_lock sha256 e.state_dir e.account d.target_id g.disk)
        else reconciled g

    unfoldable pub checked : Going → Option Ended
    unfolding guarded
    checked g =
        let policy = evaluate_policy e in
        let g' = record g { result = record g.result { policy = policy } } in
        if policy.allowed
        then guarded g'
        else ended g' (
            some (
              app_error "policy"
                (message ("resource policy rejected: " ^^ join "; " policy.violations))))

  -- `prepare` returns both where it returns no error, so that the last two cases do not arise.
  abbrev pub prepared_run :
      List Round → Option Effective → Option Discovered → Option Err → Going → Option Ended
  prepared_run rounds (some e) (some d) none g = checked rounds e d g
  prepared_run rounds e d (some f) g = ended g (some f)
  prepared_run rounds none d none g = ended g none
  prepared_run rounds (some e) none none g = ended g none

  -- The phase that a failure is announced with.
  abbrev pub phase_of : Err → String
  phase_of f = value_or "provisioning" (as_app f)

  unfoldable pub announced : Ended → Option Err → Bool → Ended
  announced x none is_paused = x
  announced x (some f) true = x
  announced x (some f) false = record x {
    going = notify r (event_of terminal_failure (phase_of f ^^ " failed")) x.going;
  }

  -- The deferred announcement of a failure.
  unfoldable pub closing : Option Ended → Option Ended
  unfolding announced
  closing none = none
  closing (some x) = some (announced x x.error x.is_paused)

  abbrev pub start : Disk → Going
  start disk = record {
    result = base_result request.account (region_of p.effective) (target_of p.discovered);
    effects = [];
    disk = disk;
  }

  abbrev pub with_account : List Round → Disk → Option Ended
  with_account rounds disk = closing (
      prepared_run rounds p.effective p.discovered p.error
        (notify r (event_of run_started "") (start disk)))

  abbrev pub started : List Round → Disk → Option Err → Option Ended
  started rounds disk (some f) =
      ended (record { result = base_result "" "" ""; effects = []; disk = disk })
        (some (app_error "start" f))
  started rounds disk none =
      if str_eq (account_of p.effective) ""
      then prepared_run rounds p.effective p.discovered p.error (start disk)
      else with_account rounds disk

  -- `ctx.Err()` at the start, then the run.
  unfoldable pub run : Option Err → List Round → Disk → Option Ended
  unfolding checked closing
  run at_start rounds disk = started rounds disk at_start
