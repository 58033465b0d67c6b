-- ===== src/App/Run.antt =====
-- internal/app/app.go: `notify` and `Run`. Watching and launching are parameters, round by round, with
-- the time and the random bytes of each round; both may change the disk. A round that finds capacity
-- gone before the launch leads to the next; where the rounds run out the run is still going.
use ocihood.Base.{
  ℕ, String, Bool, true, false, ◌&&◌, ◌||◌, not, Option, none, some, List, [], ◌∷◌, ◌++◌, str_eq,
  if◌then◌else◌,
}
use ocihood.Errors.{Err, app_error, is, context_canceled, deadline_exceeded, as_launch, error_text}
use ocihood.Errors.Kinds.{CapacityKind, unavailable, LaunchKind, out_of_capacity}
use ocihood.Io.{Result, ok, err, Io}
use ocihood.Reconcile.{
  Attempt, Decision, DecisionKind, create, retry_same_attempt, new_attempt_safe,
}
use ocihood.State.Disk.{Disk}
use ocihood.Config.{Effective}
use ocihood.Config.Evaluate.{PolicyDecision}
use ocihood.Capacity.{CapacityResult}
use ocihood.Launch.{Instance}
use ocihood.Launch.Guarded.{no_instance}
use ocihood.Discovery.{Discovered}
use ocihood.Notification.{
  Event, EventKind, waiting, degraded, capacity_found, instance_running, paused, resumed,
}
use ocihood.App.Persist.{new_attempt_and_persist, waiting_state}

-- `Result`
pub record RunResult : Type 0 where
  pub account : String
  pub region : String
  pub target_id : String
  pub decision : DecisionKind
  pub attempt : Option Attempt
  pub capacity : CapacityKind
  pub availability_domain : String
  pub instance_id : String
  pub instance_state : String
  pub public_ip : String
  pub policy : PolicyDecision
  pub notification_errors : List String

-- What a run asks of its surroundings.
pub data Effect : Type 0 where
  notified : Event → Effect
  watched : Effect
  -- With the text of the SSH key.
  launched : Decision → CapacityResult → String → Effect

pub record Round : Type 0 where
  pub watch : Io Disk CapacityResult
  -- The instance comes with an error too.
  pub launch : Decision → CapacityResult → String → Disk → (Instance × Option Err) × Disk
  pub random : List ℕ
  pub now : ℕ

-- The runner's settings, and what it reads once.
pub record Runner : Type 0 where
  pub has_watch : Bool
  pub has_launch : Bool
  -- What a notification comes to, where there is a notifier.
  pub notifier : Option (Event → Option Err)
  pub read_ssh_key : Result String
  pub random : List ℕ
  pub now : ℕ

-- A run so far.
pub record Going : Type 0 where
  pub result : RunResult
  pub effects : List Effect
  pub disk : Disk

-- And at its end.
pub record Ended : Type 0 where
  pub going : Going
  pub error : Option Err
  pub is_paused : Bool

abbrev pub no_capacity : CapacityResult
no_capacity = record { kind = CapacityKind.other ""; availability_domain = "" }

abbrev pub act : Effect → Going → Going
act e g = record g { effects = g.effects ++ e ∷ [] }

-- The error text of a notification that failed.
abbrev texts : Option Err → List String
texts none = []
texts (some e) = error_text e ∷ []

abbrev failing : Option Err → Going → Going
failing o g = record g {
  result = record g.result { notification_errors = g.result.notification_errors ++ texts o };
}

abbrev on_notifier : Option (Event → Option Err) → Event → Going → Going
on_notifier none event g = g
on_notifier (some send) event g = failing (send event) (act (notified event) g)

unfoldable pub notify : Runner → Event → Going → Going
notify r event g = on_notifier r.notifier event g

abbrev pub launches : DecisionKind → Bool
launches create = true
launches new_attempt_safe = true
launches retry_same_attempt = true
launches _ = false

abbrev pub ended : Going → Option Err → Option Ended
ended g e = some (record { going = g; error = e; is_paused = false })

abbrev pub is_unavailable : CapacityKind → Bool
is_unavailable unavailable = true
is_unavailable _ = false

abbrev is_gone : Option (LaunchKind × Err) → Bool
is_gone (some (out_of_capacity, _)) = true
is_gone _ = false

abbrev launch_kind_of : Option Err → Option (LaunchKind × Err)
launch_kind_of none = none
launch_kind_of (some e) = as_launch e

-- `errors.As(err, &launchErr) && launchErr.Kind == launch.OutOfCapacity`
unfoldable pub lost_capacity : Option Err → Bool
lost_capacity e = is_gone (launch_kind_of e)

module _ (sha256 : String → String) (r : Runner) (once : Bool) (e : Effective) (d : Discovered)
    (key : String) where
  abbrev pub event : EventKind → String → Event
  event kind detail = record {
    kind = kind;
    account = e.account;
    region = e.region;
    target_id = d.target_id;
    instance_id = "";
    public_ip = "";
    detail = detail;
  }

  abbrev running_event : String → String → Event
  running_event id ip = record (event instance_running "") { instance_id = id; public_ip = ip }

  abbrev pub final_id : Decision → Instance → String
  final_id decision x = if str_eq x.id "" then decision.instance_id else x.id

  abbrev pub filled : Decision → CapacityResult → Instance → Going → Going
  filled decision c x g = record g {
    result = record g.result {
      decision = decision.kind;
      attempt = decision.attempt;
      capacity = c.kind;
      availability_domain = c.availability_domain;
      instance_id = final_id decision x;
      instance_state = x.state;
      public_ip = x.public_ip;
    };
  }

  -- The end without an error.
  unfoldable pub complete : Decision → CapacityResult → Instance → Going → Going
  unfolding notify
  complete decision c x g =
      if str_eq (final_id decision x) ""
      then filled decision c x g
      else notify r (running_event (final_id decision x) x.public_ip) (filled decision c x g)

  abbrev pub Loop : Type 0
  Loop = Bool → Decision → Going → Option Ended

  -- A new attempt, and the next round.
  abbrev pub renewed : Loop → Decision → Going → Result Attempt × Disk → Option Ended
  renewed again decision g (err f, disk) =
      ended (record g { disk = disk }) (some (app_error "state" f))
  renewed again decision g (ok a, disk) =
      again false (record decision { attempt = some a }) (record g { disk = disk })

  -- What follows a launch.
  unfoldable pub after_launch :
      Loop → Round → Decision → CapacityResult → Going → Instance × Option Err → Option Ended
  unfolding complete lost_capacity
  after_launch again round decision c g (x, f) =
      if lost_capacity f && launches decision.kind
      then (let g' = notify r (event degraded "capacity changed before launch") g in
          if once
          then ended
              (complete decision (record { kind = unavailable; availability_domain = "" }) x g')
              none
          else renewed again decision g' (
              new_attempt_and_persist sha256 e.state_dir e.account d.target_id round.random
                round.now g'.disk))
      else elim f [
        | none ↦ ended (complete decision c x g) none
        | some f' ↦ ended g (some (app_error "launch" f'))
      ]

  unfoldable pub launch_step : Loop → Round → Decision → CapacityResult → Going → Option Ended
  unfolding after_launch
  launch_step again round decision c g =
      if not r.has_launch || (not (launches decision.kind) && str_eq decision.instance_id "")
      then ended (complete decision c no_instance g) none
      else (let (answer, disk) = round.launch decision c key g.disk in
          after_launch again round decision c
            (record (act (launched decision c key) g) { disk = disk }) answer)

  -- A wait that is canceled while the store says that it waits is paused.
  unfoldable pub watch_failed : Err → Going → Option Ended
  unfolding notify
  watch_failed f g =
      if (is context_canceled f || is deadline_exceeded f)
        && waiting_state sha256 e.state_dir e.account d.target_id g.disk
      then some (record {
        going = notify r (event paused "capacity watch paused") g;
        error = some (app_error "capacity" f);
        is_paused = true;
      })
      else ended g (some (app_error "capacity" f))

  unfoldable pub after_watch :
      Loop → Round → Decision → Going → Result CapacityResult → Option Ended
  unfolding watch_failed launch_step
  after_watch again round decision g (err f) = watch_failed f g
  after_watch again round decision g (ok c) =
      if once && is_unavailable c.kind
      then ended (complete decision c no_instance g) none
      else launch_step again round decision c
          (notify r (event capacity_found c.availability_domain) g)

  -- One turn of the `for`.
  unfoldable pub turn : Loop → Round → Loop
  unfolding after_watch
  turn again round is_resumed decision g =
      if r.has_watch && launches decision.kind
      then (let g1 =
            if is_resumed then notify r (event resumed "capacity watch resumed") g else g in
          let g2 = act watched (notify r (event waiting "capacity check started") g1) in
          let (c, disk) = round.watch g2.disk in
          after_watch again round decision (record g2 { disk = disk }) c)
      else launch_step again round decision no_capacity g

  unfoldable pub loop : List Round → Loop
  loop [] is_resumed decision g = none
  loop (round ∷ rounds) is_resumed decision g = turn (loop rounds) round is_resumed decision g
