-- ===== src/Launch.antt =====
-- internal/launch/launch.go: the orchestrator that turns a reconciled target into a running instance.
-- What the provider, the store, the sleeper and the context answer is given round by round; what the
-- orchestrator asks of them is the list of effects. Where the rounds run out the run is still going.
pub mod Backoff
pub mod Run
pub mod Poll
pub mod Budget
pub mod Effects
pub mod Lookup
pub mod Finish
pub mod Store
pub mod Guarded
mod Examples
use ocihood.Base.{
  ℕ, zero, suc, String, Bool, true, false, ◌&&◌, ◌||◌, not, Option, none, some, List, [], ◌∷◌, ◌++◌,
  str_eq, if◌then◌else◌, ℤ, pos, lt_int, le_int, eq_int, half, double, ◌^^◌,
}
use ocihood.Errors.{Err, message, wrapped, joined, launch_error, inner, as_launch}
use ocihood.Errors.Kinds.{
  LaunchKind, accepted, out_of_capacity, transient, ambiguous, fatal, limit_exceeded, canceled,
  unset, other,
}
use ocihood.Io.{Result, ok, err}
use ocihood.Reconcile.{Attempt}

pub record Request : Type 0 where
  pub target_id : String
  pub account : String
  pub compartment_id : String
  pub availability_domain : String
  pub shape : String
  pub image_id : String
  pub subnet_id : String
  pub ssh_public_key : String
  pub ocpus : ℤ
  pub memory_gb : ℤ
  pub boot_volume_gb : ℤ
  pub public_ip : Bool
  pub attempt : Attempt

pub record Instance : Type 0 where
  pub id : String
  pub state : String
  pub public_ip : String

pub record LaunchResult : Type 0 where
  pub kind : LaunchKind
  pub instance : Instance
  pub retry_after : ℤ

pub record Input : Type 0 where
  pub request : Request
  pub existing_instance_id : String
  pub request_timeout : ℤ
  pub retry_min : ℤ
  pub retry_max : ℤ

-- The loop of `backoff`, by the rounds left.
unfoldable pub backoff_from : ℕ → ℤ → ℤ → ℤ
backoff_from zero d maximum = if lt_int maximum d then maximum else d
backoff_from (suc n) d maximum =
    let next = backoff_from n (double d) maximum in
    if lt_int d maximum
    then (if lt_int (half maximum) d then maximum else next)
    else if lt_int maximum d
    then maximum
    else d

unfoldable pub backoff : ℤ → ℤ → ℕ → ℤ
unfolding backoff_from
backoff minimum maximum retry = backoff_from retry minimum maximum

pub data Effect : Type 0 where
  launched reconciled : Request → Effect
  got : String → Effect
  stored_accepted : String → Effect
  stored_finished : Instance → Effect
  stored_failed : Err → Effect
  slept : ℤ → Effect

-- The answers to one round of the launch loop.
pub record LaunchRound : Type 0 where
  pub result : LaunchResult
  pub error : Option Err
  -- `requestCtx.Err() == context.DeadlineExceeded`
  pub timed_out : Bool
  -- `ctx.Err()` after the call.
  pub ctx_error : Option Err
  pub accepted_error : Option Err
  pub found_instance : Instance
  pub found : Bool
  pub reconcile_error : Option Err
  pub reconcile_ctx_error : Option Err
  pub failed_error : Option Err
  pub sleep_error : Option Err

-- The answers to one round of the wait for a public address.
pub record LookupRound : Type 0 where
  pub sleep_error : Option Err
  pub instance : Instance
  pub error : Option Err
  pub ctx_error : Option Err

-- The answers to one round of the lifecycle loop.
pub record PollRound : Type 0 where
  pub instance : Instance
  pub error : Option Err
  pub ctx_error : Option Err
  pub lookups : List LookupRound
  pub finished_error : Option Err
  pub failed_error : Option Err
  pub sleep_error : Option Err

-- `o.failed(cause)`: the error that is returned, by the answer of the store.
abbrev pub failed : Err → Option Err → Err
failed cause none = cause
failed cause (some e) = joined cause (wrapped "persist failed instance" e)
