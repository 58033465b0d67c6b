-- ===== src/State.antt =====
-- internal/state/state.go: the durable record of one account and target, and its validity. The store
-- is in State/Store.antt, over the disk of State/Disk.antt.
pub mod Disk
pub mod Store
pub mod RoundTrip
pub mod Durability
pub mod Locking
pub mod Sessions
pub mod Samples
mod Examples
use ocihood.Base.{
  ℕ, String, Bool, true, false, ◌||◌, not, Option, none, some, str_eq, if◌then◌else◌, is_blank, ℤ,
  pos,
}
use ocihood.Errors.{Err, message}
use ocihood.Time.{is_zero}
use ocihood.Reconcile.{Attempt}
use ocihood.Reconcile

abbrev pub schema_version : ℤ
schema_version = pos 1

-- A string type in the source; `other` holds a text that is none of the constants.
pub data Lifecycle : Type 0 where
  discovered waiting provisioning running failed : Lifecycle
  other : String → Lifecycle

pub record LocalState : Type 0 where
  pub schema_version : ℤ
  pub account : String
  pub lifecycle : Lifecycle
  pub target_id : String
  pub attempt_id : String
  pub retry_token : String
  pub attempt_valid_to : ℕ
  pub last_attempt : ℕ
  pub last_result : String
  pub selected_ad : String
  pub retry_count : ℤ
  pub next_attempt : ℕ
  pub instance_id : String
  pub public_ip : String
  pub last_error : String
  pub updated_at : ℕ

-- `State{}`
abbrev pub zero_state : LocalState
zero_state = record {
  schema_version = pos 0;
  account = "";
  lifecycle = other "";
  target_id = "";
  attempt_id = "";
  retry_token = "";
  attempt_valid_to = 0;
  last_attempt = 0;
  last_result = "";
  selected_ad = "";
  retry_count = pos 0;
  next_attempt = 0;
  instance_id = "";
  public_ip = "";
  last_error = "";
  updated_at = 0;
}

unfoldable pub reconcile_state : LocalState → Reconcile.State
reconcile_state s = record {
  target_id = s.target_id;
  instance_id = s.instance_id;
  attempt =
      if not (str_eq s.attempt_id "")
        || not (str_eq s.retry_token "")
        || not (is_zero s.attempt_valid_to)
      then some (record {
        id = s.attempt_id;
        retry_token = s.retry_token;
        valid_until = s.attempt_valid_to;
      })
      else none;
}

abbrev is_known : Lifecycle → Bool
is_known (other _) = false
is_known _ = true

unfoldable pub validate : LocalState → Option Err
validate s =
    if is_blank s.account || is_blank s.target_id
    then some (message "state account and target_id are required")
    else if not (is_known s.lifecycle)
    then some (message "unsupported state lifecycle")
    else if is_zero s.updated_at
    then some (message "state updated_at is required")
    else none
