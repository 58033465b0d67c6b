-- ===== src/Capacity.antt =====
-- internal/capacity/capacity.go: the watcher that waits for advisory capacity, its data and its
-- delays. `Float64` stands for Go's floating-point numbers, with the operations that the jitter uses.
pub mod Watch
pub mod Backoff
pub mod Once
pub mod Saves
pub mod Sleeps
pub mod Store
pub mod Guarded
pub mod Samples
mod Examples
use ocihood.Base.{
  ℕ, zero, suc, ◌-◌, String, Bool, true, false, ◌||◌, not, Option, none, some, List, str_eq,
  if◌then◌else◌, ℤ, pos, lt_int, le_int, half, double, pos_part, length, ◌==◌,
}
use ocihood.Errors.{Err, message, sentinel, context_canceled, capacity_error}
use ocihood.Errors.Kinds.{CapacityKind, other, canceled}

pub record Request : Type 0 where
  pub tenancy_id : String
  pub availability_domain : String
  pub shape : String
  pub ocpus : ℤ
  pub memory_gb : ℤ

pub record ProbeResult : Type 0 where
  pub kind : CapacityKind
  pub retry_after : ℤ

pub record WatchState : Type 0 where
  pub target_id : String
  pub last_ad : String
  pub next_ad : ℤ
  pub retry_count : ℤ
  pub next_attempt : ℕ
  pub status : CapacityKind

pub record Input : Type 0 where
  pub target_id : String
  pub tenancy_id : String
  pub shape : String
  pub availability_domains : List String
  pub ocpus : ℤ
  pub memory_gb : ℤ
  pub resume : WatchState
  pub once : Bool

pub record CapacityResult : Type 0 where
  pub kind : CapacityKind
  pub availability_domain : String

pub record Float64 : Type 1 where
  pub F : Type 0
  pub zero : F
  pub one : F
  pub two : F
  pub add : F → F → F
  pub sub : F → F → F
  pub mul : F → F → F
  pub lt : F → F → Bool
  -- `float64(d)` and `time.Duration(x)`
  pub of_duration : ℤ → F
  pub to_duration : F → ℤ

-- The loop of `backoff`, by the rounds left.
unfoldable pub grow : ℕ → ℤ → ℤ → ℤ
grow zero d maximum = d
grow (suc n) d maximum =
    let next = grow n (if lt_int (half maximum) d then maximum else double d) maximum in
    if lt_int d maximum then next else d

-- `canceled(err)`
abbrev pub canceled_error : Option Err → Err
canceled_error none = capacity_error canceled "" (sentinel context_canceled)
canceled_error (some e) = capacity_error canceled "" e

module _ (float : Float64) where
  open float use {F, one, two, add, sub, mul, lt, of_duration, to_duration}

  pub record Config : Type 0 where
    pub request_timeout : ℤ
    pub initial_interval : ℤ
    pub max_interval : ℤ
    pub jitter : F

  unfoldable pub backoff : Config → ℤ → F → ℤ
  backoff c retry random =
      let delay = grow (pos_part retry - 1) c.initial_interval c.max_interval in
      let factor = add (sub one c.jitter) (mul (mul two c.jitter) random) in
      let jittered = to_duration (mul (of_duration delay) factor) in
      if lt_int c.max_interval jittered then c.max_interval else jittered

  -- `complete`: the client, the store, the sleeper, the random source and the clock are there.
  unfoldable pub validate : Bool → Config → Input → Option Err
  validate complete c i =
      if not complete
        || length i.availability_domains == 0
        || str_eq i.target_id ""
        || str_eq i.tenancy_id ""
        || str_eq i.shape ""
        || le_int i.ocpus (pos 0)
        || le_int i.memory_gb (pos 0)
      then some (message "complete watcher dependencies and capacity input are required")
      else if le_int c.request_timeout (pos 0)
          || le_int c.initial_interval (pos 0)
          || lt_int c.max_interval c.initial_interval
          || lt c.jitter float.zero
          || lt one c.jitter
      then some (message "invalid watcher timeout, retry, or jitter configuration")
      else none
