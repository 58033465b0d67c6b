-- ===== src/Errors.antt =====
-- Go's `error` values as one data type, with `errors.Is`, `errors.As` and `Error()`.
-- A constructor stands for each error type of the packages, for the sentinels that they test, and for
-- `fmt.Errorf` with `%w` (`wrapped`) and `errors.Join` (`joined`).
pub mod Kinds
use ocihood.Base.{
  ℕ, String, Bool, true, false, Option, none, some, List, [], ◌∷◌, ◌^^◌, is_some, or_else, str_eq,
}
use Kinds.{
  DiscoveryKind, discovery_kind_text, CapacityKind, capacity_kind_text, LaunchKind,
  launch_kind_text, AuthKind, auth_kind_text,
}

-- The values that `errors.Is` is asked about.
pub data Sentinel : Type 0 where
  context_canceled deadline_exceeded not_exist no_local_state open_state too_many_requests :
      Sentinel

abbrev pub same_sentinel : Sentinel → Sentinel → Bool
same_sentinel context_canceled context_canceled = true
same_sentinel deadline_exceeded deadline_exceeded = true
same_sentinel not_exist not_exist = true
same_sentinel no_local_state no_local_state = true
same_sentinel open_state open_state = true
same_sentinel too_many_requests too_many_requests = true
same_sentinel _ _ = false

pub data Err : Type 0 where
  -- A nil error inside a wrapper, such as `&Error{Kind: Fatal, Err: nil}`.
  nil_error : Err
  message : String → Err
  sentinel : Sentinel → Err
  -- An OCI service error: HTTP status, code and text.
  service : ℕ → String → String → Err
  -- A `net.Error`: whether it is a timeout, and its text.
  network : Bool → String → Err
  wrapped : String → Err → Err
  joined : Err → Err → Err
  app_error : String → Err → Err
  discovery_error : DiscoveryKind → String → Err → Err
  capacity_error : CapacityKind → String → Err → Err
  launch_error : LaunchKind → Err → Err
  auth_error : AuthKind → String → Err → Err
  -- `breaker.OpenError`, by its name.
  open_error : String → Err
  -- `breaker.outcome`: whether it counts as a failure, and the error that it marks.
  outcome : Bool → Err → Err

-- A nil-able error as the inner value of a wrapper.
abbrev pub inner : Option Err → Err
inner none = nil_error
inner (some e) = e

-- And back: what `Unwrap` of the wrapper gives.
abbrev pub outer : Err → Option Err
outer nil_error = none
outer e = some e

-- `errors.As`: the first error of the chain that the pattern accepts, the first branch of a join first.
unfoldable pub find_as {ℓ} : {A : Type ℓ} → (Err → Option A) → Err → Option A
find_as p nil_error = none
find_as p (message s) = p (message s)
find_as p (sentinel s) = p (sentinel s)
find_as p (service status code text) = p (service status code text)
find_as p (network timeout text) = p (network timeout text)
find_as p (wrapped s e) = or_else (p (wrapped s e)) (find_as p e)
find_as p (joined d e) = or_else (p (joined d e)) (or_else (find_as p d) (find_as p e))
find_as p (app_error s e) = or_else (p (app_error s e)) (find_as p e)
find_as p (discovery_error k s e) = or_else (p (discovery_error k s e)) (find_as p e)
find_as p (capacity_error k s e) = or_else (p (capacity_error k s e)) (find_as p e)
find_as p (launch_error k e) = or_else (p (launch_error k e)) (find_as p e)
find_as p (auth_error k s e) = or_else (p (auth_error k s e)) (find_as p e)
find_as p (open_error s) = p (open_error s)
find_as p (outcome b e) = or_else (p (outcome b e)) (find_as p e)

abbrev is_sentinel : Sentinel → Err → Option (Unit {0})
is_sentinel s (sentinel t) = elim (same_sentinel s t) [ true ↦ some tt | false ↦ none ]
is_sentinel s _ = none

-- `errors.Is(e, s)`
unfoldable pub is : Sentinel → Err → Bool
unfolding find_as
is s e = is_some (find_as (is_sentinel s) e)

abbrev the_launch : Err → Option (LaunchKind × Err)
the_launch (launch_error k e) = some (k, e)
the_launch _ = none

unfoldable pub as_launch : Err → Option (LaunchKind × Err)
unfolding find_as
as_launch = find_as the_launch

abbrev the_capacity : Err → Option (CapacityKind × Err)
the_capacity (capacity_error k _ e) = some (k, e)
the_capacity _ = none

unfoldable pub as_capacity : Err → Option (CapacityKind × Err)
unfolding find_as
as_capacity = find_as the_capacity

abbrev the_discovery : Err → Option (DiscoveryKind × Err)
the_discovery (discovery_error k _ e) = some (k, e)
the_discovery _ = none

unfoldable pub as_discovery : Err → Option (DiscoveryKind × Err)
unfolding find_as
as_discovery = find_as the_discovery

abbrev the_app : Err → Option String
the_app (app_error phase _) = some phase
the_app _ = none

unfoldable pub as_app : Err → Option String
unfolding find_as
as_app = find_as the_app

abbrev the_open : Err → Option String
the_open (open_error s) = some s
the_open _ = none

unfoldable pub as_open : Err → Option String
unfolding find_as
as_open = find_as the_open

abbrev the_outcome : Err → Option (Bool × Err)
the_outcome (outcome b e) = some (b, e)
the_outcome _ = none

unfoldable pub as_outcome : Err → Option (Bool × Err)
unfolding find_as
as_outcome = find_as the_outcome

abbrev the_service : Err → Option (ℕ × String)
the_service (service status code _) = some (status, code)
the_service _ = none

unfoldable pub as_service : Err → Option (ℕ × String)
unfolding find_as
as_service = find_as the_service

-- `context.DeadlineExceeded` is a `net.Error` too, and a timeout.
abbrev the_network : Err → Option Bool
the_network (network timeout _) = some timeout
the_network (sentinel deadline_exceeded) = some true
the_network _ = none

unfoldable pub as_network : Err → Option Bool
unfolding find_as
as_network = find_as the_network

abbrev sentinel_text : Sentinel → String
sentinel_text context_canceled = "context canceled"
sentinel_text deadline_exceeded = "context deadline exceeded"
sentinel_text not_exist = "file does not exist"
sentinel_text no_local_state = "no local state"
sentinel_text open_state = "circuit breaker is open"
sentinel_text too_many_requests = "too many requests"

-- `Error()`
unfoldable pub error_text : Err → String
unfolding capacity_kind_text launch_kind_text
error_text nil_error = "<nil>"
error_text (message s) = s
error_text (sentinel s) = sentinel_text s
error_text (service _ _ text) = text
error_text (network _ text) = text
error_text (wrapped s e) = s ^^ ": " ^^ error_text e
error_text (joined d e) = error_text d ^^ "\n" ^^ error_text e
error_text (app_error phase e) = phase ^^ ": " ^^ error_text e
error_text (discovery_error k stage e) =
    "discover " ^^ stage ^^ " failed (" ^^ discovery_kind_text k ^^ "): " ^^ error_text e
error_text (capacity_error k ad e) =
    "capacity probe " ^^ ad ^^ " failed (" ^^ capacity_kind_text k ^^ "): " ^^ error_text e
error_text (launch_error k e) =
    "instance launch failed (" ^^ launch_kind_text k ^^ "): " ^^ error_text e
error_text (auth_error k op _) =
    "oci authentication " ^^ op ^^ " failed (" ^^ auth_kind_text k ^^ ")"
error_text (open_error s) = "OCI circuit breaker " ^^ s ^^ " is open"
error_text (outcome _ nil_error) = "excluded circuit breaker outcome"
error_text (outcome _ e) = error_text e
