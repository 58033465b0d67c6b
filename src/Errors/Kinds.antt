-- ===== src/Errors/Kinds.antt =====
-- The kinds by which internal/discovery, internal/capacity, internal/launch and
-- internal/provider/oci/auth classify results and errors. In the source each is a string type with
-- constants; `other` holds a string that is none of them, the empty string included.
use ocihood.Base.{String, if◌then◌else◌, str_eq}

pub data DiscoveryKind : Type 0 where
  not_found ambiguous invalid provider canceled : DiscoveryKind

abbrev pub discovery_kind_text : DiscoveryKind → String
discovery_kind_text DiscoveryKind.not_found = "not_found"
discovery_kind_text DiscoveryKind.ambiguous = "ambiguous"
discovery_kind_text DiscoveryKind.invalid = "invalid"
discovery_kind_text DiscoveryKind.provider = "provider"
discovery_kind_text DiscoveryKind.canceled = "canceled"

pub data CapacityKind : Type 0 where
  available unavailable probe_unavailable throttled transient fatal canceled : CapacityKind
  other : String → CapacityKind

unfoldable pub capacity_kind_text : CapacityKind → String
capacity_kind_text CapacityKind.available = "available"
capacity_kind_text CapacityKind.unavailable = "unavailable"
capacity_kind_text CapacityKind.probe_unavailable = "probe_unavailable"
capacity_kind_text CapacityKind.throttled = "throttled"
capacity_kind_text CapacityKind.transient = "transient"
capacity_kind_text CapacityKind.fatal = "fatal"
capacity_kind_text CapacityKind.canceled = "canceled"
capacity_kind_text (CapacityKind.other s) = s

-- `Kind(text)`
unfoldable pub capacity_kind_of : String → CapacityKind
capacity_kind_of s =
    if str_eq s "available"
    then CapacityKind.available
    else if str_eq s "unavailable"
    then CapacityKind.unavailable
    else if str_eq s "probe_unavailable"
    then CapacityKind.probe_unavailable
    else if str_eq s "throttled"
    then CapacityKind.throttled
    else if str_eq s "transient"
    then CapacityKind.transient
    else if str_eq s "fatal"
    then CapacityKind.fatal
    else if str_eq s "canceled"
    then CapacityKind.canceled
    else CapacityKind.other s

pub data LaunchKind : Type 0 where
  accepted out_of_capacity transient ambiguous fatal limit_exceeded canceled : LaunchKind
  -- The zero value, `""`.
  unset : LaunchKind
  other : String → LaunchKind

unfoldable pub launch_kind_text : LaunchKind → String
launch_kind_text LaunchKind.accepted = "accepted"
launch_kind_text LaunchKind.out_of_capacity = "out_of_capacity"
launch_kind_text LaunchKind.transient = "transient"
launch_kind_text LaunchKind.ambiguous = "ambiguous"
launch_kind_text LaunchKind.fatal = "fatal"
launch_kind_text LaunchKind.limit_exceeded = "limit_exceeded"
launch_kind_text LaunchKind.canceled = "canceled"
launch_kind_text LaunchKind.unset = ""
launch_kind_text (LaunchKind.other s) = s

pub data AuthKind : Type 0 where
  local_credentials authentication authorization network canceled : AuthKind

abbrev pub auth_kind_text : AuthKind → String
auth_kind_text AuthKind.local_credentials = "local_credentials"
auth_kind_text AuthKind.authentication = "authentication"
auth_kind_text AuthKind.authorization = "authorization"
auth_kind_text AuthKind.network = "network"
auth_kind_text AuthKind.canceled = "canceled"
