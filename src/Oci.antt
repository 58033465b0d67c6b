-- ===== src/Oci.antt =====
-- internal/provider/oci: the adapters between the OCI SDK and the interfaces of discovery, launch,
-- capacity and authentication. The SDK's calls are parameters, over a world `W` that they change; of
-- its requests and responses the model has the fields that the adapters write and read.
pub mod Resources
pub mod Alive
pub mod Compute
pub mod Owned
pub mod Reports
pub mod Kinds
pub mod Session
mod Examples
use ocihood.Base.{ℕ, String, Bool, Option, none, some, List, str_eq, if◌then◌else◌}
use ocihood.Reconcile.{Tags}

-- `value`: a text that may be missing.
abbrev pub value : Option String → String
value none = ""
value (some s) = s

-- `optional`
abbrev pub optional : String → Option String
optional s = if str_eq s "" then none else some s

-- A response of the SDK with a list: its items and `OpcNextPage`.
pub record Response (A : Type 0) : Type 0 where
  pub items : List A
  pub opc_next_page : Option String

-- `core.Instance`
pub record SdkInstance : Type 0 where
  pub id : Option String
  pub lifecycle_state : String
  pub freeform_tags : Tags

abbrev pub terminated_state : String
terminated_state = "TERMINATED"
