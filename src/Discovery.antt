-- ===== src/Discovery.antt =====
-- internal/discovery/discovery.go: the read-only resolution of the resources that a launch needs.
-- `Provider` is the source's interface: an implementation over a world `W`, which the calls change.
pub mod Samples
pub mod Pages
pub mod Walk
pub mod Sorting
pub mod Order
pub mod Version
pub mod Select
pub mod Unique
pub mod Tasks
pub mod Best
pub mod Newest
pub mod Discover
pub mod Fits
pub mod Sound
pub mod Ends
pub mod Classified
mod Examples
use ocihood.Base.{ℕ, String, Bool, true, false, ◌||◌, Option, none, some, List, if◌then◌else◌, ℤ}
use ocihood.Errors.{Err, message, discovery_error, is, context_canceled, deadline_exceeded}
use ocihood.Errors.Kinds.{DiscoveryKind, provider}
use ocihood.Io.{Result, ok, err, Io}
use ocihood.Reconcile.{Instance}

pub record Page {ℓ} (A : Type ℓ) : Type ℓ where
  pub items : List A
  pub next : String

pub record Image : Type 0 where
  pub id : String
  pub name : String
  pub compartment_id : String
  pub operating_system : String
  pub os_version : String
  pub created_at : ℕ

pub record Shape : Type 0 where
  pub name : String
  pub architecture : String

pub record Vcn : Type 0 where
  pub id : String
  pub name : String
  pub compartment_id : String

pub record Subnet : Type 0 where
  pub id : String
  pub name : String
  pub compartment_id : String
  pub vcn_id : String
  pub availability_domain : String
  pub allows_public_ip : Bool

pub record Query : Type 0 where
  pub compartment_id : String
  pub shape : String
  pub vcn_id : String

-- The instances are those of internal/reconcile at once: discovery copies them field by field.
pub record Provider (W : Type 0) : Type 0 where
  pub availability_domains : String → Io W (List String)
  pub shapes : Query → String → Io W (Page Shape)
  pub images : Query → String → Io W (Page Image)
  pub vcns : Query → String → Io W (Page Vcn)
  pub subnets : Query → String → Io W (Page Subnet)
  pub instances : String → String → Io W (Page Instance)
  -- `ctx.Err()`
  pub ctx_error : W → Option Err

pub record Input : Type 0 where
  pub account : String
  pub tenancy_id : String
  pub compartment_id : String
  pub region : String
  pub shape : String
  pub ocpus : ℤ
  pub memory_gb : ℤ
  pub boot_volume_gb : ℤ
  pub image_id : String
  pub vcn_id : String
  pub vcn_name : String
  pub subnet_id : String
  pub subnet_name : String
  pub public_ip : Bool

-- `Result`
pub record Discovered : Type 0 where
  pub account : String
  pub tenancy_id : String
  pub compartment_id : String
  pub region : String
  pub shape_architecture : String
  pub availability_domains : List String
  pub image : Image
  pub vcn : Vcn
  pub subnet : Subnet
  pub target_id : String
  pub instances : List Instance

abbrev pub fail : DiscoveryKind → String → String → Err
fail kind stage text = discovery_error kind stage (message text)

unfoldable pub wrap : String → Err → Err
wrap stage e =
    discovery_error
      (if is context_canceled e || is deadline_exceeded e then DiscoveryKind.canceled else provider)
      stage e

-- A step that may fail, or still be going where its rounds run out.
abbrev pub Task : Type 0 → Type 0 → Type 0
Task W A = W → Option (Result A × W)

abbrev pub go_on : {W A B : Type 0} → Option (Result A × W) → (A → Task W B) → Option (Result B × W)
go_on none f = none
go_on (some (ok a, w)) f = f a w
go_on (some (err e, w)) f = some (err e, w)

-- `if err != nil { return Result{}, err }` after such a step.
infixl 5 ◌>>=◌
abbrev pub ◌>>=◌ : {W A B : Type 0} → Task W A → (A → Task W B) → Task W B
◌>>=◌ m f w = go_on (m w) f

abbrev pub lift : {W A : Type 0} → Result A → Task W A
lift r w = some (r, w)
