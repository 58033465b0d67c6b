-- ===== src/Oci/Resources.antt =====
-- internal/provider/oci/discovery/discovery.go: the read-only adapter, an implementation of the
-- `Provider` of discovery.
use ocihood.Base.{
  ℕ, String, Bool, true, not, ◌||◌, Option, none, some, List, [], ◌∷◌, map, str_eq, if◌then◌else◌,
  contains, to_lower,
}
use ocihood.Errors.{Err}
use ocihood.Io.{Io, ◌>>=◌, pure}
use ocihood.Reconcile
use ocihood.Reconcile.{Lifecycle, unknown, active, terminated}
use ocihood.Discovery.{Page, Image, Shape, Vcn, Subnet, Provider}
use ocihood.Oci.{value, optional, Response, SdkInstance, terminated_state}

pub record SdkShape : Type 0 where
  pub shape : Option String
  pub processor_description : Option String

pub record SdkImage : Type 0 where
  pub id : Option String
  pub display_name : Option String
  pub compartment_id : Option String
  pub operating_system : Option String
  pub operating_system_version : Option String
  pub time_created : Option ℕ

pub record SdkVcn : Type 0 where
  pub id : Option String
  pub display_name : Option String
  pub compartment_id : Option String

pub record SdkSubnet : Type 0 where
  pub id : Option String
  pub display_name : Option String
  pub compartment_id : Option String
  pub vcn_id : Option String
  pub availability_domain : Option String
  pub prohibit_public_ip_on_vnic : Option Bool

-- The SDK's calls, each by the request's fields: the compartment, then the filters, then the page.
-- Images, VCNs and subnets are asked for in their state `AVAILABLE`.
pub record Readers (W : Type 0) : Type 0 where
  pub list_availability_domains : String → Io W (List (Option String))
  pub list_shapes : String → Option String → Option String → Io W (Response SdkShape)
  pub list_images : String → Option String → Option String → Io W (Response SdkImage)
  pub list_vcns : String → Option String → Io W (Response SdkVcn)
  pub list_subnets : String → String → Option String → Io W (Response SdkSubnet)
  pub list_instances : String → Option String → Io W (Response SdkInstance)
  pub ctx_error : W → Option Err

unfoldable pub lifecycle : String → Lifecycle
lifecycle state =
    if str_eq state terminated_state
    then terminated
    else if str_eq state "RUNNING"
        || str_eq state "STARTING"
        || str_eq state "STOPPING"
        || str_eq state "STOPPED"
    then active
    else unknown

unfoldable pub architecture : String → String
architecture processor =
    let p = to_lower processor in
    if contains p "ampere" || contains p "arm"
    then "aarch64"
    else if contains p "amd" || contains p "epyc" || contains p "intel" || contains p "xeon"
    then "x86_64"
    else ""

unfoldable pub named : List (Option String) → List String
named [] = []
named (none ∷ xs) = named xs
named (some s ∷ xs) = s ∷ named xs

abbrev pub of_shape : SdkShape → Shape
of_shape x = record {
  name = value x.shape;
  architecture = architecture (value x.processor_description);
}

abbrev time_of : Option ℕ → ℕ
time_of none = 0
time_of (some t) = t

abbrev pub of_image : SdkImage → Image
of_image x = record {
  id = value x.id;
  name = value x.display_name;
  compartment_id = value x.compartment_id;
  operating_system = value x.operating_system;
  os_version = value x.operating_system_version;
  created_at = time_of x.time_created;
}

abbrev pub of_vcn : SdkVcn → Vcn
of_vcn x = record {
  id = value x.id;
  name = value x.display_name;
  compartment_id = value x.compartment_id;
}

abbrev allows : Option Bool → Bool
allows none = true
allows (some prohibited) = not prohibited

abbrev pub of_subnet : SdkSubnet → Subnet
of_subnet x = record {
  id = value x.id;
  name = value x.display_name;
  compartment_id = value x.compartment_id;
  vcn_id = value x.vcn_id;
  availability_domain = value x.availability_domain;
  allows_public_ip = allows x.prohibit_public_ip_on_vnic;
}

abbrev pub of_instance : SdkInstance → Reconcile.Instance
of_instance x = record {
  id = value x.id;
  lifecycle = lifecycle x.lifecycle_state;
  tags = x.freeform_tags;
}

abbrev pub page_of : {A B : Type 0} → (A → B) → Response A → Page B
page_of f r = record { items = map f r.items; next = value r.opc_next_page }

unfoldable pub adapter : {W : Type 0} → Readers W → Provider W
unfolding named
adapter r = record {
  availability_domains = λ tenancy. r.list_availability_domains tenancy >>= λ xs. pure (named xs);
  shapes = λ q page. r.list_shapes q.compartment_id (optional q.shape) (optional page) >>= λ x.
      pure (page_of of_shape x);
  images = λ q page. r.list_images q.compartment_id (optional q.shape) (optional page) >>= λ x.
      pure (page_of of_image x);
  vcns = λ q page. r.list_vcns q.compartment_id (optional page) >>= λ x. pure (page_of of_vcn x);
  subnets = λ q page.
      r.list_subnets q.compartment_id q.vcn_id (optional page) >>= λ x. pure (page_of of_subnet x);
  instances = λ compartment page.
      r.list_instances compartment (optional page) >>= λ x. pure (page_of of_instance x);
  ctx_error = r.ctx_error;
}
