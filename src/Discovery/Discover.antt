-- ===== src/Discovery/Discover.antt =====
-- internal/discovery/discovery.go: `validate`, `ListImages` and `Discover`. Each listing has at most
-- `fuel` pages. Go ranges over the required values in any order: where several are blank, the error
-- names one of them, here the first.
use ocihood.Base.{
  ℕ, String, Bool, ◌&&◌, ◌||◌, not, Option, none, some, List, [], ◌∷◌, ◌^^◌, str_eq, if◌then◌else◌,
  is_blank, or_else, pos, le_int,
}
use ocihood.Errors.{Err}
use ocihood.Errors.Kinds.{not_found, invalid}
use ocihood.Io.{Result, ok, err, to_result}
use ocihood.Reconcile.{Instance}
use ocihood.Reconcile.Identity.{Target, target_id}
use ocihood.Discovery.{
  Image, Shape, Vcn, Subnet, Query, Provider, Input, Discovered, Task, ◌>>=◌, lift, fail, wrap,
}
use ocihood.Discovery.Pages.{all}
use ocihood.Discovery.Sorting.{text_lt, sort, newer, id_lt}
use ocihood.Discovery.Select.{select_shape, select_image, select_vcn, select_subnet}

abbrev pub required : Input → List (String × String)
required i =
    ("account", i.account)
    ∷ ("tenancy", i.tenancy_id)
    ∷ ("compartment", i.compartment_id)
    ∷ ("region", i.region)
    ∷ ("shape", i.shape)
    ∷ []

unfoldable pub blank_fault : List (String × String) → Option Err
blank_fault [] = none
blank_fault ((name, value) ∷ rest) =
    let later = blank_fault rest in
    if is_blank value then some (fail invalid "input" (name ^^ " is required")) else later

abbrev given : String → Bool
given s = not (str_eq s "")

unfoldable pub validate : Input → Option Err
unfolding blank_fault
validate i = or_else (blank_fault (required i)) (
    if le_int i.ocpus (pos 0) || le_int i.memory_gb (pos 0) || le_int i.boot_volume_gb (pos 0)
    then some (fail invalid "input" "ocpus, memory_gb and boot_volume_gb must be positive")
    else if is_blank i.image_id
    then some (
        fail invalid "image selection"
          "image_id is required; run `ocihood images list` and check the value")
    else if given i.vcn_id && given i.vcn_name
    then some (fail invalid "input" "vcn_id and vcn_name are mutually exclusive")
    else if given i.subnet_id && given i.subnet_name
    then some (fail invalid "input" "subnet_id and subnet_name are mutually exclusive")
    else none)

abbrev pub target_of : Input → String → String → Target
target_of i subnet_id image_id = record {
  account = i.account;
  region = i.region;
  compartment_id = i.compartment_id;
  subnet_id = subnet_id;
  image_id = image_id;
  shape = i.shape;
  ocpus = i.ocpus;
  memory_gb = i.memory_gb;
  boot_volume_gb = i.boot_volume_gb;
  public_ip = i.public_ip;
}

abbrev pub shape_query : Input → Query
shape_query i = record { compartment_id = i.compartment_id; shape = i.shape; vcn_id = "" }

abbrev pub vcn_query : Input → String → Query
vcn_query i vcn_id = record { compartment_id = i.compartment_id; shape = ""; vcn_id = vcn_id }

module _ {W : Type 0} (p : Provider W) (fuel : ℕ) where
  unfoldable pub list_images : Query → Task W (List Image)
  list_images q =
      all p.ctx_error "images" (p.images q) fuel >>= λ images. lift (ok (sort newer images))

  unfoldable pub on_domains : Result (List String) × W → Option (Result (List String) × W)
  on_domains (err e, w) = some (err (wrap "availability domains" e), w)
  on_domains (ok [], w) =
      some (err (fail not_found "availability domains" "no availability domains found"), w)
  on_domains (ok (a ∷ rest), w) = some (ok (sort text_lt (a ∷ rest)), w)

  module _ (i : Input) where
    unfoldable pub find_domains : Task W (List String)
    unfolding on_domains
    find_domains w = on_domains (p.availability_domains i.tenancy_id w)

    unfoldable pub find_shape : Task W Shape
    find_shape = all p.ctx_error "shapes" (p.shapes (shape_query i)) fuel >>= λ shapes.
        lift (select_shape shapes i.shape)

    unfoldable pub find_image : Task W Image
    find_image = list_images (shape_query i) >>= λ images.
        lift (select_image images i.image_id i.compartment_id)

    unfoldable pub find_vcn : Task W Vcn
    find_vcn =
        all p.ctx_error "VCNs" (p.vcns (vcn_query i "")) fuel >>= λ vcns. lift (select_vcn vcns i)

    unfoldable pub find_subnet : String → Task W Subnet
    find_subnet vcn_id =
        all p.ctx_error "subnets" (p.subnets (vcn_query i vcn_id)) fuel >>= λ subnets.
        lift (select_subnet subnets i vcn_id)

    unfoldable pub find_instances : Task W (List Instance)
    find_instances = all p.ctx_error "instances" (p.instances i.compartment_id) fuel >>= λ observed.
        lift (ok (sort id_lt observed))

    abbrev pub discovered :
        (String → String) → List String → Shape → Image → Vcn → Subnet → List Instance → Discovered
    discovered sha256 domains shape image vcn subnet instances = record {
      account = i.account;
      tenancy_id = i.tenancy_id;
      compartment_id = i.compartment_id;
      region = i.region;
      shape_architecture = shape.architecture;
      availability_domains = domains;
      image = image;
      vcn = vcn;
      subnet = subnet;
      target_id = target_id sha256 (target_of i subnet.id image.id);
      instances = instances;
    }

    unfoldable pub discover : (String → String) → Task W Discovered
    discover sha256 = do
      _ ← lift (to_result (validate i))
      domains ← find_domains
      shape ← find_shape
      image ← find_image
      vcn ← find_vcn
      subnet ← find_subnet vcn.id
      instances ← find_instances
      lift (ok (discovered sha256 domains shape image vcn subnet instances))
