-- ===== src/Discovery/Fits.antt =====
-- internal/discovery/discovery.go: what the selections of an image, a VCN and a subnet admit, in terms
-- of the configuration alone.
use ocihood.Base.{String, true, ◌≡◌, ◌⊎◌, eq_iff, arith}
use ocihood.Discovery.{Image, Vcn, Subnet, Input}
use ocihood.Discovery.Select.{agrees, is_image, is_vcn, is_subnet}

-- A name or an id that is not configured, or is the candidate's own.
abbrev pub Agrees : String → String → Type 0
Agrees given own = (given ≡ "") ⊎ (own ≡ given)

abbrev pub FitsVcn : Input → Vcn → Type 0
FitsVcn i x =
    (x.compartment_id ≡ i.compartment_id) × Agrees i.vcn_id x.id × Agrees i.vcn_name x.name

abbrev pub FitsSubnet : Input → String → Subnet → Type 0
FitsSubnet i vcn_id x =
    (x.compartment_id ≡ i.compartment_id)
    × (x.vcn_id ≡ vcn_id)
    × Agrees i.subnet_id x.id
    × Agrees i.subnet_name x.name
    × (i.public_ip ≡ true → x.allows_public_ip ≡ true)

-- The image of this id, of the provider or of the compartment.
abbrev pub IsNamed : String → String → Image → Type 0
IsNamed id compartment_id x =
    (x.id ≡ id) × ((x.compartment_id ≡ "") ⊎ (x.compartment_id ≡ compartment_id))

agrees-Agrees : (given own : String) → agrees given own ≡ true → Agrees given own
agrees-Agrees given own h = ground (arith, eq_iff given "", eq_iff own given)

pub is_vcn-FitsVcn : (i : Input) (x : Vcn) → is_vcn i x ≡ true → FitsVcn i x
is_vcn-FitsVcn i x h = ground (
  arith,
  eq_iff x.compartment_id i.compartment_id,
  agrees-Agrees i.vcn_id x.id,
  agrees-Agrees i.vcn_name x.name,
)

pub is_subnet-FitsSubnet :
    (i : Input) (vcn_id : String) (x : Subnet) → is_subnet i vcn_id x ≡ true → FitsSubnet i vcn_id x
is_subnet-FitsSubnet i vcn_id x h = ground (
  arith,
  eq_iff x.compartment_id i.compartment_id,
  eq_iff x.vcn_id vcn_id,
  agrees-Agrees i.subnet_id x.id,
  agrees-Agrees i.subnet_name x.name,
)

pub is_image-IsNamed :
    (id compartment_id : String) (x : Image)
    → is_image id compartment_id x ≡ true
    → IsNamed id compartment_id x
is_image-IsNamed id compartment_id x h =
    ground
      (arith, eq_iff x.id id, eq_iff x.compartment_id "", eq_iff x.compartment_id compartment_id)
