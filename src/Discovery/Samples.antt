-- ===== src/Discovery/Samples.antt =====
-- A discovered target to try the definitions on.
use ocihood.Base.{true, [], ◌∷◌}
use ocihood.Discovery.{Discovered}

abbrev pub a_target : Discovered
a_target = record {
  account = "home";
  tenancy_id = "tenancy";
  compartment_id = "c1";
  region = "eu-1";
  shape_architecture = "arm64";
  availability_domains = "ad-1" ∷ "ad-2" ∷ [];
  image = record {
    id = "img";
    name = "ubuntu";
    compartment_id = "c1";
    operating_system = "Ubuntu";
    os_version = "24.04";
    created_at = 0;
  };
  vcn = record { id = "v1"; name = "main"; compartment_id = "c1" };
  subnet = record {
    id = "s1";
    name = "public";
    compartment_id = "c1";
    vcn_id = "v1";
    availability_domain = "";
    allows_public_ip = true;
  };
  target_id = "target";
  instances = [];
}
