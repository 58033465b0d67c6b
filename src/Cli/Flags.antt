-- ===== src/Cli/Flags.antt =====
-- internal/cli/cli.go: `overrides` of `startValues` and of `imageListValues`. `changed` says which
-- flags were set.
use ocihood.Base.{String, Bool, Option, none, some, List, [], ◌∷◌, any, if◌then◌else◌, ℤ}
use ocihood.Config.{Overrides, no_settings}

pub record StartValues : Type 0 where
  pub oci_config : String
  pub oci_profile : String
  pub region : String
  pub ssh_public_key : String
  pub ssh_private_key : String
  pub compartment : String
  pub image : String
  pub vcn_id : String
  pub vcn_name : String
  pub subnet_id : String
  pub subnet_name : String
  pub state_dir : String
  pub log_dir : String
  pub shape : String
  pub ocpus : ℤ
  pub memory_gb : ℤ
  pub boot_volume_gb : ℤ
  pub public_ip : Bool
  pub request_timeout : ℤ
  pub retry_min : ℤ
  pub retry_max : ℤ

pub record ImageListValues : Type 0 where
  pub oci_config : String
  pub oci_profile : String
  pub region : String
  pub compartment : String
  pub shape : String

abbrev pub no_overrides : Overrides
no_overrides = record {
  oci_config_path = none;
  oci_profile = none;
  region = none;
  ssh_public_key_path = none;
  ssh_private_key_path = none;
  compartment_id = none;
  image_id = none;
  vcn_id = none;
  vcn_name = none;
  subnet_id = none;
  subnet_name = none;
  settings = no_settings;
}

abbrev pub start_flags : List String
start_flags =
    "oci-config" ∷ "oci-profile" ∷ "region" ∷ "ssh-public-key" ∷ "ssh-private-key"
    ∷ "compartment-id" ∷ "image-id" ∷ "vcn-id" ∷ "vcn-name" ∷ "subnet-id" ∷ "subnet-name"
    ∷ "state-dir" ∷ "log-dir" ∷ "shape" ∷ "ocpus" ∷ "memory-gb" ∷ "boot-volume-gb" ∷ "public-ip"
    ∷ "request-timeout" ∷ "retry-min" ∷ "retry-max" ∷ []

abbrev pub image_flags : List String
image_flags = "oci-config" ∷ "oci-profile" ∷ "region" ∷ "compartment-id" ∷ "shape" ∷ []

module _ (changed : String → Bool) where
  abbrev pub given : {A : Type 0} → String → A → Option A
  given name value = if changed name then some value else none

  unfoldable pub overrides : StartValues → Overrides × Bool
  overrides v = (
    record {
      oci_config_path = given "oci-config" v.oci_config;
      oci_profile = given "oci-profile" v.oci_profile;
      region = given "region" v.region;
      ssh_public_key_path = given "ssh-public-key" v.ssh_public_key;
      ssh_private_key_path = given "ssh-private-key" v.ssh_private_key;
      compartment_id = given "compartment-id" v.compartment;
      image_id = given "image-id" v.image;
      vcn_id = given "vcn-id" v.vcn_id;
      vcn_name = given "vcn-name" v.vcn_name;
      subnet_id = given "subnet-id" v.subnet_id;
      subnet_name = given "subnet-name" v.subnet_name;
      settings = record no_settings {
        state_dir = given "state-dir" v.state_dir;
        log_dir = given "log-dir" v.log_dir;
        shape = given "shape" v.shape;
        ocpus = given "ocpus" v.ocpus;
        memory_gb = given "memory-gb" v.memory_gb;
        boot_volume_gb = given "boot-volume-gb" v.boot_volume_gb;
        public_ip = given "public-ip" v.public_ip;
        request_timeout = given "request-timeout" v.request_timeout;
        retry_min = given "retry-min" v.retry_min;
        retry_max = given "retry-max" v.retry_max;
      };
    },
    any changed start_flags,
  )

  unfoldable pub image_overrides : ImageListValues → Overrides × Bool
  image_overrides v = (
    record no_overrides {
      oci_config_path = given "oci-config" v.oci_config;
      oci_profile = given "oci-profile" v.oci_profile;
      region = given "region" v.region;
      compartment_id = given "compartment-id" v.compartment;
      settings = record no_settings { shape = given "shape" v.shape };
    },
    any changed image_flags,
  )
