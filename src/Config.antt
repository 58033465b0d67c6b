-- ===== src/Config.antt =====
-- internal/config/config.go: the configuration's data, its built-in defaults and their overlay. The
-- YAML decoder is not modelled: a file is what it decodes to, the accounts a list in one of the orders
-- in which Go may visit the map.
pub mod Validate
pub mod Resolve
pub mod Evaluate
pub mod Ranges
pub mod Safety
mod Examples
use ocihood.Base.{
  ℕ, ◌*◌, String, Bool, true, false, Option, none, some, List, [], ◌∷◌, ℤ, pos, value_or,
}
use ocihood.Time.{second, minute, hour}

pub record BreakerSettings : Type 0 where
  pub failures : Option ℤ
  pub half_open_requests : Option ℤ
  pub interval : Option ℤ
  pub open_timeout : Option ℤ

pub record Breaker : Type 0 where
  pub failures : ℤ
  pub half_open_requests : ℤ
  pub interval : ℤ
  pub open_timeout : ℤ

pub record NotificationSettings : Type 0 where
  pub enabled : Option Bool
  pub telegram_chat : Option String
  pub telegram_token_env : Option String

pub record Notifications : Type 0 where
  pub enabled : Bool
  pub telegram_chat : String
  pub telegram_token_env : String

pub record PolicySettings : Type 0 where
  pub allowed_shapes : Option (List String)
  pub max_ocpus : Option ℤ
  pub max_memory_gb : Option ℤ
  pub max_boot_gb : Option ℤ
  pub allow_exceed : Option Bool

pub record Policy : Type 0 where
  pub allowed_shapes : List String
  pub max_ocpus : ℤ
  pub max_memory_gb : ℤ
  pub max_boot_gb : ℤ
  pub allow_exceed : Bool

pub record Settings : Type 0 where
  pub request_timeout : Option ℤ
  pub retry_min : Option ℤ
  pub retry_max : Option ℤ
  pub state_dir : Option String
  pub log_dir : Option String
  pub shape : Option String
  pub ocpus : Option ℤ
  pub memory_gb : Option ℤ
  pub boot_volume_gb : Option ℤ
  pub public_ip : Option Bool
  pub policy : PolicySettings
  pub notifications : NotificationSettings
  pub breaker : BreakerSettings

-- `Settings{}`
abbrev pub no_settings : Settings
no_settings = record {
  request_timeout = none;
  retry_min = none;
  retry_max = none;
  state_dir = none;
  log_dir = none;
  shape = none;
  ocpus = none;
  memory_gb = none;
  boot_volume_gb = none;
  public_ip = none;
  policy = record {
    allowed_shapes = none;
    max_ocpus = none;
    max_memory_gb = none;
    max_boot_gb = none;
    allow_exceed = none;
  };
  notifications = record { enabled = none; telegram_chat = none; telegram_token_env = none };
  breaker = record {
    failures = none;
    half_open_requests = none;
    interval = none;
    open_timeout = none;
  };
}

pub record Overrides : Type 0 where
  pub oci_config_path : Option String
  pub oci_profile : Option String
  pub region : Option String
  pub ssh_public_key_path : Option String
  pub ssh_private_key_path : Option String
  pub compartment_id : Option String
  pub image_id : Option String
  pub vcn_id : Option String
  pub vcn_name : Option String
  pub subnet_id : Option String
  pub subnet_name : Option String
  pub settings : Settings

pub record Account : Type 0 where
  pub oci_config_path : String
  pub oci_profile : String
  pub region : String
  pub ssh_public_key_path : String
  pub ssh_private_key_path : String
  pub compartment_id : String
  pub image_id : String
  pub vcn_id : String
  pub vcn_name : String
  pub subnet_id : String
  pub subnet_name : String
  pub overrides : Settings

-- `Account{}`
abbrev pub no_account : Account
no_account = record {
  oci_config_path = "";
  oci_profile = "";
  region = "";
  ssh_public_key_path = "";
  ssh_private_key_path = "";
  compartment_id = "";
  image_id = "";
  vcn_id = "";
  vcn_name = "";
  subnet_id = "";
  subnet_name = "";
  overrides = no_settings;
}

pub record File : Type 0 where
  pub defaults : Settings
  pub accounts : List (String × Account)

pub record Effective : Type 0 where
  pub account : String
  pub oci_config_path : String
  pub oci_profile : String
  pub region : String
  pub ssh_public_key_path : String
  pub ssh_private_key_path : String
  pub compartment_id : String
  pub image_id : String
  pub vcn_id : String
  pub vcn_name : String
  pub subnet_id : String
  pub subnet_name : String
  pub request_timeout : ℤ
  pub retry_min : ℤ
  pub retry_max : ℤ
  pub state_dir : String
  pub log_dir : String
  pub shape : String
  pub ocpus : ℤ
  pub memory_gb : ℤ
  pub boot_volume_gb : ℤ
  pub public_ip : Bool
  pub policy : Policy
  pub notifications : Notifications
  pub breaker : Breaker

abbrev pub default_shape : String
default_shape = "VM.Standard.A1.Flex"

abbrev pub default_ocpus : ℤ
default_ocpus = pos 2

abbrev pub default_memory_gb : ℤ
default_memory_gb = pos 12

abbrev pub default_boot_gb : ℤ
default_boot_gb = pos 50

abbrev pub default_allowed_shapes : List String
default_allowed_shapes = default_shape ∷ []

abbrev pub default_policy : Policy
default_policy = record {
  allowed_shapes = default_allowed_shapes;
  max_ocpus = default_ocpus;
  max_memory_gb = default_memory_gb;
  max_boot_gb = default_boot_gb;
  allow_exceed = false;
}

abbrev pub default_breaker : Breaker
default_breaker = record {
  failures = pos 5;
  half_open_requests = pos 1;
  interval = pos (5 * minute);
  open_timeout = pos minute;
}

abbrev apply_policy : PolicySettings → Policy → Policy
apply_policy s p = record {
  allowed_shapes = value_or p.allowed_shapes s.allowed_shapes;
  max_ocpus = value_or p.max_ocpus s.max_ocpus;
  max_memory_gb = value_or p.max_memory_gb s.max_memory_gb;
  max_boot_gb = value_or p.max_boot_gb s.max_boot_gb;
  allow_exceed = value_or p.allow_exceed s.allow_exceed;
}

abbrev apply_notifications : NotificationSettings → Notifications → Notifications
apply_notifications s n = record {
  enabled = value_or n.enabled s.enabled;
  telegram_chat = value_or n.telegram_chat s.telegram_chat;
  telegram_token_env = value_or n.telegram_token_env s.telegram_token_env;
}

abbrev apply_breaker : BreakerSettings → Breaker → Breaker
apply_breaker s b = record {
  failures = value_or b.failures s.failures;
  half_open_requests = value_or b.half_open_requests s.half_open_requests;
  interval = value_or b.interval s.interval;
  open_timeout = value_or b.open_timeout s.open_timeout;
}

-- The settings that are present replace those of the configuration.
unfoldable pub apply : Settings → Effective → Effective
apply s e = record e {
  request_timeout = value_or e.request_timeout s.request_timeout;
  retry_min = value_or e.retry_min s.retry_min;
  retry_max = value_or e.retry_max s.retry_max;
  state_dir = value_or e.state_dir s.state_dir;
  log_dir = value_or e.log_dir s.log_dir;
  shape = value_or e.shape s.shape;
  ocpus = value_or e.ocpus s.ocpus;
  memory_gb = value_or e.memory_gb s.memory_gb;
  boot_volume_gb = value_or e.boot_volume_gb s.boot_volume_gb;
  public_ip = value_or e.public_ip s.public_ip;
  policy = apply_policy s.policy e.policy;
  notifications = apply_notifications s.notifications e.notifications;
  breaker = apply_breaker s.breaker e.breaker;
}
