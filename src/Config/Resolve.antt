-- ===== src/Config/Resolve.antt =====
-- internal/config/config.go: `Resolve`, `Defaults`, `Validate` and `ApplyOverrides`. The directories
-- of the user, or why there are none, are arguments.
use ocihood.Base.{
  ◌*◌, String, Bool, true, false, ◌&&◌, ◌||◌, not, Option, none, some, List, [], ◌∷◌, str_eq,
  if◌then◌else◌, ℤ, pos, lt_int, or_else, value_or, lookup, is_some, is_blank, ◌^^◌, join_path,
}
use ocihood.Errors.{Err, message, wrapped}
use ocihood.Io.{Result, ok, err, error_of, and_then}
use ocihood.Time.{second, minute}
use ocihood.Config.{
  Settings, no_settings, Overrides, Account, no_account, File, Effective, Notifications,
  default_shape, default_ocpus, default_memory_gb, default_boot_gb, default_policy, default_breaker,
  apply,
}
use ocihood.Config.Validate.{validate_settings}

-- The built-in defaults; `home` and `dir` are the user's home and configuration directory.
abbrev pub built_in : String → String → String → Effective
built_in home dir name = record {
  account = name;
  oci_config_path = join_path (home ∷ ".oci" ∷ "config" ∷ []);
  oci_profile = "DEFAULT";
  region = "";
  ssh_public_key_path = "";
  ssh_private_key_path = "";
  compartment_id = "";
  image_id = "";
  vcn_id = "";
  vcn_name = "";
  subnet_id = "";
  subnet_name = "";
  request_timeout = pos (30 * second);
  retry_min = pos (30 * second);
  retry_max = pos (15 * minute);
  state_dir = join_path (dir ∷ "ocihood" ∷ "state" ∷ []);
  log_dir = join_path (dir ∷ "ocihood" ∷ "log" ∷ []);
  shape = default_shape;
  ocpus = default_ocpus;
  memory_gb = default_memory_gb;
  boot_volume_gb = default_boot_gb;
  public_ip = true;
  policy = default_policy;
  notifications = record { enabled = false; telegram_chat = ""; telegram_token_env = "" };
  breaker = default_breaker;
}

abbrev if_set : String → String → String
if_set value current = if str_eq value "" then current else value

-- What an account says of itself, apart from its settings.
abbrev pub with_account : Account → Effective → Effective
with_account a e = record e {
  oci_config_path = if_set a.oci_config_path e.oci_config_path;
  oci_profile = if_set a.oci_profile e.oci_profile;
  region = a.region;
  ssh_public_key_path = a.ssh_public_key_path;
  ssh_private_key_path = a.ssh_private_key_path;
  compartment_id = a.compartment_id;
  image_id = a.image_id;
  vcn_id = a.vcn_id;
  vcn_name = a.vcn_name;
  subnet_id = a.subnet_id;
  subnet_name = a.subnet_name;
}

-- Enabled without a chat or the name of a token variable.
abbrev pub lacks_telegram : Notifications → Bool
lacks_telegram n = n.enabled && (str_eq n.telegram_chat "" || str_eq n.telegram_token_env "")

abbrev pub account_text : String → String → String
account_text name text = "account \"" ^^ name ^^ "\" " ^^ text

-- The last checks of `Resolve`.
unfoldable pub checked : String → Effective → Result Effective
checked name e =
    if lt_int e.retry_max e.retry_min
    then err (message (account_text name "retry_min must not exceed retry_max"))
    else if lacks_telegram e.notifications
    then err (
        message (
          account_text name
            "enabled notifications require telegram_chat_id and telegram_token_env"))
    else ok e

abbrev labelled : String → Result String → Result String
labelled text (ok d) = ok d
labelled text (err e) = err (wrapped text e)

module _ (user_config_dir user_home_dir : Result String) where
  abbrev resolve_account : Settings → String → Account → Result Effective
  resolve_account defaults name a =
      and_then (labelled "resolve user config directory" user_config_dir) (λ dir.
        and_then (labelled "resolve user home directory" user_home_dir) (λ home.
          checked name
            (with_account a (apply a.overrides (apply defaults (built_in home dir name))))))

  unfoldable pub resolve : File → String → Result Effective
  resolve f name = elim (lookup name f.accounts) [
    | none ↦ err (message (account_text name "is not defined"))
    | some a ↦ resolve_account f.defaults name a
  ]

  unfoldable pub defaults : String → Result Effective
  unfolding resolve
  defaults name =
      resolve (record { defaults = no_settings; accounts = (name, no_account) ∷ [] }) name

  -- The checks of one account.
  unfoldable pub account_fault : File → String → Account → Option Err
  unfolding resolve
  account_fault f name a =
      if is_blank name
      then some (message "account name must not be blank")
      else or_else (validate_settings ("account " ^^ name ^^ " overrides") a.overrides) (
          if not (str_eq a.vcn_id "") && not (str_eq a.vcn_name "")
          then some (message (account_text name "vcn_id and vcn_name are mutually exclusive"))
          else if not (str_eq a.subnet_id "") && not (str_eq a.subnet_name "")
          then some (message (account_text name "subnet_id and subnet_name are mutually exclusive"))
          else error_of (resolve f name))

  abbrev pub accounts_fault : File → List (String × Account) → Option Err
  accounts_fault f [] = none
  accounts_fault f ((name, a) ∷ rest) = or_else (account_fault f name a) (accounts_fault f rest)

  abbrev reversed : Option ℤ → Option ℤ → Bool
  reversed (some lo) (some hi) = lt_int hi lo
  reversed _ _ = false

  unfoldable pub validate : File → Option Err
  validate f = or_else (validate_settings "defaults" f.defaults) (
      if reversed f.defaults.retry_min f.defaults.retry_max
      then some (message "defaults.retry_min must not exceed defaults.retry_max")
      else accounts_fault f f.accounts)

-- Of an id and a name, one that is given on the command line clears the other.
abbrev cleared : Option String → Option String → String → String
cleared this other current = if is_some this && not (is_some other) then "" else current

abbrev pub overridden : Overrides → Effective → Effective
overridden o e = record e {
  oci_config_path = value_or e.oci_config_path o.oci_config_path;
  oci_profile = value_or e.oci_profile o.oci_profile;
  region = value_or e.region o.region;
  ssh_public_key_path = value_or e.ssh_public_key_path o.ssh_public_key_path;
  ssh_private_key_path = value_or e.ssh_private_key_path o.ssh_private_key_path;
  compartment_id = value_or e.compartment_id o.compartment_id;
  image_id = value_or e.image_id o.image_id;
  vcn_id = value_or (cleared o.vcn_name o.vcn_id e.vcn_id) o.vcn_id;
  vcn_name = value_or (cleared o.vcn_id o.vcn_name e.vcn_name) o.vcn_name;
  subnet_id = value_or (cleared o.subnet_name o.subnet_id e.subnet_id) o.subnet_id;
  subnet_name = value_or (cleared o.subnet_id o.subnet_name e.subnet_name) o.subnet_name;
}

-- The last checks of `ApplyOverrides`.
unfoldable pub override_checked : Effective → Result Effective
override_checked e =
    if not (str_eq e.vcn_id "") && not (str_eq e.vcn_name "")
    then err (message "vcn_id and vcn_name are mutually exclusive")
    else if not (str_eq e.subnet_id "") && not (str_eq e.subnet_name "")
    then err (message "subnet_id and subnet_name are mutually exclusive")
    else if lt_int e.retry_max e.retry_min
    then err (message "retry_min must not exceed retry_max")
    else if lacks_telegram e.notifications
    then err (message "enabled notifications require telegram_chat_id and telegram_token_env")
    else ok e

unfoldable pub apply_overrides : Effective → Overrides → Result Effective
apply_overrides e o = elim (validate_settings "CLI overrides" o.settings) [
  | some fault ↦ err fault
  | none ↦ override_checked (overridden o (apply o.settings e))
]
