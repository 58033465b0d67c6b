-- ===== src/App/Prepare.antt =====
-- internal/app/app.go: `resolve`, `bootstrap`, `prepare` and `Images`, with `Execute` of
-- internal/provisioner/provisioner.go. The injected functions are parameters; what the context and the
-- file system answer between the calls is given with them.
use ocihood.Base.{String, Bool, ◌&&◌, not, Option, none, some, List, str_eq, if◌then◌else◌}
use ocihood.Errors.{Err, message, wrapped, app_error, is, not_exist}
use ocihood.Io.{Result, ok, err, and_then, to_result, error_of}
use ocihood.Config.{Effective, Overrides}
use ocihood.Config.Resolve.{defaults, apply_overrides}
use ocihood.Discovery.{Image, Discovered}

pub record Request : Type 0 where
  pub config_path : String
  pub account : String
  pub overrides : Overrides
  pub configless : Bool
  pub once : Bool

pub record ImageList : Type 0 where
  pub account : String
  pub region : String
  pub shape : String
  pub images : List Image

pub record Injected : Type 0 where
  pub load : String → String → Result Effective
  -- The provider that is constructed stays opaque.
  pub authenticate : Effective → Result (Unit {0})
  -- The provider's `Validate`.
  pub validate : Effective → Result (Unit {0})
  pub discover : Effective → Result Discovered
  -- `r.listImages`, where it is set.
  pub list_images : Option (Effective → Result (String × List Image))
  pub open_key : String → Result (Unit {0})
  pub close_key : String → Result (Unit {0})
  -- `ctx.Err()` after the configuration, the authentication, before the validation, after it, and
  -- after the discovery.
  pub after_config : Option Err
  pub after_authentication : Option Err
  pub before_validation : Option Err
  pub after_bootstrap : Option Err
  pub after_discovery : Option Err
  pub user_config_dir : Result String
  pub user_home_dir : Result String

-- `&Error{Phase: phase, Err: err}` on the error path.
abbrev pub phase {ℓ} : {A : Type ℓ} → String → Result A → Result A
phase name (ok a) = ok a
phase name (err e) = err (app_error name e)

abbrev labelled {ℓ} : {A : Type ℓ} → String → Result A → Result A
labelled text (ok a) = ok a
labelled text (err e) = err (wrapped text e)

-- `Execute`: the read-only bootstrap.
unfoldable pub execute : Option Err → Result (Unit {0}) → Result (Unit {0})
execute (some e) validated = err e
execute none validated = labelled "validate provider connectivity" validated

-- What `prepare` returns: the configuration and the discovery that are there also on errors.
pub record Prepared : Type 0 where
  pub effective : Option Effective
  pub discovered : Option Discovered
  pub error : Option Err

module _ (env : Injected) where
  -- The loaded configuration, or the defaults where there is no file and none is wanted.
  unfoldable pub loaded : Request → Result Effective → Result Effective
  loaded r (ok e) = ok e
  loaded r (err e) =
      if r.configless && is not_exist e
      then defaults env.user_config_dir env.user_home_dir r.account
      else err e

  unfoldable pub resolve : Request → Result Effective
  unfolding loaded
  resolve r = phase "config" (
      and_then (loaded r (env.load r.config_path r.account)) λ e.
        and_then (apply_overrides e r.overrides)
          λ o. and_then (to_result env.after_config) λ _. ok o)

  unfoldable pub bootstrap : Effective → Result (Unit {0})
  unfolding execute
  bootstrap e = and_then (phase "authentication" (env.authenticate e)) λ _.
      and_then (phase "authentication" (to_result env.after_authentication)) λ _.
        and_then (phase "bootstrap" (execute env.before_validation (env.validate e)))
          λ _. phase "bootstrap" (to_result env.after_bootstrap)

  -- The checks of a run without a configuration file.
  unfoldable pub configless_checks : Request → Effective → Result (Unit {0})
  configless_checks r e =
      if not r.configless
      then ok tt
      else phase "config" (
          if str_eq e.compartment_id ""
          then err (message "--compartment-id is required without a configuration file")
          else if str_eq e.ssh_public_key_path ""
          then err (message "--ssh-public-key is required without a configuration file")
          else and_then (labelled "open SSH public key" (env.open_key e.ssh_public_key_path))
              λ _. labelled "close SSH public key" (env.close_key e.ssh_public_key_path))

  abbrev pub after_bootstrapped : Effective → Result (Unit {0}) → Result Discovered → Prepared
  after_bootstrapped e (err f) d = record { effective = some e; discovered = none; error = some f }
  after_bootstrapped e (ok _) (err f) = record {
    effective = some e;
    discovered = none;
    error = some (app_error "discovery" f);
  }
  after_bootstrapped e (ok _) (ok d) = record {
    effective = some e;
    discovered = some d;
    error = error_of (phase "discovery" (to_result env.after_discovery));
  }

  abbrev pub no_preparation : Err → Prepared
  no_preparation f = record { effective = none; discovered = none; error = some f }

  unfoldable pub after_resolved : Request → Result Effective → Prepared
  after_resolved r (err f) = no_preparation f
  after_resolved r (ok e) = elim (configless_checks r e) [
    | err f ↦ no_preparation f
    | ok _ ↦ after_bootstrapped e (bootstrap e) (env.discover e)
  ]

  unfoldable pub prepare : Request → Prepared
  unfolding after_resolved resolve bootstrap configless_checks
  prepare r = after_resolved r (resolve r)

  listing : Effective → Option (Effective → Result (String × List Image)) → Result ImageList
  listing e none = err (app_error "images" (message "image listing is not configured"))
  listing e (some list) = and_then (phase "images" (list e)) λ (region, images).
      ok (record { account = e.account; region = region; shape = e.shape; images = images })

  unfoldable pub images : Request → Result ImageList
  unfolding resolve bootstrap listing
  images r = and_then (resolve r) λ e.
      if str_eq e.compartment_id ""
      then err (app_error "config" (message "compartment_id is required"))
      else and_then (bootstrap e) λ _. listing e env.list_images
