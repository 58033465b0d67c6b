-- ===== src/Oci/Session.antt =====
-- internal/provider/oci/auth/auth.go: `New`, which checks the local credentials, and `Validate`. The
-- SDK's configuration provider and its clients are parameters.
use ocihood.Base.{ℕ, String, ◌||◌, Option, none, some, str_eq, if◌then◌else◌, ◌==◌}
use ocihood.Errors.{Err, auth_error, is, context_canceled, deadline_exceeded, as_service}
use ocihood.Errors.Kinds.{
  AuthKind, local_credentials, authentication, authorization, network, canceled,
}
use ocihood.Io.{Result, ok, err, and_then}
use ocihood.Config.{Effective}

-- The SDK: `P` is a configuration provider.
pub record Sdk : Type 1 where
  pub P : Type 0
  -- `ConfigurationProviderFromFileWithProfile`, by path and profile.
  pub from_file : String → String → Result P
  pub tenancy_ocid : P → Result String
  pub user_ocid : P → Result String
  pub region : P → Result String
  pub key_fingerprint : P → Result String
  pub private_rsa_key : P → Result (Unit {0})
  -- The region of a raw configuration with this region.
  pub raw_region : String → Result String
  pub identity_client : P → Result (Unit {0})
  pub compute_client : P → Result (Unit {0})
  pub network_client : P → Result (Unit {0})

pub record Clients : Type 0 where
  pub tenancy_ocid : String
  pub user_ocid : String
  pub region : String

-- `localError` on the error path.
abbrev pub local {ℓ} : {A : Type ℓ} → String → Result A → Result A
local op (ok a) = ok a
local op (err e) = err (auth_error local_credentials op e)

module _ (sdk : Sdk) where
  open sdk use {
    P, from_file, tenancy_ocid, user_ocid, key_fingerprint, private_rsa_key, raw_region,
    identity_client, compute_client, network_client,
  }

  -- `Region` of the provider: that of the account where it has one.
  region_of : String → P → Result String
  region_of override p = if str_eq override "" then sdk.region p else raw_region override

  unfoldable pub new : Effective → Result Clients
  unfolding region_of
  new account =
      and_then (local "load profile" (from_file account.oci_config_path account.oci_profile)) λ p.
        and_then (local "resolve tenancy" (tenancy_ocid p)) λ tenancy.
          and_then (local "resolve user" (user_ocid p)) λ user.
            and_then (local "resolve region" (region_of account.region p)) λ region.
              and_then (local "resolve fingerprint" (key_fingerprint p)) λ _.
                and_then (local "load signing key" (private_rsa_key p)) λ _.
                  and_then (local "create identity client" (identity_client p)) λ _.
                    and_then (local "create compute client" (compute_client p)) λ _.
                      and_then (local "create network client" (network_client p)) λ _.
                        ok (record { tenancy_ocid = tenancy; user_ocid = user; region = region })

abbrev validation_error : AuthKind → Err → Err
validation_error kind e = auth_error kind "validate connectivity" e

unfoldable pub status_kind : ℕ → AuthKind
status_kind status =
    if status == 401 then authentication else if status == 403 then authorization else network

unfoldable pub kind_of : Err → AuthKind
unfolding status_kind
kind_of e =
    if is context_canceled e || is deadline_exceeded e
    then canceled
    else elim (as_service e) [ none ↦ network | some (status, _) ↦ status_kind status ]

-- By the context's error and the error of `GetTenancy`, which is not called where the first is there.
unfoldable pub validate : Option Err → Option Err → Option Err
unfolding kind_of
validate (some e) called = some (validation_error canceled e)
validate none none = none
validate none (some e) = some (validation_error (kind_of e) e)
