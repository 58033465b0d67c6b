-- ===== src/Config/Examples.antt =====
-- Tests and witnesses of the configuration.
use ocihood.Base.{
  join_path, clean, split_path, clean_parts, join, trim_space, lookup, String, true, false, ◌≡◌,
  ◌↔◌, refl, none, some, [], ◌∷◌, pos,
}
use ocihood.Io.{Result, ok}
use ocihood.Config.{no_settings, Overrides, Account, no_account, File, Effective, apply}
use ocihood.Config.Validate.{validate_settings, allowed_fault}
use ocihood.Config.Resolve.{
  resolve, validate, account_fault, built_in, apply_overrides, checked, override_checked,
}
use ocihood.Config.Ranges.{InRange}
use ocihood.Config.Safety.{IsSound, IsSingle, resolve-IsSound, apply_overrides-IsSound}
use ocihood.Config.Evaluate.{Within, evaluate_policy, violations_of, evaluate_policy-Within}

abbrev dir : Result String
dir = ok "/cfg"

abbrev home : Result String
home = ok "/home"

abbrev an_account : Account
an_account = record no_account {
  region = "eu-1";
  vcn_id = "v1";
  overrides = record no_settings { ocpus = some (pos 4) };
}

abbrev a_file : File
a_file = record { defaults = no_settings; accounts = ("home", an_account) ∷ [] }

abbrev at_defaults : Effective
at_defaults = built_in "/home" "/cfg" "home"

abbrev resolved : Effective
resolved = record at_defaults { region = "eu-1"; vcn_id = "v1"; ocpus = pos 4 }

resolve_test : resolve dir home a_file "home" ≡ ok resolved
unfolding resolve checked apply lookup
resolve_test = refl

-- Four cores are more than the policy allows by default.
policy_test : (evaluate_policy resolved).allowed ≡ false
unfolding evaluate_policy violations_of
policy_test = refl

evaluate_policy-Within_example :
    (((evaluate_policy resolved).allowed ≡ true) × ((evaluate_policy resolved).overridden ≡ false)
      ↔ Within resolved)
    × ((evaluate_policy resolved).overridden ≡ true
        → ((evaluate_policy resolved).allowed ≡ true)
          × (resolved.policy.allow_exceed ≡ true)
          × (Within resolved → ⊥))
evaluate_policy-Within_example = evaluate_policy-Within resolved

resolve-IsSound_example : IsSound resolved
unfolding validate account_fault validate_settings allowed_fault resolve checked apply trim_space
    lookup
resolve-IsSound_example = resolve-IsSound dir home a_file "home" resolved refl resolve_test

resolved-InRange : InRange resolved
unfolding validate account_fault validate_settings allowed_fault resolve checked apply trim_space
    lookup
resolved-InRange = (resolve-IsSound dir home a_file "home" resolved refl resolve_test).in_range

abbrev by_name : Overrides
by_name = record {
  oci_config_path = none;
  oci_profile = none;
  region = none;
  ssh_public_key_path = none;
  ssh_private_key_path = none;
  compartment_id = none;
  image_id = none;
  vcn_id = none;
  vcn_name = some "main";
  subnet_id = none;
  subnet_name = none;
  settings = no_settings;
}

abbrev named : Effective
named = record resolved { vcn_id = ""; vcn_name = "main" }

apply_overrides-IsSound_example :
    IsSound named
    × IsSingle named.vcn_id named.vcn_name
    × IsSingle named.subnet_id named.subnet_name
unfolding apply_overrides validate_settings allowed_fault override_checked apply
apply_overrides-IsSound_example =
    apply_overrides-IsSound resolved named by_name resolved-InRange refl

join_path_test :
    (join_path ("/home/ada/" ∷ ".oci" ∷ "config" ∷ []) ≡ "/home/ada/.oci/config")
    × (join_path ("" ∷ "a//b" ∷ "." ∷ "../../../c" ∷ []) ≡ "../c")
    × (join_path ("/../a" ∷ "" ∷ []) ≡ "/a")
    × (join_path ("" ∷ "" ∷ []) ≡ "")
unfolding join_path clean split_path clean_parts join
join_path_test = (refl, refl, refl, refl)
