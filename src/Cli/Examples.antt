-- ===== src/Cli/Examples.antt =====
-- Tests and witnesses of the commands.
use ocihood.Base.{trim_space, ◌≡◌, ◌↔◌, ◌⊎◌, false, true, refl, some, pos}
use ocihood.Errors.{
  Err, message, app_error, launch_error, is, context_canceled, deadline_exceeded, as_discovery,
}
use ocihood.Errors.Kinds.{invalid, unavailable, out_of_capacity}
use ocihood.App.Run.{RunResult}
use ocihood.App.Runner.{base_result}
use ocihood.Discovery.{Input, fail}
use ocihood.Discovery.Discover.{validate}
use ocihood.Cli.Outcome.{command_result}
use ocihood.Cli.Codes.{is_unresolved, IsRetryable, command_result_failed}

abbrev a_result : RunResult
a_result = record (base_result "home" "eu-1" "t1") { capacity = unavailable }

abbrev a_failure : Err
a_failure = app_error "launch" (launch_error out_of_capacity (message "no host"))

abbrev blank : Input
blank = record {
  account = "home";
  tenancy_id = "tenancy";
  compartment_id = "";
  region = "eu-1";
  shape = "A1";
  ocpus = pos 4;
  memory_gb = pos 24;
  boot_volume_gb = pos 50;
  image_id = "ubuntu";
  vcn_id = "";
  vcn_name = "";
  subnet_id = "";
  subnet_name = "";
  public_ip = true;
}

abbrev no_compartment : Err
no_compartment = fail invalid "input" "compartment is required"

validate_test : validate blank ≡ some no_compartment
unfolding validate trim_space
validate_test = refl

command_result_failed_example :
    (((command_result "home" a_result (some a_failure)).1 ≡ 124)
      ↔ (is deadline_exceeded a_failure ≡ true))
    × (((command_result "home" a_result (some a_failure)).1 ≡ 130)
        ↔ ((is deadline_exceeded a_failure ≡ false) × (is context_canceled a_failure ≡ true)))
    × (((command_result "home" a_result (some a_failure)).1 ≡ 4) ↔ (
        (is deadline_exceeded a_failure ≡ false)
        × (is context_canceled a_failure ≡ false)
        × (is_unresolved (as_discovery a_failure) ≡ false)
        × IsRetryable a_failure))
    × (((command_result "home" a_result (some a_failure)).1 ≡ 1) ↔ (
        (is deadline_exceeded a_failure ≡ false)
        × (is context_canceled a_failure ≡ false)
        × ((is_unresolved (as_discovery a_failure) ≡ true) ⊎ (¬ IsRetryable a_failure))))
unfolding as_discovery
command_result_failed_example = command_result_failed "home" a_result a_failure refl
