-- ===== src/Wiring/Examples.antt =====
-- Witnesses of what the main program hands on.
use ocihood.Base.{true, false, ◌≡◌, refl, none, some, pos}
use ocihood.Io.{ok}
use ocihood.Errors.Kinds.{CapacityKind}
use ocihood.Reconcile.{Decision, DecisionKind}
use ocihood.Capacity.Samples.{percent}
use ocihood.Discovery.Samples.{a_target}
use ocihood.Capacity.{WatchState, validate}
use ocihood.Launch.Poll.{is_ready}
use ocihood.Config.{Effective}
use ocihood.Config.Resolve.{built_in}
use ocihood.Config.Safety.{IsSound, built_in-InRange}
use ocihood.Wiring.{new_circuit_fault, watcher_config, watch_input, launch_input}
use ocihood.Wiring.Accepts.{sound_accepted}

abbrev configured : Effective
configured = built_in "/home" "/cfg" "home"

configured-IsSound : IsSound configured
configured-IsSound = record {
  in_range = built_in-InRange (ok "/cfg") (ok "/home") "/home" "/cfg" "home";
  ordered = refl;
  complete = refl;
}

abbrev stored : WatchState
stored = record {
  target_id = "target";
  last_ad = "ad-2";
  next_ad = pos 0;
  retry_count = pos 1;
  next_attempt = 0;
  status = CapacityKind.transient;
}

abbrev to_create : Decision
to_create = record {
  kind = DecisionKind.create;
  instance_id = "";
  attempt = some (record { id = "a1"; retry_token = "a1b2"; valid_until = 500 });
  reason = "";
}

sound_accepted_example :
    (new_circuit_fault configured "compute/instance" ≡ none)
    × (validate percent true
          (watcher_config percent 20 configured)
          (watch_input configured a_target stored false)
        ≡ none)
    × (is_ready true (launch_input configured a_target to_create "ad-1" "ssh-rsa") ≡ true)
sound_accepted_example =
    sound_accepted configured a_target percent 20 stored false to_create "ad-1" "ssh-rsa"
      "compute/instance" configured-IsSound (refl, refl, (λ e. cc)) (refl, refl)
