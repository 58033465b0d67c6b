-- ===== src/App/RunSamples.antt =====
-- Runs to try: their settings, their rounds, and what they come to.
use ocihood.Base.{String, true, false, ◌++◌, Option, none, some, List, [], ◌∷◌, ◌*◌, ◌+◌}
use ocihood.Errors.{Err, message, launch_error}
use ocihood.Errors.Kinds.{out_of_capacity, available}
use ocihood.Io.{ok}
use ocihood.Reconcile.{Decision, create}
use ocihood.State.Disk.{Disk, Content}
use ocihood.State.Samples.{empty_disk, home_file}
use ocihood.Launch.{Instance}
use ocihood.Launch.Guarded.{no_instance}
use ocihood.Notification.{
  Event, EventKind, waiting, run_started, degraded, capacity_found, instance_running,
}
use ocihood.Capacity.{CapacityResult}
use ocihood.Time.{hour}
use ocihood.Discovery.Samples.{a_target}
use ocihood.Cli.Flags.{no_overrides}
use ocihood.App.Samples.{random, chosen, configured, committed_state, made}
use ocihood.App.Prepare.{Request, Prepared}
use ocihood.App.Run.{Runner, Round, Effect, notified, watched, launched, Ended}
use ocihood.App.Runner.{base_result}

abbrev pub quiet : Event → Option Err
quiet e = none

abbrev pub runner : Runner
runner = record {
  has_watch = true;
  has_launch = true;
  notifier = some quiet;
  read_ssh_key = ok "key";
  random = random;
  now = 100;
}

abbrev pub request : Request
request = record {
  config_path = "";
  account = "home";
  overrides = no_overrides;
  configless = false;
  once = false;
}

abbrev pub prepared : Prepared
prepared = record { effective = some configured; discovered = some a_target; error = none }

-- Capacity is gone when the launch is made.
abbrev pub losing : Round
losing = record {
  watch = λ disk. (ok (record { kind = available; availability_domain = "ad-1" }), disk);
  launch = λ d c key disk.
      ((no_instance, some (launch_error out_of_capacity (message "no host"))), disk);
  random = random;
  now = 200;
}

abbrev pub an_instance : Instance
an_instance = record { id = "i1"; state = "RUNNING"; public_ip = "192.0.2.1" }

abbrev pub winning : Round
winning = record losing { launch = λ d c key disk. ((an_instance, none), disk) }

abbrev pub rounds : List Round
rounds = losing ∷ winning ∷ []

abbrev pub renewed : Decision
renewed = record chosen { attempt = some (record made { valid_until = 24 * hour + 200 }) }

abbrev pub there : CapacityResult
there = record { kind = available; availability_domain = "ad-1" }

abbrev pub told : EventKind → String → Event
told kind detail = record {
  kind = kind;
  account = "home";
  region = "";
  target_id = "target";
  instance_id = "";
  public_ip = "";
  detail = detail;
}

abbrev pub round_effects : Decision → List Effect
round_effects decision =
    notified (told waiting "capacity check started")
    ∷ watched
    ∷ notified (told capacity_found "ad-1")
    ∷ launched decision there "key"
    ∷ []

abbrev pub stored_again : Disk
stored_again = record empty_disk {
  files =
      (
        home_file,
        Content.document
            (record committed_state {
              attempt_valid_to = 24 * hour + 200;
              last_attempt = 200;
              updated_at = 200;
            })
            false,
      )
      ∷ [];
}

abbrev pub finished : Ended
finished = record {
  going = record {
    result = record (base_result "home" "" "target") {
      decision = create;
      attempt = renewed.attempt;
      capacity = available;
      availability_domain = "ad-1";
      instance_id = "i1";
      instance_state = "RUNNING";
      public_ip = "192.0.2.1";
      policy = record { allowed = true; overridden = false; violations = [] };
    };
    effects =
        notified (told run_started "") ∷ round_effects chosen
        ++ notified (told degraded "capacity changed before launch") ∷ round_effects renewed
        ++ notified
            (record (told instance_running "") { instance_id = "i1"; public_ip = "192.0.2.1" })
          ∷ [];
    disk = stored_again;
  };
  error = none;
  is_paused = false;
}
