-- ===== src/App/RunExamples.antt =====
-- Tests and witnesses of the runs.
use ocihood.Base.{
  true, ℕ, false, ◌≡◌, ◌≢◌, ◌≤◌, ◌⊎◌, ◌++◌, refl, none, some, [], ◌∷◌, arith, take, length,
  trim_space, contains_char, take_chars, hex, strip_suffix, ◌*◌, ◌+◌,
}
use ocihood.Errors.{as_app, Err, message, app_error, as_launch, is}
use ocihood.Io.{ok, err}
use ocihood.Reconcile.{Attempt, new_attempt, decide}
use ocihood.State.{LocalState, provisioning, reconcile_state, validate}
use ocihood.State.Disk.{Disk, find_file, put_file, remove_file}
use ocihood.App.Exclusive.{run_exclusive}
use ocihood.State.Store.{
  encode_fault, run_lock_of, load, acquire, replace_file, save, decode, path, try_lock,
  try_run_lock, locking,
}
use ocihood.State.Durability.{HasFreshTemp}
use ocihood.Reconcile.Attempts.{AreBytes}
use ocihood.State.Samples.{digest, empty_disk, home_file}
use ocihood.Notification.{run_started, degraded, instance_running, terminal_failure}
use ocihood.Time.{hour}
use ocihood.Discovery.Samples.{a_target}
use ocihood.App.Samples.{random, chosen, configured, committed, made}
use ocihood.App.Persist.{
  new_attempt_and_persist, reconcile_and_persist, prior, plan, plan_kind, outcome,
}
use ocihood.App.Prepare.{
  Injected, Prepared, prepare, resolve, bootstrap, configless_checks, after_resolved, loaded,
  execute,
}
use ocihood.App.Run.{
  notified, Going, Ended, loop, lost_capacity, notify, turn, after_watch, launch_step, after_launch,
  complete,
}
use ocihood.App.Runner.{
  run, checked, guarded, reconciled, with_key, closing, announced, account_of, base_result,
}
use ocihood.Config.Evaluate.{evaluate_policy, violations_of}
use ocihood.App.Asked.{asked}
use ocihood.App.Rounds.{attempts, IsSteady, loop-attempts, loop-ends}
use ocihood.App.WriteAhead.{Pending}
use ocihood.App.Renew.{new_attempt_and_persist-load}
use ocihood.App.Granted.{Granted, run-Granted}
use ocihood.Config.{apply}
use ocihood.Config.Validate.{validate_settings, allowed_fault}
use ocihood.Config.Resolve.{apply_overrides, override_checked}
use ocihood.App.Standing.{IsAnnounced}
use ocihood.App.Announced.{run-IsAnnounced}
use ocihood.App.RunSamples.{
  quiet, runner, request, prepared, losing, winning, rounds, renewed, told, round_effects,
  stored_again, finished,
}

run_test : run digest runner request prepared none rounds empty_disk ≡ some finished
unfolding run notify checked guarded reconciled with_key closing announced loop turn after_watch
    launch_step after_launch complete lost_capacity evaluate_policy violations_of acquire
    replace_file save decode path try_lock try_run_lock load locking reconcile_state validate prior
    plan_kind plan outcome reconcile_and_persist new_attempt_and_persist new_attempt decide put_file
    remove_file find_file trim_space contains_char is take_chars hex as_launch encode_fault
run_test = refl

run-Granted_example :
    (asked finished.going ≡ [])
    ⊎ Granted digest runner request prepared rounds empty_disk (asked finished.going)
run-Granted_example =
    run-Granted digest runner request prepared rounds empty_disk none finished run_test

-- The loop alone, on the store that reconciliation leaves.
abbrev before_loop : Going
before_loop = record { result = base_result "home" "" "target"; effects = []; disk = committed }

abbrev looped : Ended
looped = record {
  going = record {
    result = record finished.going.result {
      policy = record { allowed = false; overridden = false; violations = [] };
    };
    effects =
        round_effects chosen
        ++ notified (told degraded "capacity changed before launch") ∷ round_effects renewed
        ++ notified
            (record (told instance_running "") { instance_id = "i1"; public_ip = "192.0.2.1" })
          ∷ [];
    disk = stored_again;
  };
  error = none;
  is_paused = false;
}

loop_test :
    loop digest runner false configured a_target "key" rounds false chosen before_loop ≡ some looped
unfolding run notify checked guarded reconciled with_key closing announced loop turn after_watch
    launch_step after_launch complete lost_capacity evaluate_policy violations_of acquire
    replace_file save decode path try_lock try_run_lock load locking reconcile_state validate prior
    plan_kind plan outcome reconcile_and_persist new_attempt_and_persist new_attempt decide put_file
    remove_file find_file trim_space contains_char is take_chars hex as_launch encode_fault
loop_test = refl

loop-attempts_example :
    (n : ℕ) × (n ≤ length rounds)
    × (asked looped.going ≡ asked before_loop ++ take n (attempts chosen rounds))
loop-attempts_example =
    loop-attempts digest runner false configured a_target "key" rounds false chosen before_loop
      looped loop_test

winning-IsSteady : IsSteady winning
unfolding lost_capacity
winning-IsSteady decision c key disk = refl

loop-ends_example :
    loop digest runner false configured a_target "key"
      (losing ∷ winning ∷ [])
      false
      chosen
      before_loop
    ≢ none
loop-ends_example =
    loop-ends digest runner false configured a_target "key" (losing ∷ []) [] winning false chosen
      before_loop winning-IsSteady

fresh_committed : HasFreshTemp home_file committed
unfolding strip_suffix find_file take_chars
fresh_committed = record { no_json = refl; absent = refl }

bytes : AreBytes random
bytes = ground arith

abbrev again_made : Attempt
again_made = record made { valid_until = 24 * hour + 200 }

renew_test :
    new_attempt_and_persist digest "states" "home" "target" random 200 committed
    ≡ (ok again_made, stored_again)
unfolding run notify checked guarded reconciled with_key closing announced loop turn after_watch
    launch_step after_launch complete lost_capacity evaluate_policy violations_of acquire
    replace_file save decode path try_lock try_run_lock load locking reconcile_state validate prior
    plan_kind plan outcome reconcile_and_persist new_attempt_and_persist new_attempt decide put_file
    remove_file find_file trim_space contains_char is take_chars hex as_launch encode_fault
renew_test = refl

new_attempt_and_persist-load_example :
    (s : LocalState) × (load digest "states" "home" "target" stored_again ≡ ok s)
    × (s.lifecycle ≡ provisioning)
    × Pending again_made s 200
    × (s.instance_id ≡ "")
    × (s.last_error ≡ "")
new_attempt_and_persist-load_example =
    new_attempt_and_persist-load digest "states" "home" "target" random 200 committed stored_again
      again_made bytes fresh_committed renew_test

abbrev not_found : Err
not_found = app_error "discovery" (message "no subnet")

abbrev undiscovered : Prepared
undiscovered = record prepared { discovered = none; error = some not_found }

abbrev stopped : Ended
stopped = record {
  going = record {
    result = base_result "home" "" "";
    effects =
        notified (record (told run_started "") { target_id = "" })
        ∷ notified (record (told terminal_failure "discovery failed") { target_id = "" })
        ∷ [];
    disk = empty_disk;
  };
  error = some not_found;
  is_paused = false;
}

failure_test : run digest runner request undiscovered none [] empty_disk ≡ some stopped
unfolding run notify checked guarded reconciled with_key closing announced loop turn after_watch
    launch_step after_launch complete lost_capacity evaluate_policy violations_of acquire
    replace_file save decode path try_lock try_run_lock load locking reconcile_state validate prior
    plan_kind plan outcome reconcile_and_persist new_attempt_and_persist new_attempt decide put_file
    remove_file find_file trim_space contains_char is take_chars hex as_launch as_app
failure_test = refl

-- A runner whose discovery fails.
abbrev injected : Injected
injected = record {
  load = λ file account. ok configured;
  authenticate = λ e. ok tt;
  validate = λ e. ok tt;
  discover = λ e. err (message "no subnet");
  list_images = none;
  open_key = λ file. ok tt;
  close_key = λ file. ok tt;
  after_config = none;
  after_authentication = none;
  before_validation = none;
  after_bootstrap = none;
  after_discovery = none;
  user_config_dir = ok "/cfg";
  user_home_dir = ok "/home";
}

prepare_test : prepare injected request ≡ undiscovered
unfolding prepare resolve bootstrap configless_checks after_resolved apply_overrides
    validate_settings allowed_fault override_checked apply loaded execute
prepare_test = refl

known : account_of (prepare injected request).effective ≢ ""
known = rw prepare_test (λ q. cc)

fails : stopped.error ≢ none
fails = λ q. cc

failed : run digest runner request (prepare injected request) none [] empty_disk ≡ some stopped
failed = rw prepare_test failure_test

run-IsAnnounced_example :
    IsAnnounced (prepare injected request).effective (prepare injected request).discovered stopped
run-IsAnnounced_example =
    run-IsAnnounced digest runner quiet refl injected request [] empty_disk stopped known failed
      fails

-- Another run holds the lock.
abbrev busy_store : Disk
busy_store = record empty_disk { held = run_lock_of home_file ∷ [] }

abbrev refused : Err
refused = app_error "state" (message "provisioning run is already active")

abbrev kept_out : Ended
kept_out = record {
  going = record {
    result = record (base_result "home" "" "target") {
      policy = record { allowed = true; overridden = false; violations = [] };
    };
    effects = notified (told run_started "") ∷ notified (told terminal_failure "state failed") ∷ [];
    disk = busy_store;
  };
  error = some refused;
  is_paused = false;
}

busy_test : run digest runner request prepared none rounds busy_store ≡ some kept_out
unfolding run evaluate_policy try_run_lock path trim_space contains_char acquire notify take_chars
    as_app
busy_test = refl

run_exclusive_example : asked kept_out.going ≡ []
unfolding take_chars
run_exclusive_example =
    run_exclusive digest runner request prepared rounds configured a_target none busy_store kept_out
      refl refl refl refl busy_test
