-- ===== src/Launch/Examples.antt =====
-- Tests and witnesses of the launch.
use ocihood.Base.{
  contains_char, trim_space, take_chars, String, true, false, ◌≡◌, ◌≢◌, refl, none, some, List, [],
  ◌∷◌, arith, strip_suffix, pos, any, All, min, half, double, ◌*◌, ◌^◌,
}
use ocihood.Errors.Kinds.{LaunchKind}
use ocihood.Errors.{message}
use ocihood.Io.{ok}
use ocihood.State.Samples.{digest, home_file, stored_disk, a_state}
use ocihood.State.Disk.{Disk, Content, find_file, put_file, remove_file}
use ocihood.State.Store.{
  encode_fault, load, try_lock, path, acquire, save, replace_file, decode, locking,
}
use ocihood.State.{LocalState, validate, provisioning}
use ocihood.State.Durability.{HasFreshTemp}
use ocihood.Launch.{
  Request, Instance, LaunchResult, Input, backoff, launched, got, stored_accepted, stored_finished,
  slept, LaunchRound, LookupRound, PollRound,
}
use ocihood.Launch.Run.{launch_round, launch_loop, lookup_round, lookup_loop}
use ocihood.Launch.Poll.{
  poll_round, poll_answer, on_state, on_running, finish_after, poll_loop, then_poll, run,
}
use ocihood.Launch.Budget.{HasBudget, launch_loop-ends}
use ocihood.Launch.Effects.{AsksFor, run-AsksFor}
use ocihood.Launch.Finish.{EndsFinished, saw_running, run_ok}
use ocihood.Launch.Lookup.{Found, lookup_loop-Found}
use ocihood.Launch.Backoff.{backoff-min}
use ocihood.Breaker.Samples.{one_failure, a_fault, a_fault-IsForeign}
use ocihood.Launch.Guarded.{guarded_launch, guarded_reconcile, guarded_get, guarded_admitted}
use ocihood.Launch.Store.{
  SameAttempt, update, accepted, finished, mark_accepted, mark_finished, accepted-load,
}

abbrev a_request : Request
a_request = record {
  target_id = "target";
  account = "home";
  compartment_id = "c1";
  availability_domain = "ad-1";
  shape = "VM.Standard.A1.Flex";
  image_id = "img";
  subnet_id = "s1";
  ssh_public_key = "ssh-rsa";
  ocpus = pos 2;
  memory_gb = pos 12;
  boot_volume_gb = pos 50;
  public_ip = true;
  attempt = record { id = "a1"; retry_token = "a1b2"; valid_until = 500 };
}

abbrev an_input : Input
an_input = record {
  request = a_request;
  existing_instance_id = "";
  request_timeout = pos 30;
  retry_min = pos 30;
  retry_max = pos 240;
}

abbrev instance : String → String → Instance
instance state address = record { id = "i1"; state = state; public_ip = address }

abbrev round : LaunchKind → LaunchRound
round kind = record {
  result = record { kind = kind; instance = instance "" ""; retry_after = pos 0 };
  error = none;
  timed_out = false;
  ctx_error = none;
  accepted_error = none;
  found_instance = instance "" "";
  found = false;
  reconcile_error = none;
  reconcile_ctx_error = none;
  failed_error = none;
  sleep_error = none;
}

abbrev lookup : Instance → LookupRound
lookup x = record { sleep_error = none; instance = x; error = none; ctx_error = none }

abbrev poll : Instance → List LookupRound → PollRound
poll x ls = record {
  instance = x;
  error = none;
  ctx_error = none;
  lookups = ls;
  finished_error = none;
  failed_error = none;
  sleep_error = none;
}

abbrev rounds : List LaunchRound
rounds = round LaunchKind.transient ∷ round LaunchKind.accepted ∷ []

abbrev busy : List LaunchRound
busy =
    round LaunchKind.transient
    ∷ round LaunchKind.transient
    ∷ round LaunchKind.ambiguous
    ∷ round LaunchKind.transient
    ∷ []

-- An instance that starts, runs without an address, and is stopped while its address is awaited.
abbrev polls : List PollRound
polls =
    poll (instance "PROVISIONING" "") []
    ∷ poll (instance "RUNNING" "") (lookup (instance "TERMINATING" "10.0.0.9") ∷ [])
    ∷ []

run_test : run true an_input rounds polls ≡ (
  launched a_request
      ∷ slept (pos 30)
      ∷ launched a_request
      ∷ stored_accepted "i1"
      ∷ got "i1"
      ∷ slept (pos 30)
      ∷ got "i1"
      ∷ slept (pos 30)
      ∷ got "i1"
      ∷ stored_finished (instance "TERMINATING" "10.0.0.9")
      ∷ [],
  some (ok (instance "TERMINATING" "10.0.0.9")),
)
unfolding run launch_loop launch_round then_poll poll_loop poll_round poll_answer on_state
    on_running finish_after lookup_loop lookup_round backoff
run_test = refl

run-AsksFor_example : All (AsksFor an_input) (run true an_input rounds polls).0
run-AsksFor_example = run-AsksFor true an_input rounds polls

run_ok_example :
    (any saw_running polls ≡ true)
    × EndsFinished (run true an_input rounds polls).0 (instance "TERMINATING" "10.0.0.9")
unfolding run launch_loop launch_round then_poll poll_loop poll_round poll_answer on_state
    on_running finish_after lookup_loop lookup_round backoff
run_ok_example = run_ok true an_input rounds polls (instance "TERMINATING" "10.0.0.9") refl

-- A look-up without an address, and one that fails.
abbrev quiet : LookupRound
quiet = lookup (instance "RUNNING" "")

abbrev broken : LookupRound
broken = record quiet { error = some (message "timeout") }

abbrev until_shown : List LookupRound
until_shown = quiet ∷ broken ∷ lookup (instance "TERMINATING" "10.0.0.9") ∷ quiet ∷ []

lookup_loop-Found_example :
    Found an_input "i1" 0 (instance "RUNNING" "") until_shown (instance "TERMINATING" "10.0.0.9")
unfolding lookup_loop lookup_round backoff half double
lookup_loop-Found_example =
    lookup_loop-Found an_input "i1" 0 (instance "RUNNING" "") (instance "TERMINATING" "10.0.0.9")
      until_shown refl

-- After the longest delay the instance is taken without an address.
lookup_loop_test :
    (lookup_loop an_input "i1" 0 (instance "RUNNING" "") (quiet ∷ quiet ∷ quiet ∷ broken ∷ [])).1
    ≡ some (ok (instance "RUNNING" ""))
unfolding lookup_loop lookup_round backoff half double
lookup_loop_test = refl

backoff-min_example : backoff (pos 30) (pos 900) 4 ≡ pos (min (30 * 2 ^ 4) 900)
backoff-min_example = backoff-min 30 900 4 (omega arith) (omega arith) (omega arith)

budget : HasBudget an_input 3
budget = record {
  low = 30;
  high = 240;
  retry_min = refl;
  retry_max = refl;
  positive = omega arith;
  ordered = omega arith;
  fits = omega arith;
  doublings = omega arith;
}

launch_loop-ends_example : (launch_loop an_input 0 busy).1 ≢ none
launch_loop-ends_example =
    launch_loop-ends an_input 3 budget busy (omega arith)
      ((λ e. cc), ((λ e. cc), ((λ e. cc), ((λ e. cc), tt))))

abbrev lookups : List LookupRound
lookups =
    lookup (instance "RUNNING" "")
    ∷ lookup (instance "RUNNING" "")
    ∷ lookup (instance "RUNNING" "")
    ∷ lookup (instance "RUNNING" "")
    ∷ []

fresh : HasFreshTemp home_file stored_disk
unfolding strip_suffix find_file take_chars
fresh = record { no_json = refl; absent = refl }

abbrev accepted_state : LocalState
accepted_state = record (mark_accepted digest "states" "home" "target" 9 "i1" a_state) {
  updated_at = 9;
}

abbrev accepted_disk : Disk
accepted_disk = record stored_disk {
  files = (home_file, Content.document accepted_state false) ∷ [];
}

accepted_test : accepted digest "states" "home" "target" 9 "i1" stored_disk ≡ (ok tt, accepted_disk)
unfolding accepted update locking try_lock path acquire load decode save replace_file validate
    put_file remove_file find_file trim_space contains_char take_chars encode_fault
accepted_test = refl

accepted-load_example :
    (s : LocalState) × (t : LocalState) × (load digest "states" "home" "target" stored_disk ≡ ok s)
    × (load digest "states" "home" "target" accepted_disk ≡ ok t)
    × (t.lifecycle ≡ provisioning)
    × (t.instance_id ≡ "i1")
    × (t.last_result ≡ "launch accepted")
    × (t.updated_at ≡ 9)
    × SameAttempt digest "states" "home" "target" 9 s t
    × (t.public_ip ≡ s.public_ip)
    × (t.last_error ≡ s.last_error)
    × (accepted_disk.held ≡ stored_disk.held)
accepted-load_example =
    accepted-load digest "states" "home" "target" 9 "i1" stored_disk accepted_disk fresh
      accepted_test

abbrev finished_disk : Disk
finished_disk = record stored_disk {
  files =
      (
        home_file,
        Content.document
            (record (mark_finished digest "states" "home" "target" 9 (instance "RUNNING" "10.0.0.9")
              a_state) { updated_at = 9 })
            false,
      )
      ∷ [];
}

finished_test :
    finished digest "states" "home" "target" 9 (instance "RUNNING" "10.0.0.9") stored_disk
    ≡ (ok tt, finished_disk)
unfolding finished update locking try_lock path acquire load decode save replace_file validate
    put_file remove_file find_file trim_space contains_char take_chars encode_fault
finished_test = refl

abbrev an_answer : LaunchResult
an_answer = record { kind = LaunchKind.ambiguous; instance = instance "" ""; retry_after = pos 5 }

guarded_admitted_example :
    (guarded_launch one_failure "c" false (an_answer, some a_fault) ≡ (an_answer, some a_fault))
    × (guarded_reconcile one_failure "c" false ((instance "RUNNING" "", true), some a_fault)
        ≡ ((instance "RUNNING" "", true), some a_fault))
    × (guarded_get one_failure "c" false (instance "RUNNING" "", some a_fault)
        ≡ (instance "RUNNING" "", some a_fault))
guarded_admitted_example =
    guarded_admitted one_failure "c" false an_answer (instance "RUNNING" "") true (some a_fault)
      a_fault-IsForeign refl
