-- ===== src/App/Examples.antt =====
-- Tests and witnesses of the application.
use ocihood.Errors.{is}
use ocihood.Base.{
  hex, contains_char, trim_space, take_chars, false, ◌≡◌, refl, inl, none, some, [], ◌∷◌, arith,
  strip_suffix,
}
use ocihood.Io.{ok}
use ocihood.Reconcile.{Decision, new_attempt, decide, retry_same_attempt}
use ocihood.Reconcile.Safety.{NoneAlive}
use ocihood.State.{LocalState, reconcile_state, validate}
use ocihood.State.Disk.{Disk, find_file, put_file, remove_file, Content}
use ocihood.State.Store.{
  encode_fault, load, try_lock, path, acquire, save, replace_file, decode, locking,
}
use ocihood.State.Durability.{HasFreshTemp}
use ocihood.State.Samples.{digest, home_file, empty_disk}
use ocihood.App.Persist.{prior, plan, plan_kind, outcome, reconcile_and_persist, input_of}
use ocihood.App.WriteAhead.{Committed, reconcile_and_persist-Committed}
use ocihood.App.Samples.{random, made, chosen, committed_state, committed, configured}
use ocihood.Discovery.Samples.{a_target}
use ocihood.App.Plan.{Plan, local_state, planned, plan_target, plan_target-reconcile_and_persist}
use ocihood.App.Resume.{reconcile_and_persist-resumes}

abbrev again : Decision
again = record {
  kind = retry_same_attempt;
  instance_id = "";
  attempt = some made;
  reason = "in-flight attempt remains retryable";
}

abbrev later_disk : Disk
later_disk = record empty_disk {
  files =
      (
        home_file,
        Content.document
            (record committed_state {
              last_result = "in-flight attempt remains retryable";
              updated_at = 200;
            })
            false,
      )
      ∷ [];
}

fresh_empty : HasFreshTemp home_file empty_disk
unfolding strip_suffix find_file
fresh_empty = record { no_json = refl; absent = refl }

fresh_committed : HasFreshTemp home_file committed
unfolding strip_suffix find_file take_chars
fresh_committed = record { no_json = refl; absent = refl }

first_test :
    reconcile_and_persist digest "states" "home" "target" [] random 100 empty_disk
    ≡ (ok (chosen, false), committed)
unfolding reconcile_and_persist locking try_lock path acquire load decode prior decide plan
    plan_kind new_attempt save replace_file validate put_file remove_file find_file outcome
    trim_space contains_char is take_chars hex encode_fault
first_test = refl

second_test :
    reconcile_and_persist digest "states" "home" "target" [] [] 200 committed
    ≡ (ok (again, false), later_disk)
unfolding reconcile_and_persist locking try_lock path acquire load decode prior decide plan
    plan_kind new_attempt save replace_file validate put_file remove_file find_file outcome
    reconcile_state trim_space contains_char take_chars encode_fault
second_test = refl

reconcile_and_persist-Committed_example :
    ((s : LocalState) × (load digest "states" "home" "target" committed ≡ ok s)
      × Committed chosen s 100)
    × NoneAlive (input_of digest "states" "home" "target" none [] 100)
reconcile_and_persist-Committed_example =
    reconcile_and_persist-Committed digest "states" "home" "target" [] random 100 empty_disk
      committed (chosen, false) (ground arith) fresh_empty first_test (inl refl)

reconcile_and_persist-resumes_example :
    (again.kind ≡ retry_same_attempt) × (again.attempt ≡ some made)
reconcile_and_persist-resumes_example =
    reconcile_and_persist-resumes digest "states" "home" "target" [] [] random [] 100 200 empty_disk
      committed later_disk (chosen, false) (again, false) made (ground arith) fresh_empty
      fresh_committed first_test (inl refl) refl (omega arith) refl refl second_test

abbrev a_plan : Plan
a_plan = planned configured a_target chosen

plan_test : plan_target digest configured a_target 100 empty_disk ≡ ok a_plan
unfolding plan_target local_state load decode path decide trim_space contains_char find_file is
plan_test = refl

plan_target-reconcile_and_persist_example : chosen.kind ≡ a_plan.action
plan_target-reconcile_and_persist_example =
    plan_target-reconcile_and_persist digest configured a_target 100 empty_disk committed a_plan
      random (chosen, false) fresh_empty plan_test first_test
