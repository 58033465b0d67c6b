-- ===== src/App/Samples.antt =====
-- Data to try the runs on.
use ocihood.Base.{false, ℕ, ◌*◌, ◌+◌, some, List, [], ◌∷◌, pos}
use ocihood.Time.{hour}
use ocihood.Reconcile.{Attempt, Decision, create}
use ocihood.State.{LocalState, zero_state, provisioning}
use ocihood.State.Disk.{Disk, Content}
use ocihood.State.Samples.{home_file, empty_disk}
use ocihood.Config.{Effective}
use ocihood.Config.Resolve.{built_in}

abbrev pub random : List ℕ
random =
    1 ∷ 2 ∷ 3 ∷ 4 ∷ 5 ∷ 6 ∷ 7 ∷ 8 ∷ 9 ∷ 10 ∷ 11 ∷ 12 ∷ 13 ∷ 14 ∷ 15 ∷ 16 ∷ 17 ∷ 18 ∷ 19 ∷ 20 ∷ 21
    ∷ 22 ∷ 23 ∷ 24 ∷ 25 ∷ 26 ∷ 27 ∷ 28 ∷ 29 ∷ 30 ∷ 31 ∷ 255 ∷ []

abbrev pub made : Attempt
made = record {
  id = "0102030405060708090a0b0c0d0e0f10";
  retry_token = "0102030405060708090a0b0c0d0e0f101112131415161718191a1b1c1d1e1fff";
  valid_until = 24 * hour + 100;
}

abbrev pub chosen : Decision
chosen = record {
  kind = create;
  instance_id = "";
  attempt = some made;
  reason = "no local state or active managed instance";
}

abbrev pub committed_state : LocalState
committed_state = record zero_state {
  schema_version = pos 1;
  account = "home";
  target_id = "target";
  lifecycle = provisioning;
  attempt_id = made.id;
  retry_token = made.retry_token;
  attempt_valid_to = made.valid_until;
  last_attempt = 100;
  last_result = "no local state or active managed instance";
  updated_at = 100;
}

abbrev pub committed : Disk
committed = record empty_disk { files = (home_file, Content.document committed_state false) ∷ [] }

abbrev pub configured : Effective
configured = record (built_in "/home" "/cfg" "home") { state_dir = "states" }
