-- ===== src/State/Samples.antt =====
-- A store to try the definitions on.
use ocihood.Base.{String, true, false, [], ◌∷◌, pos, ◌^^◌}
use ocihood.State.{LocalState, zero_state, waiting}
use ocihood.State.Disk.{FilePath, document, Disk, Op}
use ocihood.State.Store.{Locked, file_of, lock_of}

-- It stands for a hash; only that it is a function is used.
abbrev pub digest : String → String
digest s = s ^^ "-0123456789abcdef0123456789abcdef"

abbrev pub home_file : FilePath
home_file = file_of digest "states" "home" "target"

abbrev pub empty_disk : Disk
empty_disk = record { files = []; held = []; fails = λ _. false; temp = ".state-1" }

abbrev pub a_state : LocalState
a_state = record zero_state {
  schema_version = pos 1;
  account = "home";
  target_id = "target";
  lifecycle = waiting;
  attempt_id = "a1";
  retry_token = "a1b2";
  attempt_valid_to = 500;
  updated_at = 7;
}

abbrev pub stored_disk : Disk
stored_disk = record empty_disk { files = (home_file, document a_state false) ∷ [] }

abbrev pub locked_disk : Disk
locked_disk = record empty_disk { held = lock_of home_file ∷ [] }

abbrev pub a_writer : Locked
a_writer = record { path = home_file; account = "home"; target = "target"; closed = false }

-- The write of the temporary file fails.
abbrev pub full_disk : Disk
full_disk = record stored_disk {
  held = lock_of home_file ∷ [];
  fails = λ op. elim op [
    | Op.make_dir ↦ false
    | Op.take_lock ↦ false
    | Op.chmod_lock ↦ false
    | Op.create_temp ↦ false
    | Op.chmod_temp ↦ false
    | Op.write_temp ↦ true
    | Op.sync_temp ↦ false
    | Op.close_temp ↦ false
    | Op.rename_temp ↦ false
    | Op.remove_temp ↦ false
    | Op.open_dir ↦ false
    | Op.sync_dir ↦ false
    | Op.read_dir ↦ false
  ];
}
