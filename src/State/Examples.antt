-- ===== src/State/Examples.antt =====
-- Tests and witnesses of the store.
use ocihood.Base.{
  contains_char, trim_space, take_chars, ◌⊎◌, false, ◌≡◌, ◌≢◌, refl, none, some, [], strip_suffix,
}
use ocihood.Io.{ok, error_of, pure}
use ocihood.State.{validate, schema_version}
use ocihood.State.Disk.{document, read, find_file, put_file, remove_file}
use ocihood.State.Store.{
  encode_fault, acquire, stamped, save, replace_file, path, try_lock, load, decode, load_account,
  state_files, load_sole, locking,
}
use ocihood.State.Durability.{HasFreshTemp, Replaced, IsLeft, save-Replaced}
use ocihood.State.RoundTrip.{load-save, load_ok}
use ocihood.State.Locking.{try_lock_exclusive}
use ocihood.State.Sessions.{locking-held}
use ocihood.State.Samples.{
  digest, home_file, empty_disk, a_state, stored_disk, locked_disk, full_disk, a_writer,
}

fresh_temp : HasFreshTemp home_file locked_disk
unfolding strip_suffix find_file
fresh_temp = record { no_json = refl; absent = refl }

fresh_full : HasFreshTemp home_file full_disk
unfolding strip_suffix find_file take_chars
fresh_full = record { no_json = refl; absent = refl }

load_test : load digest "states" "home" "target" stored_disk ≡ ok a_state
unfolding load path decode validate find_file trim_space contains_char take_chars
load_test = refl

load_account_test : load_account digest "states" "home" stored_disk ≡ ok a_state
unfolding load_account state_files load_sole decode validate strip_suffix take_chars trim_space
load_account_test = refl

load-save_example :
    load digest "states" "home" "target" (save a_writer a_state locked_disk).1 ≡ ok a_state
unfolding try_lock path acquire save replace_file validate put_file remove_file find_file trim_space
    contains_char take_chars encode_fault
load-save_example =
    load-save digest "states" "home" "target" a_writer a_state empty_disk locked_disk refl
      fresh_temp refl

load_ok_example :
    (a_state.account ≡ "home")
    × (a_state.target_id ≡ "target")
    × (a_state.schema_version ≡ schema_version)
    × (validate a_state ≡ none)
    × (read home_file stored_disk ≡ some (document a_state false))
load_ok_example = load_ok digest "states" "home" "target" stored_disk load_test

save-Replaced_example :
    Replaced home_file home_file
      (document (stamped a_state) false)
      (read home_file full_disk)
      (read home_file (save a_writer a_state full_disk).1)
    ⊎ IsLeft home_file home_file full_disk
save-Replaced_example = save-Replaced a_writer a_state full_disk home_file fresh_full

try_lock_exclusive_example :
    (error_of (try_lock digest "states" "home" "target" locked_disk).0 ≢ none)
    × ((try_lock digest "states" "home" "target" locked_disk).1 ≡ locked_disk)
unfolding try_lock path acquire trim_space contains_char
try_lock_exclusive_example =
    try_lock_exclusive digest "states" "home" "target" a_writer empty_disk locked_disk refl

locking-held_example :
    (locking digest "states" "home" "target" (λ l. pure a_state) stored_disk).1.held ≡ []
locking-held_example =
    locking-held digest "states" "home" "target" (λ l. pure a_state) stored_disk (λ l v. refl)
