-- ===== src/Capacity/Examples.antt =====
-- Tests and witnesses of the watcher.
use ocihood.Base.{
  ℕ, contains_char, trim_space, take_chars, take, ◌≤◌, Bool, true, false, ◌≡◌, ◌≢◌, refl, none,
  List, [], ◌∷◌, pos, All,
}
use ocihood.Errors.Kinds.{CapacityKind, available, unavailable, transient, capacity_kind_text}
use ocihood.Io.{ok}
use ocihood.State.Samples.{digest, home_file, stored_disk, a_state}
use ocihood.State.Disk.{Disk, Content, find_file, put_file, remove_file}
use ocihood.State.Store.{
  encode_fault, load, try_lock, path, acquire, save, replace_file, decode, locking,
}
use ocihood.State.{validate}
use ocihood.Capacity.Samples.{percent}
use ocihood.Capacity.{WatchState, Input, Config, grow, backoff}
use ocihood.Capacity.Watch.{
  Round, Start, watch, watch_loop, watch_round, round_body, on_kind, no_capacity, found, end_cycle,
  wait,
}
use ocihood.Capacity.Once.{asked_domains, rotated, NoSleep, watch-once}
use ocihood.Capacity.Saves.{EndsSaved, watch_loop-EndsSaved}
use ocihood.Capacity.Sleeps.{PersistsSleeps, readings, watch_loop-PersistsSleeps}
use ocihood.Capacity.Store.{save_progress, with_progress}

abbrev a_config : Config percent
a_config = record {
  request_timeout = pos 30;
  initial_interval = pos 30;
  max_interval = pos 900;
  jitter = 20;
}

abbrev a_progress : WatchState
a_progress = record {
  target_id = "target";
  last_ad = "";
  next_ad = pos 0;
  retry_count = pos 0;
  next_attempt = 0;
  status = transient;
}

abbrev an_input : Bool → Input
an_input once = record {
  target_id = "target";
  tenancy_id = "tenancy";
  shape = "VM.Standard.A1.Flex";
  availability_domains = "ad-1" ∷ "ad-2" ∷ [];
  ocpus = pos 2;
  memory_gb = pos 12;
  resume = a_progress;
  once = once;
}

abbrev round : (once : Bool) → CapacityKind → Round percent a_config (an_input once)
round once kind = record {
  probe = record { kind = kind; retry_after = pos 0 };
  error = none;
  request_error = none;
  ctx_error = none;
  save_error = none;
  random = 50;
  now = 1000;
  sleep_error = none;
}

abbrev rounds : (once : Bool) → CapacityKind → List (Round percent a_config (an_input once))
rounds once last = round once unavailable ∷ round once unavailable ∷ round once last ∷ []

abbrev begin : (once : Bool) → Start percent a_config (an_input once)
begin once = record { tested = 0; now = 0; sleep_error = none }

watch-once_example :
    ((k : ℕ) × (k ≤ 2)
      × (asked_domains
            (watch percent a_config (an_input true) true (begin true) (rounds true available)).0
          ≡ take k (rotated ("ad-1" ∷ "ad-2" ∷ []) 0)))
    × All NoSleep
        (watch percent a_config (an_input true) true (begin true) (rounds true available)).0
    × (2 ≤ 3
        → (watch percent a_config (an_input true) true (begin true) (rounds true available)).1
          ≢ none)
watch-once_example =
    watch-once percent a_config (an_input true) true (begin true) (rounds true available) refl

watch_loop-EndsSaved_example :
    EndsSaved false
      (watch_loop percent a_config (an_input false) (pos 0) a_progress (rounds false available)).0
      (record { kind = available; availability_domain = "ad-1" })
unfolding watch_loop watch_round round_body on_kind no_capacity found end_cycle wait backoff grow
watch_loop-EndsSaved_example =
    watch_loop-EndsSaved percent a_config (an_input false) (pos 0) a_progress
      (rounds false available) (record { kind = available; availability_domain = "ad-1" }) refl

watch_loop-PersistsSleeps_example :
    PersistsSleeps none none
      (readings percent a_config (an_input false) (rounds false available))
      (watch_loop percent a_config (an_input false) (pos 0) a_progress (rounds false available)).0
watch_loop-PersistsSleeps_example =
    watch_loop-PersistsSleeps percent a_config (an_input false) (pos 0) a_progress
      (rounds false available)

abbrev seen : WatchState
seen = record a_progress {
  last_ad = "ad-2";
  next_ad = pos 1;
  retry_count = pos 3;
  next_attempt = 77;
  status = unavailable;
}

abbrev seen_disk : Disk
seen_disk = record stored_disk {
  files = (home_file, Content.document (with_progress seen 9 a_state) false) ∷ [];
}

save_test : save_progress digest "states" "home" seen 9 stored_disk ≡ (ok tt, seen_disk)
unfolding save_progress locking try_lock path acquire load decode save replace_file validate
    put_file remove_file find_file capacity_kind_text trim_space contains_char take_chars
    encode_fault
save_test = refl
