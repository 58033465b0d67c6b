-- ===== src/Capacity/Store.antt =====
-- internal/capacity/runtime.go: `StateStore`, the watcher's progress in the local state of its
-- account and target. `now` is what its clock answers.
use ocihood.Base.{ℕ, String, ◌≡◌, refl, pos}
use ocihood.Errors.{wrapped}
use ocihood.Errors.Kinds.{
  CapacityKind, available, unavailable, probe_unavailable, throttled, transient, fatal, canceled,
  other, capacity_kind_text, capacity_kind_of,
}
use ocihood.Io.{Result, ok, err, Io, ◌>>=◌, query, query_ok, >>=-eq-ok, and_then}
use ocihood.State.{LocalState, Lifecycle, provisioning, waiting, failed}
use ocihood.State.Disk.{Disk}
use ocihood.State.Store.{Locked, load, file_of, locking, save_or_fail}
use ocihood.State.Durability.{HasFreshTemp}
use ocihood.State.Sessions.{locking_ok, saved-load}
use ocihood.State.RoundTrip.{load_ok}
use ocihood.Capacity.{WatchState}

abbrev pub lifecycle_of : CapacityKind → Lifecycle
lifecycle_of available = provisioning
lifecycle_of probe_unavailable = provisioning
lifecycle_of fatal = failed
lifecycle_of _ = waiting

-- The state as the watcher sees it.
abbrev pub progress_of : LocalState → WatchState
progress_of v = record {
  target_id = v.target_id;
  last_ad = v.selected_ad;
  next_ad = pos 0;
  retry_count = v.retry_count;
  next_attempt = v.next_attempt;
  status = capacity_kind_of v.last_result;
}

-- The state with the watcher's progress.
abbrev pub with_progress : WatchState → ℕ → LocalState → LocalState
with_progress s now v = record v {
  lifecycle = lifecycle_of s.status;
  selected_ad = s.last_ad;
  retry_count = s.retry_count;
  next_attempt = s.next_attempt;
  last_result = capacity_kind_text s.status;
  updated_at = now;
}

-- `fmt.Errorf("load provisioning state: %w", err)`
abbrev labelled : Result LocalState → Result LocalState
labelled (ok v) = ok v
labelled (err e) = err (wrapped "load provisioning state" e)

abbrev pub IsConstant : CapacityKind → Type 0
IsConstant (other _) = ⊥
IsConstant _ = Unit

constant_text : (k : CapacityKind) → IsConstant k → capacity_kind_of (capacity_kind_text k) ≡ k
unfolding capacity_kind_of capacity_kind_text
constant_text available h = refl
constant_text unavailable h = refl
constant_text probe_unavailable h = refl
constant_text throttled h = refl
constant_text transient h = refl
constant_text fatal h = refl
constant_text canceled h = refl
constant_text (other s) h = absurd h

labelled_ok : (r : Result LocalState) {v : LocalState} → labelled r ≡ ok v → r ≡ ok v
labelled_ok (ok a) h = h
labelled_ok (err e) h = absurd (cc)

module _ (sha256 : String → String) (root account : String) where
  unfoldable pub load_progress : String → Disk → Result WatchState
  load_progress target d = and_then (load sha256 root account target d) (λ v. ok (progress_of v))

  abbrev saving : WatchState → ℕ → Locked → Io Disk (Unit {0})
  saving s now l = query (λ d. labelled (load sha256 root account s.target_id d)) >>= λ v.
      save_or_fail l (with_progress s now v)

  unfoldable pub save_progress : WatchState → ℕ → Io Disk (Unit {0})
  save_progress s now = locking sha256 root account s.target_id (saving s now)

  -- What the watcher saved without an error, with one of the constants as its status, it reads back,
  -- but for the index of the next domain, which is not stored.
  pub load_progress-save_progress :
      (s : WatchState) (now : ℕ) (d d' : Disk)
      → IsConstant s.status
      → HasFreshTemp (file_of sha256 root account s.target_id) d
      → save_progress s now d ≡ (ok tt, d')
      → load_progress s.target_id d' ≡ ok (record s { next_ad = pos 0 })
  unfolding save_progress load_progress
  load_progress-save_progress s now d d' constant fresh h =
      let read_state : Disk → Result LocalState =
        λ e. labelled (load sha256 root account s.target_id e) in
      let k = locking_ok sha256 root account s.target_id (saving s now) tt d d' h in
      let (v, u, found, rest) = >>=-eq-ok (query read_state) _ k.before k.ran in
      let (loaded, same) = query_ok read_state k.before found in
      let (_, target, _, _, _) =
        load_ok sha256 root account s.target_id k.before
          (labelled_ok (load sha256 root account s.target_id k.before) loaded) in
      rw
        (
          saved-load sha256 root account s.target_id k (with_progress s now v) u fresh same rest,
          target,
          constant_text s.status constant,
        )
        refl
