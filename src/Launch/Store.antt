-- ===== src/Launch/Store.antt =====
-- internal/launch/runtime.go: `StateStore`, the launch's progress in the local state of its account
-- and target. `now` is what its clock answers.
use ocihood.Base.{ℕ, String, ◌≡◌, refl, ap, sym, ◌∙◌, Option, none, some, inl, inr}
use ocihood.Errors.{Err, error_text}
use ocihood.Io.{ok, Io, ◌>>=◌, query, query_ok, Result-cases, >>=-eq-ok}
use ocihood.State.{LocalState, provisioning, running, failed}
use ocihood.State.Disk.{Disk}
use ocihood.State.Store.{Locked, load, stamped, file_of, locking, save_or_fail}
use ocihood.State.Durability.{HasFreshTemp}
use ocihood.State.Sessions.{locking_ok, locking-held, save-held, before-load, saved-load}
use ocihood.Launch
use ocihood.Launch.{Instance}

module _ (sha256 : String → String) (root account target : String) (now : ℕ) where
  -- What `update` does between the lock and its release.
  abbrev updating : (LocalState → LocalState) → Locked → Io Disk (Unit {0})
  updating f l = query (load sha256 root account target) >>= λ value.
      save_or_fail l (record (f value) { updated_at = now })

  unfoldable pub update : (LocalState → LocalState) → Io Disk (Unit {0})
  update f = locking sha256 root account target (updating f)

  abbrev pub mark_accepted : String → LocalState → LocalState
  mark_accepted id v = record v {
    lifecycle = provisioning;
    instance_id = id;
    last_result = "launch accepted";
  }

  abbrev pub mark_finished : Launch.Instance → LocalState → LocalState
  mark_finished i v = record v {
    lifecycle = running;
    instance_id = i.id;
    public_ip = i.public_ip;
    last_result = i.state;
    last_error = "";
  }

  abbrev pub mark_failed : Option Err → LocalState → LocalState
  mark_failed none v = record v { lifecycle = failed }
  mark_failed (some e) v = record v { lifecycle = failed; last_error = error_text e }

  unfoldable pub accepted : String → Io Disk (Unit {0})
  unfolding update
  accepted id = update (mark_accepted id)

  unfoldable pub finished : Launch.Instance → Io Disk (Unit {0})
  unfolding update
  finished i = update (mark_finished i)

  unfoldable pub failed_with : Option Err → Io Disk (Unit {0})
  unfolding update
  failed_with e = update (mark_failed e)

  updating-held :
      (f : LocalState → LocalState) (l : Locked) (d : Disk) → (updating f l d).1.held ≡ d.held
  updating-held f l d = elim (Result-cases (load sha256 root account target d)) [
    | inl (s, e) ↦ rw e (save-held l (record (f s) { updated_at = now }) d)
    | inr (e, h) ↦ rw h refl
  ]

  -- What an update that succeeded has stored: the change of the state that was there before.
  abbrev pub Updated : (LocalState → LocalState) → Disk → Disk → Type 0
  Updated f d d' =
      (s : LocalState) × (load sha256 root account target d ≡ ok s)
      × (load sha256 root account target d' ≡ ok (stamped (record (f s) { updated_at = now })))
      × (d'.held ≡ d.held)

  update-Updated :
      (f : LocalState → LocalState) (d d' : Disk)
      → HasFreshTemp (file_of sha256 root account target) d
      → update f d ≡ (ok tt, d')
      → Updated f d d'
  unfolding update
  update-Updated f d d' fresh h =
      let k = locking_ok sha256 root account target (updating f) tt d d' h in
      let (s, u, found, rest) =
        >>=-eq-ok (query (load sha256 root account target)) _ k.before k.ran in
      let (loaded, same) = query_ok (load sha256 root account target) k.before found in
      (
        s,
        sym (before-load sha256 root account target k) ∙ loaded,
        saved-load sha256 root account target k (record (f s) { updated_at = now }) u fresh same
            rest,
        ap (λ r. r.1.held) (sym h)
            ∙ locking-held sha256 root account target (updating f) d (updating-held f),
      )

  -- What a launch keeps of the state: whose it is, its attempt and its progress.
  abbrev pub SameAttempt : LocalState → LocalState → Type 0
  SameAttempt s t =
      (t.account ≡ s.account)
      × (t.target_id ≡ s.target_id)
      × (t.attempt_id ≡ s.attempt_id)
      × (t.retry_token ≡ s.retry_token)
      × (t.attempt_valid_to ≡ s.attempt_valid_to)
      × (t.last_attempt ≡ s.last_attempt)
      × (t.next_attempt ≡ s.next_attempt)
      × (t.selected_ad ≡ s.selected_ad)
      × (t.retry_count ≡ s.retry_count)

  -- An `Accepted` that returns no error has recorded the instance before it returns: a load then finds
  -- a provisioning state with the instance's id, the text "launch accepted" and the time of the clock,
  -- and with the account, target, attempt and progress of the state that was loaded before, as well as
  -- its address and its error. The locks that are held are the same again.
  pub accepted-load :
      (id : String) (d d' : Disk)
      → HasFreshTemp (file_of sha256 root account target) d
      → accepted id d ≡ (ok tt, d')
      → (s : LocalState) × (t : LocalState) × (load sha256 root account target d ≡ ok s)
        × (load sha256 root account target d' ≡ ok t)
        × (t.lifecycle ≡ provisioning)
        × (t.instance_id ≡ id)
        × (t.last_result ≡ "launch accepted")
        × (t.updated_at ≡ now)
        × SameAttempt s t
        × (t.public_ip ≡ s.public_ip)
        × (t.last_error ≡ s.last_error)
        × (d'.held ≡ d.held)
  unfolding accepted
  accepted-load id d d' fresh h =
      let (s, before, after, held) = update-Updated (mark_accepted id) d d' fresh h in
      (
        s,
        stamped (record (mark_accepted id s) { updated_at = now }),
        before,
        after,
        refl,
        refl,
        refl,
        refl,
        (refl, refl, refl, refl, refl, refl, refl, refl, refl),
        refl,
        refl,
        held,
      )

  -- A `Finished` that returns no error has recorded the running instance: a load then finds the
  -- state of before as running, with the instance's id, address and state, and without an error.
  -- The lock is free again.
  pub finished-load :
      (i : Launch.Instance) (d d' : Disk)
      → HasFreshTemp (file_of sha256 root account target) d
      → finished i d ≡ (ok tt, d')
      → Updated (mark_finished i) d d'
  unfolding finished
  finished-load i d d' fresh h = update-Updated (mark_finished i) d d' fresh h
