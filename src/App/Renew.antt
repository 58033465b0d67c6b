-- ===== src/App/Renew.antt =====
-- internal/app/app.go: what `newAttemptAndPersist` stores.
use mathlib.Core.Path.{subst}
use ocihood.Base.{ℕ, String, ◌≡◌, refl, sym, ap, ◌∙◌, List}
use ocihood.Io.{ok, lift, query, >>=-eq-ok, query_ok}
use ocihood.Reconcile.{Attempt, new_attempt}
use ocihood.Reconcile.Attempts.{AreBytes, new_attempt-IsComplete}
use ocihood.State.{LocalState, provisioning}
use ocihood.State.Disk.{Disk}
use ocihood.State.Store.{load, stamped, file_of, locking, save_or_fail}
use ocihood.State.Durability.{HasFreshTemp}
use ocihood.State.Sessions.{locking_ok, before-load, saved-load}
use ocihood.App.Persist.{attempt_validity, with_attempt, renewing, new_attempt_and_persist}
use ocihood.App.WriteAhead.{Pending}

module _ (sha256 : String → String) (root account target : String) (random : List ℕ) (now : ℕ) where
  abbrev renewed_state : Attempt → LocalState → LocalState
  renewed_state a v = record (with_attempt a now v) {
    updated_at = now;
    instance_id = "";
    last_error = "";
  }

  -- What a session that stores the attempt `a` and returns `b` has done.
  record Renewed (a b : Attempt) (d d' : Disk) : Type 0 where
    value : LocalState
    before : load sha256 root account target d ≡ ok value
    after : load sha256 root account target d' ≡ ok (stamped (renewed_state a value))

  renewing-same :
      (a b : Attempt) (d d' : Disk)
      → locking sha256 root account target (renewing sha256 root account target a now) d
        ≡ (ok b, d')
      → a ≡ b
  renewing-same a b d d' h =
      let k =
        locking_ok sha256 root account target (renewing sha256 root account target a now) b d d'
          h in
      let (s, u, found, rest) =
        >>=-eq-ok (query (load sha256 root account target)) _ k.before k.ran in
      let (_, w, saved, returned) =
        >>=-eq-ok (save_or_fail k.writer (renewed_state a s)) _ u rest in
      cc

  renewing-Renewed :
      (a b : Attempt) (d d' : Disk)
      → HasFreshTemp (file_of sha256 root account target) d
      → locking sha256 root account target (renewing sha256 root account target a now) d
        ≡ (ok b, d')
      → Renewed a b d d'
  renewing-Renewed a b d d' fresh h =
      let k =
        locking_ok sha256 root account target (renewing sha256 root account target a now) b d d'
          h in
      let (s, u, found, rest) =
        >>=-eq-ok (query (load sha256 root account target)) _ k.before k.ran in
      let (loaded, still) = query_ok (load sha256 root account target) k.before found in
      let (_, w, saved, returned) =
        >>=-eq-ok (save_or_fail k.writer (renewed_state a s)) _ u rest in
      let last : w ≡ k.after = cc in
      record {
        value = s;
        before = sym (before-load sha256 root account target k) ∙ loaded;
        after =
            saved-load sha256 root account target k (renewed_state a s) u fresh still
              (saved ∙ ap (λ x. (ok tt, x)) last);
      }

  -- The attempt that was generated, and the session that stored it.
  persisted :
      (d d' : Disk) (a : Attempt)
      → new_attempt_and_persist sha256 root account target random now d ≡ (ok a, d')
      → ((new_attempt random now attempt_validity).0 ≡ ok a)
        × (locking sha256 root account target (renewing sha256 root account target a now) d
            ≡ (ok a, d'))
  unfolding new_attempt_and_persist
  persisted d d' a h =
      let (b, u, made, rest) = >>=-eq-ok (lift (new_attempt random now attempt_validity).0) _ d h in
      let same = renewing-same b a u d' rest in
      let still : u ≡ d = ap (λ x. x.1) (sym made) in
      (
        ap (λ x. x.0) made ∙ ap (λ x. ok x) same,
        subst
            (λ x.
              locking sha256 root account target (renewing sha256 root account target x now) d
              ≡ (ok a, d'))
            same
            (subst
              (λ x.
                locking sha256 root account target (renewing sha256 root account target b now) x
                ≡ (ok a, d'))
              still rest),
      )

  pub new_attempt_and_persist_made :
      (d d' : Disk) (a : Attempt)
      → new_attempt_and_persist sha256 root account target random now d ≡ (ok a, d')
      → (new_attempt random now attempt_validity).0 ≡ ok a
  new_attempt_and_persist_made d d' a h = (persisted d d' a h).0

  -- A new attempt is durable before it is launched with: when `newAttemptAndPersist` returns it
  -- without an error, a load finds a provisioning state with its id, its retry token, which are not
  -- blank, and its expiry, which lies ahead; no instance and no error are left in the state.
  -- (The random source gives bytes, and the temporary file is new.)
  pub new_attempt_and_persist-load :
      (d d' : Disk) (a : Attempt)
      → AreBytes random
      → HasFreshTemp (file_of sha256 root account target) d
      → new_attempt_and_persist sha256 root account target random now d ≡ (ok a, d')
      → (s : LocalState) × (load sha256 root account target d' ≡ ok s)
        × (s.lifecycle ≡ provisioning)
        × Pending a s now
        × (s.instance_id ≡ "")
        × (s.last_error ≡ "")
  new_attempt_and_persist-load d d' a bytes fresh h =
      let (made, stored) = persisted d d' a h in
      let k = renewing-Renewed a a d d' fresh stored in
      let (complete, later) =
        new_attempt-IsComplete random now attempt_validity a
          (new_attempt random now attempt_validity).1 bytes
          (ap (λ r. (r, (new_attempt random now attempt_validity).1)) made) in
      (
        stamped (renewed_state a k.value),
        k.after,
        refl,
        ((refl, refl, refl), complete, later),
        refl,
        refl,
      )
