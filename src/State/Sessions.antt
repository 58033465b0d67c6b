-- ===== src/State/Sessions.antt =====
-- internal/state/state.go: a session of a writer, from `TryLock` to the deferred `Close`.
use ocihood.Base.{
  String, false, not, ◌≡◌, refl, sym, ap, ◌∙◌, Option, none, some, arith, keep, Bool-cases,
  Option-cases, inl, inr,
}
use ocihood.Errors.{Err}
use ocihood.Io.{Result, ok, err, Io, >>=-eq-ok, finally_ok, to_result}
use ocihood.State.{LocalState}
use ocihood.State.Disk.{FilePath, same_path, Content, Disk, read, rename}
use ocihood.State.Store.{
  Locked, lock_of, acquire, close, save, replace_file, stamped, file_of, try_lock, load, locking,
  save_or_fail, locked_busy,
}
use ocihood.State.Locking.{try_lock-HasLocked, keep_others, same_path_refl, path-eq, path_cases}
use ocihood.State.Durability.{HasFreshTemp}
use ocihood.State.RoundTrip.{load-save}

acquire_fails :
    (lock : FilePath) (busy e : Err) (d d' : Disk) → acquire lock busy d ≡ (err e, d') → d' ≡ d
unfolding acquire
acquire_fails lock busy e d d' h = ground arith

rename-held : (from to : FilePath) (d : Disk) → (rename from to d).held ≡ d.held
rename-held from to d = elim (Option-cases (read from d)) [
  | inl e ↦ rw (e, rename) refl
  | inr (c, e) ↦ rw (e, rename) refl
]

replace_file-held : (p : FilePath) (c : Content) (d : Disk) → (replace_file p c d).1.held ≡ d.held
unfolding replace_file
replace_file-held p c d = ground arith

pub save-held : (l : Locked) (s : LocalState) (d : Disk) → (save l s d).1.held ≡ d.held
unfolding save
save-held l s d = ground (arith, replace_file-held l.path (Content.document (stamped s) false) d)

to_result_ok : (e : Option Err) → to_result e ≡ ok tt → e ≡ none
to_result_ok none h = refl
to_result_ok (some e) h = absurd (cc)

pub save_or_fail_ok :
    (l : Locked) (s : LocalState) (d d' : Disk)
    → save_or_fail l s d ≡ (ok tt, d')
    → ((save l s d).0 ≡ none) × (d' ≡ (save l s d).1)
save_or_fail_ok l s d d' h = (to_result_ok (save l s d).0 (ap (λ r. r.0) h), sym (ap (λ r. r.1) h))

module _ (sha256 : String → String) (root account target : String) where
  load-close :
      (l : Locked) (d : Disk)
      → load sha256 root account target (close l d).1 ≡ load sha256 root account target d
  unfolding load
  load-close l d = elim (Bool-cases l.closed) [ inl e ↦ rw e refl | inr e ↦ rw e refl ]

  try_lock_fails :
      (e : Err) (d d' : Disk) → try_lock sha256 root account target d ≡ (err e, d') → d' ≡ d
  unfolding try_lock
  try_lock_fails e d d' h = elim (path_cases sha256 root account target) [
    | inl (f, refused) ↦ ground arith
    | inr admitted ↦ ground (
      arith,
      acquire_fails (lock_of (file_of sha256 root account target)) (locked_busy sha256 root) e d d',
    )
  ]

  close-held :
      (l : Locked) (d : Disk)
      → l.closed ≡ false
      → (close l d).1.held ≡ keep (λ q. not (same_path (lock_of l.path) q)) d.held
  close-held l d h = ground arith

  locking_on :
      {A : Type 0} (body : Locked → Io Disk A) (d u : Disk) (r : Result Locked)
      → ((l : Locked) (v : Disk) → (body l v).1.held ≡ v.held)
      → try_lock sha256 root account target d ≡ (r, u)
      → (locking sha256 root account target body d).1.held ≡ d.held
  unfolding locking
  locking_on body d u (err e) keeps h = rw h (ap (λ w. w.held) (try_lock_fails e d u h))
  locking_on body d u (ok l) keeps h =
      let t = try_lock-HasLocked sha256 root account target l d u h in
      rw h (
        close-held l (body l u).1 t.writer.2
        ∙ rw (keeps l u, t.taken, same_path_refl (lock_of l.path))
            (keep_others (lock_of l.path) d.held t.free))

  -- Whatever is done in a session, and whether or not it fails, the locks held after it are those
  -- held before.
  pub locking-held :
      {A : Type 0} (body : Locked → Io Disk A) (d : Disk)
      → ((l : Locked) (v : Disk) → (body l v).1.held ≡ v.held)
      → (locking sha256 root account target body d).1.held ≡ d.held
  locking-held body d keeps =
      locking_on body d (try_lock sha256 root account target d).1
        (try_lock sha256 root account target d).0 keeps refl

  -- What a successful session did: the lock, the body on the disk with the lock held, the release.
  pub record Session {A : Type 0} (body : Locked → Io Disk A) (x : A) (d d' : Disk) : Type 0 where
    pub writer : Locked
    pub before : Disk
    pub after : Disk
    pub locked : try_lock sha256 root account target d ≡ (ok writer, before)
    pub ran : body writer before ≡ (ok x, after)
    pub left : d' ≡ (close writer after).1

  pub locking_ok :
      {A : Type 0} (body : Locked → Io Disk A) (x : A) (d d' : Disk)
      → locking sha256 root account target body d ≡ (ok x, d')
      → Session body x d d'
  unfolding locking
  locking_ok body x d d' h =
      let (l, u, got, rest) = >>=-eq-ok (try_lock sha256 root account target) _ d h in
      let (ran, left) = finally_ok (body l) (λ e. (close l e).1) u rest in
      record { writer = l; before = u; after = (body l u).1; locked = got; ran = ran; left = left }

  module _ {A : Type 0} {body : Locked → Io Disk A} {x : A} {d d' : Disk}
      (k : Session body x d d') where
    pub before-load : load sha256 root account target k.before ≡ load sha256 root account target d
    unfolding load
    before-load =
        let t = try_lock-HasLocked sha256 root account target k.writer d k.before k.locked in
        rw t.taken refl

    -- What the session saved last without an error is what a load finds after it.
    pub saved-load :
        (s : LocalState) (u : Disk)
        → HasFreshTemp (file_of sha256 root account target) d
        → u ≡ k.before
        → save_or_fail k.writer s u ≡ (ok tt, k.after)
        → load sha256 root account target d' ≡ ok (stamped s)
    saved-load s u fresh same last =
        let t = try_lock-HasLocked sha256 root account target k.writer d k.before k.locked in
        let named = path-eq sha256 root account target t.admitted in
        let still : HasFreshTemp k.writer.path k.before =
          rw (t.taken, named) (record { no_json = fresh.no_json; absent = fresh.absent }) in
        let (saved, after) = save_or_fail_ok k.writer s k.before k.after (rw same at last) in
        rw (k.left, after, load-close k.writer (save k.writer s k.before).1)
          (load-save sha256 root account target k.writer s d k.before k.locked still saved)
