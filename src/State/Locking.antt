-- ===== src/State/Locking.antt =====
-- internal/state/state.go: the advisory locks of writers.
use ocihood.Base.{
  String, true, false, not, ◌||◌, ◌≡◌, ◌≢◌, ◌⊎◌, refl, none, List, [], ◌∷◌, arith, any, keep,
  Bool-cases, inl, inr, is_blank,
}
use ocihood.Errors.{Err, message, wrapped}
use ocihood.Io.{ok, err, error_of, >>=-eq-ok, lift}
use ocihood.State.{LocalState}
use ocihood.State.Disk.{FilePath, same_path, same_path_iff, Disk, Op}
use ocihood.State.Store.{
  Locked, lock_of, acquire, close, save, path, file_of, try_lock, is_unsafe, locked_busy, io_error,
}

pub same_path_refl : (p : FilePath) → same_path p p ≡ true
same_path_refl p = (same_path_iff p p).1 refl

pub keep_others :
    (p : FilePath) (ps : List FilePath)
    → any (same_path p) ps ≡ false
    → keep (λ l. not (same_path p l)) ps ≡ ps
keep_others p [] h = refl
keep_others p (q ∷ ps) h = ground (arith, keep_others p ps)

acquired :
    (lock : FilePath) (busy : Err) (d d' : Disk)
    → acquire lock busy d ≡ (ok tt, d')
    → (any (same_path lock) d.held ≡ false) × (d' ≡ record d { held = lock ∷ d.held })
unfolding acquire
acquired lock busy d d' h = ground arith

refused :
    (lock : FilePath) (busy : Err) (d : Disk)
    → any (same_path lock) d.held ≡ true
    → (e : Err) × (acquire lock busy d ≡ (err e, d))
unfolding acquire
refused lock busy d h = elim (Bool-cases (d.fails Op.make_dir)) [
  | inl a ↦ (wrapped "create state directory" io_error, rw a)
  | inr a ↦ elim (Bool-cases (d.fails Op.take_lock)) [
    | inl b ↦ (wrapped "lock state" io_error, rw (a, b))
    | inr b ↦ (busy, rw (a, b, h))
  ]
]

pub path-eq :
    (sha256 : String → String) (root account target : String) {p : FilePath}
    → path sha256 root account target ≡ ok p
    → p ≡ file_of sha256 root account target
unfolding path
path-eq sha256 root account target h = ground arith

pub path_cases :
    (sha256 : String → String) (root account target : String)
    → ((e : Err) × (path sha256 root account target ≡ err e))
      ⊎ (path sha256 root account target ≡ ok (file_of sha256 root account target))
unfolding path
path_cases sha256 root account target = elim (Bool-cases (is_blank account || is_unsafe target)) [
  | inl bad ↦ inl (message "account and safe target ID are required", rw bad)
  | inr fine ↦ inr (rw fine)
]

module _ (sha256 : String → String) (root account target : String) where
  -- What a successful `TryLock` has done.
  pub record HasLocked (l : Locked) (d d' : Disk) : Type 0 where
    pub admitted : path sha256 root account target ≡ ok l.path
    pub writer : (l.account ≡ account) × (l.target ≡ target) × (l.closed ≡ false)
    pub free : any (same_path (lock_of l.path)) d.held ≡ false
    pub taken : d' ≡ record d { held = lock_of l.path ∷ d.held }

  pub try_lock-HasLocked :
      (l : Locked) (d d' : Disk)
      → try_lock sha256 root account target d ≡ (ok l, d')
      → HasLocked l d d'
  unfolding try_lock
  try_lock-HasLocked l d d' h =
      let (p, u, admitted, rest) = >>=-eq-ok (lift (path sha256 root account target)) _ d h in
      let (x, u', took, last) =
        >>=-eq-ok (acquire (lock_of p) (locked_busy sha256 root)) _ u rest in
      let (free, taken) = acquired (lock_of p) (locked_busy sha256 root) u u' took in
      record {
        admitted = ground arith;
        writer = (ground arith, ground arith, ground arith);
        free = ground arith;
        taken = ground arith;
      }

  -- While a writer holds the lock of an account and target, no second one is admitted, and nothing
  -- changes.
  pub try_lock_exclusive :
      (l : Locked) (d d' : Disk)
      → try_lock sha256 root account target d ≡ (ok l, d')
      → (error_of (try_lock sha256 root account target d').0 ≢ none)
        × ((try_lock sha256 root account target d').1 ≡ d')
  unfolding try_lock
  try_lock_exclusive l d d' h =
      let k = try_lock-HasLocked l d d' h in
      let busy : any (same_path (lock_of l.path)) d'.held ≡ true =
        rw (k.taken, same_path_refl (lock_of l.path)) in
      let (e, no_lock) = refused (lock_of l.path) (locked_busy sha256 root) d' busy in
      rw (k.admitted, no_lock) ((λ p. cc), refl)

  -- Closing the writer gives the disk back as it was before the lock was taken.
  pub close-try_lock :
      (l : Locked) (d d' : Disk)
      → try_lock sha256 root account target d ≡ (ok l, d')
      → (close l d').1 ≡ d
  close-try_lock l d d' h =
      let k = try_lock-HasLocked l d d' h in
      rw (k.writer.2, k.taken, same_path_refl (lock_of l.path))
        (rw (keep_others (lock_of l.path) d.held k.free))

  -- A writer that was closed saves nothing.
  pub save-close :
      (l : Locked) (s : LocalState) (d e : Disk)
      → ((save (close l d).0 s e).0 ≢ none) × ((save (close l d).0 s e).1 ≡ e)
  unfolding save
  save-close l s d e = ground arith
