-- ===== src/State/Store.antt =====
-- internal/state/state.go: the store. A store is its root directory; `sha256` takes a text to the
-- hexadecimal digits of its SHA-256 sum.
use ocihood.Base.{
  ℕ, ◌*◌, leb, String, Bool, true, false, ◌&&◌, ◌||◌, not, Option, none, some, List, [], ◌∷◌,
  str_eq, ◌==◌, if◌then◌else◌, any, keep, ◌^^◌, is_blank, take_chars, contains_char, strip_suffix,
  eq_int,
}
use ocihood.Errors.{Err, message, wrapped, sentinel, no_local_state}
use ocihood.Io.{Result, ok, err, and_then, Io, ◌>>=◌, ◌>>◌, pure, lift, finally, to_result}
use ocihood.Time.{hour}
use ocihood.State.{LocalState, schema_version, validate}
use ocihood.State.Disk.{
  FilePath, same_path, Content, unreadable, malformed, document, make_dir, take_lock, chmod_lock,
  create_temp, chmod_temp, write_temp, sync_temp, close_temp, rename_temp, remove_temp, open_dir,
  sync_dir, read_dir, Disk, read, write, remove, rename,
}

-- The error of a failed file operation.
abbrev pub io_error : Err
io_error = message "input/output error"

abbrev is_separator : ℕ → Bool
is_separator c = c == 0x2f || c == 0x5c

-- The texts that `path` refuses as a target id.
abbrev pub is_unsafe : String → Bool
is_unsafe t = is_blank t || contains_char is_separator t || str_eq t "." || str_eq t ".."

abbrev pub lock_of : FilePath → FilePath
lock_of p = record p { name = p.name ^^ ".lock" }

abbrev pub run_lock_of : FilePath → FilePath
run_lock_of p = record p { name = p.name ^^ ".run.lock" }

-- `flock.New(lock).TryLock()` between `MkdirAll` and `Chmod`.
unfoldable pub acquire : FilePath → Err → Io Disk (Unit {0})
acquire lock busy d =
    if d.fails make_dir
    then (err (wrapped "create state directory" io_error), d)
    else if d.fails take_lock
    then (err (wrapped "lock state" io_error), d)
    else if any (same_path lock) d.held
    then (err busy, d)
    else if d.fails chmod_lock
    then (err (wrapped "restrict lock permissions" io_error), d)
    else (ok tt, record d { held = lock ∷ d.held })

-- `lock.Unlock()`
abbrev pub release : FilePath → Disk → Disk
release lock d = record d { held = keep (λ l. not (same_path lock l)) d.held }

-- `Locked`: the exclusive writer of one account and target. The file that it writes is fixed by them.
pub record Locked : Type 0 where
  pub path : FilePath
  pub account : String
  pub target : String
  pub closed : Bool

-- `l.lock.Locked()`
abbrev pub owns : Locked → Disk → Bool
owns l d = any (same_path (lock_of l.path)) d.held

abbrev pub close : Locked → Disk → Locked × Disk
close l d = if l.closed then (l, d) else (record l { closed = true }, release (lock_of l.path) d)

abbrev pub temp_of : FilePath → Disk → FilePath
temp_of p d = record p { name = d.temp }

-- The deferred `os.Remove` of the temporary file, whose error is dropped.
abbrev pub discard : FilePath → Disk → Disk
discard tmp d = if d.fails remove_temp then d else remove tmp d

-- The writes of `Save`, from the temporary file to the sync of the directory; at the end, whatever
-- happens, the temporary file is discarded. A write that fails leaves a part of the text.
unfoldable pub replace_file : FilePath → Content → Disk → Option Err × Disk
replace_file p c d =
    let tmp = temp_of p d in
    let created = write tmp malformed d in
    let written = write tmp c d in
    if d.fails create_temp
    then (some (wrapped "create temporary state" io_error), d)
    else if d.fails chmod_temp
    then (some (wrapped "restrict temporary state permissions" io_error), discard tmp created)
    else if d.fails write_temp
    then (some (wrapped "write temporary state" io_error), discard tmp created)
    else if d.fails sync_temp
    then (some (wrapped "sync temporary state" io_error), discard tmp written)
    else if d.fails close_temp
    then (some (wrapped "close temporary state" io_error), discard tmp written)
    else if d.fails rename_temp
    then (some (wrapped "replace state atomically" io_error), discard tmp written)
    else let moved = discard tmp (rename tmp p written) in
      if d.fails open_dir
      then (some (wrapped "open state directory for sync" io_error), moved)
      else if d.fails sync_dir
      then (some (wrapped "sync state directory" io_error), moved)
      else (none, moved)

-- `value.SchemaVersion = SchemaVersion`
abbrev pub stamped : LocalState → LocalState
stamped s = record s { schema_version = schema_version }

-- The first point in time whose year has five digits, which `time.Time` does not encode as JSON.
abbrev year_10000 : ℕ
year_10000 = 3_652_059 * 24 * hour

-- The error of `json.MarshalIndent`.
unfoldable pub encode_fault : LocalState → Option Err
encode_fault s =
    if leb year_10000 s.attempt_valid_to
      || leb year_10000 s.last_attempt
      || leb year_10000 s.next_attempt
      || leb year_10000 s.updated_at
    then some (
        message
          "json: error calling MarshalJSON for type time.Time: year outside of range [0,9999]")
    else none

unfoldable pub save : Locked → LocalState → Disk → Option Err × Disk
save l s d =
    if l.closed || not (owns l d)
    then (some (message "state writer no longer owns the lock"), d)
    else if not (str_eq s.account l.account) || not (str_eq s.target_id l.target)
    then (some (message "state identity does not match locked account and target"), d)
    else elim (validate (stamped s)) [
      | some e ↦ (some e, d)
      | none ↦ elim (encode_fault s) [
        | some e ↦ (some (wrapped "encode state" e), d)
        | none ↦ replace_file l.path (document (stamped s) false) d
      ]
    ]

-- `load`, from the content that was read.
unfoldable pub decode : String → String → Option Content → Result LocalState
decode account target none = err (sentinel no_local_state)
decode account target (some unreadable) = err (wrapped "read state" io_error)
decode account target (some malformed) = err (wrapped "decode state" (message "invalid JSON"))
decode account target (some (document s trailing)) =
    if trailing
    then err (message "decode state: trailing data")
    else if not (eq_int s.schema_version schema_version)
    then err (message "unsupported state schema version")
    else if not (str_eq s.account account) || not (str_eq s.target_id target)
    then err (message "state identity does not match its path")
    else elim (validate s) [ some e ↦ err e | none ↦ ok s ]

module _ (sha256 : String → String) (root : String) where
  -- The first 16 bytes of the digest, in hexadecimal.
  abbrev pub account_key : String → String
  account_key account = take_chars 32 (sha256 account)

  abbrev pub file_of : String → String → FilePath
  file_of account target = record {
    root = root;
    account_key = account_key account;
    name = target ^^ ".json";
  }

  unfoldable pub path : String → String → Result FilePath
  path account target =
      if is_blank account || is_unsafe target
      then err (message "account and safe target ID are required")
      else ok (file_of account target)

  abbrev pub locked_busy : Err
  locked_busy = message "state is locked by another writer"

  abbrev pub run_busy : Err
  run_busy = message "provisioning run is already active"

  unfoldable pub try_lock : String → String → Io Disk Locked
  try_lock account target = do
    p ← lift (path account target)
    acquire (lock_of p) locked_busy
    pure (record { path = p; account = account; target = target; closed = false })

  -- The guard of a run is its lock.
  unfoldable pub try_run_lock : String → String → Io Disk FilePath
  try_run_lock account target = do
    p ← lift (path account target)
    acquire (run_lock_of p) run_busy
    pure (run_lock_of p)

  unfoldable pub load : String → String → Disk → Result LocalState
  load account target d = and_then (path account target) (λ p. decode account target (read p d))

  -- The names before `.json` in the account's directory, with their contents.
  unfoldable pub state_files : String → List (FilePath × Content) → List (String × Content)
  unfolding strip_suffix
  state_files account [] = []
  state_files account ((q, c) ∷ fs) =
      let rest = state_files account fs in
      if str_eq q.root root && str_eq q.account_key (account_key account)
      then elim (strip_suffix ".json" q.name) [ some t ↦ (t, c) ∷ rest | none ↦ rest ]
      else rest

  unfoldable pub load_sole : String → List (String × Content) → Result LocalState
  unfolding decode
  load_sole account [] = err (sentinel no_local_state)
  load_sole account ((target, c) ∷ []) = decode account target (some c)
  load_sole account (_ ∷ _ ∷ _) =
      err (message "account has several target states; select a target explicitly")

  -- A directory that is missing has no files.
  unfoldable pub load_account : String → Disk → Result LocalState
  unfolding state_files load_sole
  load_account account d =
      if d.fails read_dir
      then err (wrapped "list account state" io_error)
      else load_sole account (state_files account d.files)

  -- `TryLock`, `defer locked.Close()`, and what is done between them.
  unfoldable pub locking : {A : Type 0} → String → String → (Locked → Io Disk A) → Io Disk A
  locking account target body =
      try_lock account target >>= λ l. finally (body l) (λ d. (close l d).1)

-- `Save`, whose error ends the caller.
abbrev pub save_or_fail : Locked → LocalState → Io Disk (Unit {0})
save_or_fail l s d = let (e, d') = save l s d in (to_result e, d')
