-- ===== src/State/RoundTrip.antt =====
-- internal/state/state.go: `Load` after `Save`, and what `Load` accepts.
use ocihood.Base.{
  String, true, false, ◌≡◌, ◌≢◌, ◌↔◌, inl, inr, refl, ap, ◌∙◌, pos, negsuc, Option, none, some,
  arith, strip_suffix-append, eq_iff, eq_int, ℤ, ◌^^◌,
}
use ocihood.Errors.{sentinel, no_local_state}
use ocihood.Io.{ok, err}
use ocihood.State.{LocalState, schema_version, validate}
use ocihood.State.Disk.{FilePath, same_path, Content, unreadable, malformed, document, Disk, read}
use ocihood.State.Store.{
  Locked, temp_of, replace_file, stamped, save, decode, path, file_of, try_lock, load,
}
use ocihood.State.Locking.{try_lock-HasLocked, path-eq, same_path_refl, path_cases}
use ocihood.State.Durability.{HasFreshTemp, replace_file_ok}

save_inv :
    (l : Locked) (s : LocalState) (d : Disk)
    → (save l s d).0 ≡ none
    → (s.account ≡ l.account)
      × (s.target_id ≡ l.target)
      × (validate (stamped s) ≡ none)
      × ((replace_file l.path (document (stamped s) false) d).0 ≡ none)
      × ((save l s d).1 ≡ (replace_file l.path (document (stamped s) false) d).1)
unfolding save
save_inv l s d h = ground (arith, eq_iff s.account l.account, eq_iff s.target_id l.target)

decode-stamped :
    (s : LocalState) (account target : String)
    → s.account ≡ account
    → s.target_id ≡ target
    → validate (stamped s) ≡ none
    → decode account target (some (document (stamped s) false)) ≡ ok (stamped s)
unfolding decode
decode-stamped s account target p q v =
    ground (arith, eq_iff s.account account, eq_iff s.target_id target)

not_temp :
    (p : FilePath) (target : String) (d : Disk)
    → p.name ≡ target ^^ ".json"
    → HasFreshTemp p d
    → same_path (temp_of p d) p ≡ false
not_temp p target d named fresh =
    let (r, e) = strip_suffix-append target ".json" in
    ground (arith, eq_iff d.temp p.name, fresh.no_json, e)

-- What a writer saved without an error, a load of the same account and target reads back, stamped
-- with the schema version.
pub load-save :
    (sha256 : String → String) (root account target : String) (l : Locked) (s : LocalState)
    (start d : Disk)
    → try_lock sha256 root account target start ≡ (ok l, d)
    → HasFreshTemp l.path d
    → (save l s d).0 ≡ none
    → load sha256 root account target (save l s d).1 ≡ ok (stamped s)
unfolding load
load-save sha256 root account target l s start d locked fresh saved =
    let k = try_lock-HasLocked sha256 root account target l start d locked in
    let named : l.path ≡ file_of sha256 root account target =
      path-eq sha256 root account target k.admitted in
    let (same_account, same_target, valid, replaced, after) = save_inv l s d saved in
    let other = not_temp l.path target d (ap (λ p. p.name) named) fresh in
    let found : read l.path (save l s d).1 ≡ some (document (stamped s) false) = rw (
      after,
      replace_file_ok l.path l.path (document (stamped s) false) d replaced other,
      same_path_refl l.path,
    ) in
    rw (k.admitted, found)
      (decode-stamped s account target (same_account ∙ k.writer.0) (same_target ∙ k.writer.1) valid)

eq_int-eq : (a b : ℤ) → eq_int a b ≡ true → a ≡ b
eq_int-eq (pos a) (pos b) h = ground arith
eq_int-eq (negsuc a) (negsuc b) h = ground arith
eq_int-eq _ _ h = absurd (cc)

decode_ok :
    (account target : String) (c : Option Content) (s : LocalState)
    → decode account target c ≡ ok s
    → (s.account ≡ account)
      × (s.target_id ≡ target)
      × (s.schema_version ≡ schema_version)
      × (validate s ≡ none)
      × (c ≡ some (document s false))
unfolding decode
decode_ok account target none s h = absurd (cc)
decode_ok account target (some unreadable) s h = absurd (cc)
decode_ok account target (some malformed) s h = absurd (cc)
decode_ok account target (some (document t trailing)) s h = ground (
  arith,
  eq_iff t.account account,
  eq_iff t.target_id target,
  eq_int-eq t.schema_version schema_version,
)

validate-message : (s : LocalState) → validate s ≢ some (sentinel no_local_state)
unfolding validate
validate-message s = ground arith

decode_absent :
    (account target : String) (c : Option Content)
    → decode account target c ≡ err (sentinel no_local_state)
    → c ≡ none
unfolding decode
decode_absent account target none h = refl
decode_absent account target (some unreadable) h = absurd (cc)
decode_absent account target (some malformed) h = absurd (cc)
decode_absent account target (some (document s trailing)) h = ground (arith, validate-message s)

-- Every state that a load returns belongs to the account and target that were asked for, has the
-- supported schema version and is valid, and the file of that account and target holds it alone.
pub load_ok :
    (sha256 : String → String) (root account target : String) (d : Disk) {s : LocalState}
    → load sha256 root account target d ≡ ok s
    → (s.account ≡ account)
      × (s.target_id ≡ target)
      × (s.schema_version ≡ schema_version)
      × (validate s ≡ none)
      × (read (file_of sha256 root account target) d ≡ some (document s false))
unfolding load
load_ok sha256 root account target d {s} h = elim (path_cases sha256 root account target) [
  | inl (e, refused) ↦ absurd (ground arith)
  | inr admitted ↦
      decode_ok account target (read (file_of sha256 root account target) d) s (rw admitted at h)
]

-- "No local state" is reported exactly when there is no file for an account and target that are
-- admitted: a file that cannot be read or decoded, or holds an invalid state, is another error.
pub load_absent_iff :
    (sha256 : String → String) (root account target : String) (d : Disk)
    → path sha256 root account target ≡ ok (file_of sha256 root account target)
    → (load sha256 root account target d ≡ err (sentinel no_local_state))
      ↔ (read (file_of sha256 root account target) d ≡ none)
unfolding load
load_absent_iff sha256 root account target d h = rw h (
  decode_absent account target (read (file_of sha256 root account target) d),
  λ e. rw e (unfold decode in refl),
)
