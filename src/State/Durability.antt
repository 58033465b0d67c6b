-- ===== src/State/Durability.antt =====
-- internal/state/state.go: what readers find after `Save`.
use ocihood.Base.{
  Bool, true, false, ◌≡◌, sym, ◌⊎◌, inl, inr, Option, none, some, List, arith, if◌then◌else◌, ◌||◌,
  Bool-cases, strip_suffix,
}
use ocihood.State.{LocalState}
use ocihood.State.Disk.{
  FilePath, same_path, same_path_iff, Content, malformed, document, Op, Disk, read, find_file,
  put_file, remove_file, find_file-put_file, find_file-remove_file,
}
use ocihood.State.Store.{Locked, temp_of, replace_file, stamped, save}

-- The documented behaviour of `os.CreateTemp(dir, ".state-*")`: the name is new, and no state file's.
pub record HasFreshTemp (p : FilePath) (d : Disk) : Type 0 where
  pub no_json : strip_suffix ".json" d.temp ≡ none
  pub absent : read (temp_of p d) d ≡ none

read-created :
    (tmp q : FilePath) (c : Content) (fs : List (FilePath × Content))
    → find_file q (remove_file tmp (put_file tmp c fs))
      ≡ (if same_path tmp q then none else find_file q fs)
read-created tmp q c fs =
    ground (arith, find_file-remove_file tmp q (put_file tmp c fs), find_file-put_file tmp q c fs)

read-moved :
    (tmp p q : FilePath) (c : Content) (fs : List (FilePath × Content))
    → find_file q (remove_file tmp (put_file p c (remove_file tmp (put_file tmp c fs))))
      ≡ (if same_path tmp q then none else if same_path p q then some c else find_file q fs)
read-moved tmp p q c fs = ground (
  arith,
  find_file-remove_file tmp q (put_file p c (remove_file tmp (put_file tmp c fs))),
  find_file-put_file p q c (remove_file tmp (put_file tmp c fs)),
  read-created tmp q c fs,
)

-- The same where the temporary file is not removed after the rename.
read-renamed :
    (tmp p q : FilePath) (c : Content) (fs : List (FilePath × Content))
    → find_file q (put_file p c (remove_file tmp (put_file tmp c fs)))
      ≡ (if same_path p q then some c else if same_path tmp q then none else find_file q fs)
read-renamed tmp p q c fs =
    ground (
      arith,
      find_file-put_file p q c (remove_file tmp (put_file tmp c fs)),
      read-created tmp q c fs,
    )

read-written :
    (tmp : FilePath) (c : Content) (fs : List (FilePath × Content))
    → find_file tmp (put_file tmp c fs) ≡ some c
read-written tmp c fs = ground (arith, find_file-put_file tmp tmp c fs, same_path_iff tmp tmp)

-- What a reader finds at `q` before and after a replacement of `p`.
abbrev pub Replaced : FilePath → FilePath → Content → Option Content → Option Content → Type 0
Replaced p q c old new = (new ≡ old) ⊎ (same_path p q ≡ true) × (new ≡ some c)

module _ (p q : FilePath) (c : Content) (d : Disk) where
  pub replace_file_ok :
      (replace_file p c d).0 ≡ none
      → same_path (temp_of p d) q ≡ false
      → read q (replace_file p c d).1 ≡ (if same_path p q then some c else read q d)
  unfolding replace_file
  replace_file_ok h other = ground (
    arith,
    read-renamed (temp_of p d) p q c d.files,
    read-moved (temp_of p d) p q c d.files,
    read-written (temp_of p d) c d.files,
  )

  replace_file_any :
      same_path (temp_of p d) q ≡ false → Replaced p q c (read q d) (read q (replace_file p c d).1)
  unfolding replace_file
  replace_file_any h = ground (
    arith,
    read-created (temp_of p d) q malformed d.files,
    read-created (temp_of p d) q c d.files,
    find_file-put_file (temp_of p d) q malformed d.files,
    find_file-put_file (temp_of p d) q c d.files,
    read-renamed (temp_of p d) p q c d.files,
    read-moved (temp_of p d) p q c d.files,
    read-written (temp_of p d) c d.files,
  )

  replace_file_temp :
      d.fails Op.remove_temp ≡ false
      → same_path (temp_of p d) q ≡ true
      → read q d ≡ none
      → read q (replace_file p c d).1 ≡ none
  unfolding replace_file
  replace_file_temp removed h fresh = ground (
    arith,
    read-created (temp_of p d) q malformed d.files,
    read-created (temp_of p d) q c d.files,
    find_file-put_file (temp_of p d) q malformed d.files,
    find_file-put_file (temp_of p d) q c d.files,
    read-renamed (temp_of p d) p q c d.files,
    read-moved (temp_of p d) p q c d.files,
    read-written (temp_of p d) c d.files,
  )

-- The steps before the file is replaced.
abbrev pub fails_early : Disk → Bool
fails_early d =
    d.fails Op.create_temp
    || d.fails Op.chmod_temp
    || d.fails Op.write_temp
    || d.fails Op.sync_temp
    || d.fails Op.close_temp
    || d.fails Op.rename_temp

replace_file_early :
    (p q : FilePath) (c : Content) (d : Disk)
    → fails_early d ≡ true
    → same_path (temp_of p d) q ≡ false
    → read q (replace_file p c d).1 ≡ read q d
unfolding replace_file
replace_file_early p q c d h k = ground (
  arith,
  read-created (temp_of p d) q malformed d.files,
  read-created (temp_of p d) q c d.files,
  find_file-put_file (temp_of p d) q malformed d.files,
  find_file-put_file (temp_of p d) q c d.files,
)

-- A temporary file that could not be removed.
abbrev pub IsLeft : FilePath → FilePath → Disk → Type 0
IsLeft p q d = (q ≡ temp_of p d) × (d.fails Op.remove_temp ≡ true)

module _ (l : Locked) (s : LocalState) (d : Disk) (q : FilePath)
    (fresh : HasFreshTemp l.path d) where
  save_temp :
      temp_of l.path d ≡ q → d.fails Op.remove_temp ≡ false → read q (save l s d).1 ≡ read q d
  unfolding save
  save_temp e removed =
      let same : same_path (temp_of l.path d) q ≡ true = (same_path_iff (temp_of l.path d) q).1 e in
      let absent : read q d ≡ none = rw e at fresh.absent in
      ground (arith, replace_file_temp l.path q (document (stamped s) false) d removed same absent)

  save_other :
      same_path (temp_of l.path d) q ≡ false
      → Replaced l.path q (document (stamped s) false) (read q d) (read q (save l s d).1)
  unfolding save
  save_other other = ground (arith, replace_file_any l.path q (document (stamped s) false) d other)

-- Whichever operation of `Save` fails, a reader finds at every path either what was there before, or,
-- at the path of the state alone, the whole new document; or the path is that of the temporary file,
-- and the file could not be removed.
pub save-Replaced :
    (l : Locked) (s : LocalState) (d : Disk) (q : FilePath)
    → HasFreshTemp l.path d
    → Replaced l.path q (document (stamped s) false) (read q d) (read q (save l s d).1)
      ⊎ IsLeft l.path q d
save-Replaced l s d q fresh = elim (Bool-cases (same_path (temp_of l.path d) q)) [
  | inr other ↦ inl (save_other l s d q fresh other)
  | inl same ↦
      let e = (same_path_iff (temp_of l.path d) q).0 same in
      elim (Bool-cases (d.fails Op.remove_temp)) [
        | inl stuck ↦ inr (sym e, stuck)
        | inr removed ↦ inl (inl (save_temp l s d q fresh e removed))
      ]
]

-- A failure before the replacement (no temporary file, or an error on it, or a failed rename) leaves
-- what every reader finds as it was, but for a temporary file that could not be removed.
pub save_early :
    (l : Locked) (s : LocalState) (d : Disk) (q : FilePath)
    → HasFreshTemp l.path d
    → fails_early d ≡ true
    → (read q (save l s d).1 ≡ read q d) ⊎ IsLeft l.path q d
unfolding save
save_early l s d q fresh early = elim (Bool-cases (same_path (temp_of l.path d) q)) [
  | inr other ↦
      inl (ground (arith, replace_file_early l.path q (document (stamped s) false) d early other))
  | inl same ↦
      let e = (same_path_iff (temp_of l.path d) q).0 same in
      elim (Bool-cases (d.fails Op.remove_temp)) [
        | inl stuck ↦ inr (sym e, stuck)
        | inr removed ↦ inl (save_temp l s d q fresh e removed)
      ]
]
