-- ===== src/State/Disk.antt =====
-- The part of the file system that internal/state works on: the files under the state directories,
-- the advisory locks that are held, and which operations fail.
-- The content of a file is what the JSON decoder makes of it: a document decodes to the state that was
-- encoded.
use ocihood.Base.{
  String, Bool, true, ◌&&◌, ◌≡◌, ◌↔◌, refl, Option, none, some, List, [], ◌∷◌, arith, str_eq,
  eq_iff, if◌then◌else◌,
}
use ocihood.State.{LocalState}

-- `filepath.Join(root, account_key, name)`
pub record FilePath : Type 0 where
  pub root : String
  pub account_key : String
  pub name : String

abbrev pub same_path : FilePath → FilePath → Bool
same_path p q = str_eq p.root q.root && str_eq p.account_key q.account_key && str_eq p.name q.name

pub same_path_iff : (p q : FilePath) → (same_path p q ≡ true) ↔ (p ≡ q)
same_path_iff p q =
    ground (arith, eq_iff p.root q.root, eq_iff p.account_key q.account_key, eq_iff p.name q.name)

pub data Content : Type 0 where
  unreadable malformed : Content
  -- A state, and whether more text follows it.
  document : LocalState → Bool → Content

pub data Op : Type 0 where
  make_dir take_lock chmod_lock create_temp chmod_temp write_temp sync_temp close_temp rename_temp
        remove_temp open_dir sync_dir read_dir :
      Op

pub record Disk : Type 0 where
  pub files : List (FilePath × Content)
  pub held : List FilePath
  pub fails : Op → Bool
  -- The name that `os.CreateTemp` chooses.
  pub temp : String

module _ (p : FilePath) where
  unfoldable pub find_file : List (FilePath × Content) → Option Content
  find_file [] = none
  find_file ((q, c) ∷ fs) = if same_path q p then some c else find_file fs

  unfoldable pub put_file : Content → List (FilePath × Content) → List (FilePath × Content)
  put_file c [] = (p, c) ∷ []
  put_file c ((q, d) ∷ fs) = if same_path q p then (p, c) ∷ fs else (q, d) ∷ put_file c fs

  unfoldable pub remove_file : List (FilePath × Content) → List (FilePath × Content)
  remove_file [] = []
  remove_file ((q, d) ∷ fs) =
      let rest = remove_file fs in if same_path q p then rest else (q, d) ∷ rest

abbrev pub read : FilePath → Disk → Option Content
read p d = find_file p d.files

abbrev pub write : FilePath → Content → Disk → Disk
write p c d = record d { files = put_file p c d.files }

abbrev pub remove : FilePath → Disk → Disk
remove p d = record d { files = remove_file p d.files }

pub find_file-put_file :
    (p q : FilePath) (c : Content) (fs : List (FilePath × Content))
    → find_file q (put_file p c fs) ≡ (if same_path p q then some c else find_file q fs)
unfolding find_file put_file
find_file-put_file p q c [] = refl
find_file-put_file p q c ((r, d) ∷ fs) =
    ground
      (arith, same_path_iff r p, same_path_iff r q, same_path_iff p q, find_file-put_file p q c fs)

pub find_file-remove_file :
    (p q : FilePath) (fs : List (FilePath × Content))
    → find_file q (remove_file p fs) ≡ (if same_path p q then none else find_file q fs)
unfolding find_file remove_file
find_file-remove_file p q [] = ground arith
find_file-remove_file p q ((r, d) ∷ fs) =
    ground
      (arith, same_path_iff r p, same_path_iff r q, same_path_iff p q, find_file-remove_file p q fs)

-- `os.Rename`
abbrev pub rename : FilePath → FilePath → Disk → Disk
rename from to d = elim (read from d) [ none ↦ d | some c ↦ write to c (remove from d) ]
