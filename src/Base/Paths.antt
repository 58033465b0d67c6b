-- ===== src/Base/Paths.antt =====
-- The parts of `path/filepath` that the program uses, as they are on Unix.
use Prim.Native.Char.{Char, code}
use Prim.Native.String.{String, [], ◌∷◌}
use mathlib.Core.Bool.{Bool, false, ◌||◌}
use mathlib.Core.List.{List, ◌++◌}
use text.Mathlib.Text.{◌==◌ as str_eq}
use mathlib.Core.Path.{◌≡◌, refl}
use mathlib.Core.Logic.{◌⊎◌, inl, inr}
use ocihood.Base.Logic.{◌==◌, if◌then◌else◌, Bool-cases, if-intro}
use ocihood.Base.Text.{◌^^◌, join}
use ocihood.Base.Hex.{prepend_nonempty}

-- `c == '/'`
abbrev is_slash : Char → Bool
is_slash c = code c == 47

abbrev cons_head : Char → List String → List String
cons_head c List.[] = List.◌∷◌ (c ∷ []) List.[]
cons_head c (List.◌∷◌ s ss) = List.◌∷◌ (c ∷ s) ss

-- What stands between the slashes.
unfoldable pub split_path : String → List String
split_path [] = List.◌∷◌ "" List.[]
split_path (c ∷ s) =
    let rest = split_path s in if is_slash c then List.◌∷◌ "" rest else cons_head c rest

abbrev is_rooted : String → Bool
is_rooted [] = false
is_rooted (c ∷ s) = is_slash c

-- One element onto the path so far, whose last element comes first. A `..` takes the last one off; at
-- the root it is dropped, and before a relative path it stays.
abbrev up : Bool → List String → List String
up rooted List.[] = if rooted then List.[] else List.◌∷◌ ".." List.[]
up rooted (List.◌∷◌ s ss) = if str_eq s ".." then List.◌∷◌ ".." (List.◌∷◌ s ss) else ss

abbrev add_part : Bool → List String → String → List String
add_part rooted out s =
    if str_eq s "" || str_eq s "."
    then out
    else if str_eq s ".."
    then up rooted out
    else List.◌∷◌ s out

abbrev backwards : List String → List String
backwards List.[] = List.[]
backwards (List.◌∷◌ s ss) = backwards ss ++ List.◌∷◌ s List.[]

unfoldable pub clean_parts : Bool → List String → List String → List String
clean_parts rooted out List.[] = backwards out
clean_parts rooted out (List.◌∷◌ s ss) = clean_parts rooted (add_part rooted out s) ss

abbrev or_dot : String → String
or_dot s = if str_eq s "" then "." else s

-- `filepath.Clean`
unfoldable pub clean : String → String
unfolding split_path clean_parts join
clean s =
    let parts = join "/" (clean_parts (is_rooted s) List.[] (split_path s)) in
    if is_rooted s then "/" ^^ parts else or_dot parts

-- `filepath.Join`: leading empty elements are left out.
unfoldable pub join_path : List String → String
unfolding clean
join_path List.[] = ""
join_path (List.◌∷◌ s ss) =
    let rest = join_path ss in if str_eq s "" then rest else clean (join "/" (List.◌∷◌ s ss))

or_dot_nonempty : (s : String) → str_eq (or_dot s) "" ≡ false
or_dot_nonempty s = elim (Bool-cases (str_eq s "")) [ inl e ↦ rw e refl | inr e ↦ rw e e ]

clean_nonempty : (s : String) → str_eq (clean s) "" ≡ false
unfolding clean
clean_nonempty s =
    let parts = join "/" (clean_parts (is_rooted s) List.[] (split_path s)) in
    if-intro (λ t. str_eq t "" ≡ false) (is_rooted s) (λ _. prepend_nonempty "/" parts refl)
      (λ _. or_dot_nonempty parts)

-- A path with an element that is not empty is not empty.
pub join_path_nonempty :
    (s : String) (ss : List String)
    → (str_eq s "" ≡ false) ⊎ (str_eq (join_path ss) "" ≡ false)
    → str_eq (join_path (List.◌∷◌ s ss)) "" ≡ false
unfolding join_path
join_path_nonempty s ss h =
    if-intro (λ t. str_eq t "" ≡ false) (str_eq s "")
      (λ e. elim h [ inl n ↦ absurd (cc) | inr later ↦ later ])
      (λ _. clean_nonempty (join "/" (List.◌∷◌ s ss)))
