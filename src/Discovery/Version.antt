-- ===== src/Discovery/Version.antt =====
-- internal/discovery/discovery.go: `ubuntuVersion`, with `strings.Cut` and `strconv.Atoi`.
use Prim.Native.Char.{code}
use ocihood.Base.{
  ℕ, ◌+◌, ◌-◌, ◌*◌, ◌^◌, String, ◌&&◌, ◌||◌, Option, none, some, leb, ◌==◌, if◌then◌else◌,
  contains_char, str_eq, ℤ, pos, sub_ℕ,
}

-- `strings.Cut(s, ".")`
unfoldable pub cut : String → Option (String × String)
cut String.[] = none
cut (String.◌∷◌ c s) =
    let rest = cut s in
    if code c == b'.'
    then some ("", s)
    else elim rest [ none ↦ none | some (a, b) ↦ some (String.◌∷◌ c a, b) ]

unfoldable pub digits : String → ℕ → Option ℕ
digits String.[] acc = some acc
digits (String.◌∷◌ c s) acc =
    let rest = digits s (acc * 10 + (code c - 48)) in
    if leb 48 (code c) && leb (code c) 57 then rest else none

-- At least one digit, and a value within the limit.
unfoldable pub magnitude : ℕ → String → Option ℕ
unfolding digits
magnitude limit s =
    if str_eq s ""
    then none
    else elim (digits s 0) [ none ↦ none | some n ↦ if leb n limit then some n else none ]

abbrev as_pos : Option ℕ → Option ℤ
as_pos none = none
as_pos (some n) = some (pos n)

abbrev as_neg : Option ℕ → Option ℤ
as_neg none = none
as_neg (some n) = some (sub_ℕ 0 n)

-- `strconv.Atoi`
unfoldable pub atoi : String → Option ℤ
unfolding magnitude
atoi String.[] = none
atoi (String.◌∷◌ c s) =
    if code c == b'-'
    then as_neg (magnitude (2 ^ 63) s)
    else if code c == b'+'
    then as_pos (magnitude (2 ^ 63 - 1) s)
    else as_pos (magnitude (2 ^ 63 - 1) (String.◌∷◌ c s))

-- Major and minor, where the third value is true.
unfoldable pub ubuntu_version : String → Option (ℤ × ℤ)
unfolding cut atoi
ubuntu_version value = elim (cut value) [
  | none ↦ none
  | some (major, minor) ↦
      if contains_char (λ c. c == 32 || c == 9) value then none else elim (atoi major) [
        | none ↦ none
        | some a ↦ elim (atoi minor) [ none ↦ none | some b ↦ some (a, b) ]
      ]
]
