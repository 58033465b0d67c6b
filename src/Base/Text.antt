-- ===== src/Base/Text.antt =====
-- The parts of `strings`, `encoding/hex` and `strconv` that the program uses, over code points.
use Prim.Native.Nat.{ℕ, zero, suc, ◌+◌, ◌-◌, ◌/◌, ◌%◌}
use Prim.Native.Char.{Char, code, IsScalar}
use Prim.Native.String
use Prim.Native.String.{String, [], ◌∷◌, char_at}
use mathlib.Core.Path.{◌≡◌, refl}
use mathlib.Core.Bool.{Bool, true, false, ◌&&◌, ◌||◌}
use mathlib.Core.Option.{Option, none, some}
use mathlib.Core.List.{List}
use text.Mathlib.Text.{◌==◌ as str_eq}
use text.Mathlib.TextEquality.{IsScalar-prop}
use text.Mathlib.TextPositions.{eq_refl}
use text.Mathlib.TextLemmas.{nil-append, cons-append}
use mathlib.Core.Logic.{inl, inr}
use mathlib.Core.HLevel.{prop→set}
use ocihood.Base.Logic.{leb, ◌==◌, if◌then◌else◌, Bool-cases}

infixr 65 ◌^^◌
-- Concatenation of texts.
abbrev pub ◌^^◌ : String → String → String
s ^^ t = String.◌++◌ s t

-- `unicode.IsSpace`
abbrev pub is_space : ℕ → Bool
is_space c =
    (leb 9 c && leb c 13)
    || c == 32
    || c == 0x85
    || c == 0xa0
    || c == 0x1680
    || (leb 0x2000 c && leb c 0x200a)
    || c == 0x2028
    || c == 0x2029
    || c == 0x202f
    || c == 0x205f
    || c == 0x3000

unfoldable pub trim_left : String → String
trim_left [] = []
trim_left (c ∷ s) = let rest = trim_left s in if is_space (code c) then rest else c ∷ s

unfoldable pub trim_right : String → String
trim_right [] = []
trim_right (c ∷ s) =
    let rest = trim_right s in if is_space (code c) && str_eq rest "" then [] else c ∷ rest

-- `strings.TrimSpace`
unfoldable pub trim_space : String → String
unfolding trim_left trim_right
trim_space s = trim_right (trim_left s)

-- `strings.TrimSpace(s) == ""`
abbrev pub is_blank : String → Bool
is_blank s = str_eq (trim_space s) ""

lower_char : Char → Char
lower_char c =
    if leb 65 (code c) && leb (code c) 90
    then char_at "abcdefghijklmnopqrstuvwxyz" (code c - 65)
    else c

-- `strings.ToLower`, for the letters of ASCII.
unfoldable pub to_lower : String → String
unfolding lower_char
to_lower [] = []
to_lower (c ∷ s) = lower_char c ∷ to_lower s

-- One hexadecimal digit.
abbrev pub hex_digit : ℕ → Char
hex_digit d = char_at "0123456789abcdef" d

-- `hex.EncodeToString`
unfoldable pub hex : List ℕ → String
hex List.[] = ""
hex (List.◌∷◌ b bs) = hex_digit (b / 16) ∷ hex_digit (b % 16) ∷ hex bs

decimal_from : ℕ → ℕ → String → String
decimal_from zero n acc = acc
decimal_from (suc fuel) n acc =
    let acc' = char_at "0123456789" (n % 10) ∷ acc in
    let rest = decimal_from fuel (n / 10) acc' in if n / 10 == 0 then acc' else rest

-- `%d` of a number that is not negative.
unfoldable pub decimal : ℕ → String
unfolding decimal_from
decimal n = decimal_from (n + 1) n ""

-- `strings.Join`
unfoldable pub join : String → List String → String
join sep List.[] = ""
join sep (List.◌∷◌ s List.[]) = s
join sep (List.◌∷◌ s (List.◌∷◌ t ts)) = s ^^ sep ^^ join sep (List.◌∷◌ t ts)

-- The first `n` characters.
unfoldable pub take_chars : ℕ → String → String
take_chars zero s = []
take_chars (suc n) [] = []
take_chars (suc n) (c ∷ s) = c ∷ take_chars n s

-- `strings.ContainsAny`, for a test on characters.
unfoldable pub contains_char : (ℕ → Bool) → String → Bool
contains_char p [] = false
contains_char p (c ∷ s) = p (code c) || contains_char p s

-- `strings.HasPrefix`, the prefix first.
unfoldable pub has_prefix : String → String → Bool
has_prefix [] s = true
has_prefix (d ∷ t) [] = false
has_prefix (d ∷ t) (c ∷ s) = code d == code c && has_prefix t s

-- `strings.Contains`
unfoldable pub contains : String → String → Bool
unfolding has_prefix
contains [] t = has_prefix t []
contains (c ∷ s) t = has_prefix t (c ∷ s) || contains s t

abbrev cons_to : Char → Option String → Option String
cons_to c none = none
cons_to c (some s) = some (c ∷ s)

-- What stands before the suffix, where the text ends with it.
unfoldable pub strip_suffix : String → String → Option String
strip_suffix suffix [] = if str_eq [] suffix then some "" else none
strip_suffix suffix (c ∷ s) =
    let rest = strip_suffix suffix s in if str_eq (c ∷ s) suffix then some "" else cons_to c rest

pub strip_suffix-append :
    (t suffix : String) → (r : String) × (strip_suffix suffix (t ^^ suffix) ≡ some r)
unfolding strip_suffix
strip_suffix-append [] [] = ("", refl)
strip_suffix-append [] (c ∷ s) = ("", rw (nil-append (c ∷ s), eq_refl (c ∷ s)))
strip_suffix-append (c ∷ t) suffix =
    let (r, e) = strip_suffix-append t suffix in
    elim (Bool-cases (str_eq (c ∷ (t ^^ suffix)) suffix)) [
      | inl same ↦ ("", rw (cons-append c t suffix, same))
      | inr other ↦ (c ∷ r, rw (cons-append c t suffix, other, e))
    ]

-- Lets `hlevel` prove that a type with texts in it is a set.
pub IsScalar-set : (n : ℕ) → IsSet (IsScalar n)
IsScalar-set n = prop→set (IsScalar-prop n)
