-- ===== src/Base/Hex.antt =====
-- Texts that are not empty, or not blank: hexadecimal digits, and what ends with a text.
use Prim.Native.Nat.{ℕ, zero, suc, ◌/◌, ◌<◌}
use Prim.Native.Char.{Char, code}
use Prim.Native.String.{String, [], ◌∷◌}
use mathlib.Core.Path.{◌≡◌, refl, ap}
use mathlib.Core.Bool.{Bool, true, false, ◌&&◌, not}
use mathlib.Core.List.{List}
use native.Mathlib.Omega.{arith}
use ocihood.Base.Logic.{◌==◌, Bool-cases, str_eq-false}
use mathlib.Core.Logic.{inl, inr}
use text.Mathlib.Text.{◌==◌ as str_eq}
use text.Mathlib.TextLemmas.{nil-append, cons-append}
use ocihood.Base.Text.{◌^^◌, is_space, is_blank, trim_space, trim_left, trim_right, hex, hex_digit}

-- Whether a test holds of every number below `n`.
abbrev below : (ℕ → Bool) → ℕ → Bool
below p zero = true
below p (suc n) = p n && below p n

below_at : (p : ℕ → Bool) (n d : ℕ) → below p n ≡ true → d < n → p d ≡ true
below_at p zero d h k = absurd (omega arith)
below_at p (suc n) d h k = elim (Bool-cases (d == n)) [
  | inl same ↦ let e : d ≡ n = ground arith in rw e (ground arith)
  | inr other ↦ below_at p n d (ground arith) (ground arith)
]

hex_digit-space : (d : ℕ) → d < 16 → is_space (code (hex_digit d)) ≡ false
hex_digit-space d h =
    let e = below_at (λ k. not (is_space (code (hex_digit k)))) 16 d refl h in ground (arith, e)

is_empty : String → Bool
is_empty [] = true
is_empty (c ∷ s) = false

cons_empty : (c : Char) (s : String) → (c ∷ s ≡ "") → ⊥
unfolding is_empty
cons_empty c s e = let f : false ≡ true = ap is_empty e in cc

visible : (c : Char) (s : String) → is_space (code c) ≡ false → is_blank (c ∷ s) ≡ false
unfolding trim_space trim_left trim_right
visible c s h = rw h (rw h (str_eq-false (c ∷ trim_right s) "" (cons_empty c (trim_right s))))

pub hex-blank : (b : ℕ) (bs : List ℕ) → b < 256 → is_blank (hex (List.◌∷◌ b bs)) ≡ false
unfolding hex
hex-blank b bs h = visible (hex_digit (b / 16)) _ (hex_digit-space (b / 16) (omega arith))

pub append_nonempty : (s t : String) → str_eq t "" ≡ false → str_eq (s ^^ t) "" ≡ false
append_nonempty [] t h = rw (nil-append t) h
append_nonempty (c ∷ s) t h =
    rw (cons-append c s t) (str_eq-false (c ∷ (s ^^ t)) "" (cons_empty c (s ^^ t)))

pub prepend_nonempty : (s t : String) → str_eq s "" ≡ false → str_eq (s ^^ t) "" ≡ false
prepend_nonempty [] t h = absurd (ground arith)
prepend_nonempty (c ∷ s) t h =
    rw (cons-append c s t) (str_eq-false (c ∷ (s ^^ t)) "" (cons_empty c (s ^^ t)))
