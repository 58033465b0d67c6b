-- ===== src/Discovery/Sorting.antt =====
-- internal/discovery/discovery.go: the calls of `sort.Strings` and `sort.Slice`, with the tests that
-- they are given. `sort.Slice` leaves items that compare alike in any order; here they keep theirs.
use Prim.Native.Char.{code}
use ocihood.Base.{String, Bool, true, false, List, [], ◌∷◌, ltb, ◌==◌, if◌then◌else◌}
use ocihood.Discovery.{Image}
use ocihood.Reconcile.{Instance}

-- `<` on texts.
unfoldable pub text_lt : String → String → Bool
text_lt String.[] String.[] = false
text_lt String.[] (String.◌∷◌ d t) = true
text_lt (String.◌∷◌ c s) String.[] = false
text_lt (String.◌∷◌ c s) (String.◌∷◌ d t) =
    let rest = text_lt s t in
    if ltb (code c) (code d) then true else if ltb (code d) (code c) then false else rest

module _ {ℓ} {A : Type ℓ} where
  unfoldable pub insert : (A → A → Bool) → A → List A → List A
  insert less x [] = x ∷ []
  insert less x (y ∷ ys) = let rest = insert less x ys in if less y x then y ∷ rest else x ∷ y ∷ ys

  unfoldable pub sort : (A → A → Bool) → List A → List A
  sort less [] = []
  sort less (x ∷ xs) = insert less x (sort less xs)

-- Newest first, and by id where two are of one time.
unfoldable pub newer : Image → Image → Bool
newer x y =
    if x.created_at == y.created_at then text_lt x.id y.id else ltb y.created_at x.created_at

abbrev pub id_lt : Instance → Instance → Bool
id_lt x y = text_lt x.id y.id
