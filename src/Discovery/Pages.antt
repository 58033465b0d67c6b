-- ===== src/Discovery/Pages.antt =====
-- internal/discovery/discovery.go: `all`, the walk through the pages of a listing. The rounds left
-- bound the loop: with none left it is still going.
use ocihood.Base.{
  ℕ, zero, suc, String, Bool, Option, none, some, List, [], ◌∷◌, ◌++◌, any, str_eq, if◌then◌else◌,
}
use ocihood.Errors.{Err}
use ocihood.Errors.Kinds.{provider}
use ocihood.Io.{Result, ok, err, Io}
use ocihood.Discovery.{Page, fail, wrap, Task}

abbrev pub is_seen : List String → String → Bool
is_seen seen token = any (λ t. str_eq t token) seen

module _ {W A : Type 0} (ctx_error : W → Option Err) (stage : String)
    (fetch : String → Io W (Page A)) where
  -- What follows a fetch, with the rest of the loop as `again`.
  abbrev pub on_page :
      List String
      → List A
      → (String → List String → List A → Task W (List A))
      → Result (Page A) × W
      → Option (Result (List A) × W)
  on_page seen result again (err e, w) = some (err (wrap stage e), w)
  on_page seen result again (ok p, w) =
      if str_eq p.next ""
      then some (ok (result ++ p.items), w)
      else if is_seen seen p.next
      then some (err (fail provider stage "provider repeated a pagination token"), w)
      else again p.next (p.next ∷ seen) (result ++ p.items) w

  unfoldable pub all_from : ℕ → String → List String → List A → Task W (List A)
  all_from zero page seen result w = none
  all_from (suc fuel) page seen result w = elim (ctx_error w) [
    | some e ↦ some (err (wrap stage e), w)
    | none ↦ on_page seen result (all_from fuel) (fetch page w)
  ]

  unfoldable pub all : ℕ → Task W (List A)
  unfolding all_from
  all fuel = all_from fuel "" [] []
