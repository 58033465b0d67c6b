-- ===== src/Discovery/Walk.antt =====
-- internal/discovery/discovery.go: what `all` collects, and when its loop ends.
use mathlib.Core.List.{append_assoc}
use ocihood.Base.{
  ℕ, zero, suc, ◌≤◌, ◌<◌, String, true, false, not, ◌≡◌, ◌≢◌, ap, Option, none, some, List, [], ◌∷◌,
  ◌++◌, arith, length, keep, any, str_eq, eq_iff, Bool-cases, Option-cases, inl, inr, ◌∙◌,
}
use ocihood.Errors.{Err}
use ocihood.Io.{Result, ok, err, Result-cases, Io}
use ocihood.Errors.Kinds.{provider}
use ocihood.Discovery.{Page, fail}
use ocihood.Discovery.Pages.{is_seen, all_from, all}

-- How many of the tokens have not been seen.
abbrev unseen : List String → List String → ℕ
unseen seen tokens = length (keep (λ t. not (is_seen seen t)) tokens)

unseen-le : (seen tokens : List String) (t : String) → unseen (t ∷ seen) tokens ≤ unseen seen tokens
unseen-le seen [] t = omega arith
unseen-le seen (u ∷ us) t = ground (arith, unseen-le seen us t)

-- A token that is seen for the first time leaves fewer of them.
unseen-lt :
    (seen tokens : List String) (t : String)
    → any (str_eq t) tokens ≡ true
    → is_seen seen t ≡ false
    → unseen (t ∷ seen) tokens < unseen seen tokens
unseen-lt seen [] t h new = absurd (cc)
unseen-lt seen (u ∷ us) t h new = elim (Bool-cases (str_eq t u)) [
  | inl same ↦
      let e : t ≡ u = (eq_iff t u).0 same in
      let new' : is_seen seen u ≡ false = rw (← e) new in ground (arith, unseen-le seen us t)
  | inr other ↦ ground (arith, unseen-lt seen us t)
]

unseen-le-length : (tokens : List String) → unseen [] tokens ≤ length tokens
unseen-le-length [] = omega arith
unseen-le-length (t ∷ ts) = omega (arith, unseen-le-length ts)

module _ {W A : Type 0} (ctx_error : W → Option Err) (stage : String)
    (fetch : String → Io W (Page A)) where
  -- The pages that are read from the page `page` on, one after the other, up to one without a next.
  pub data Pages : String → W → List A → W → Type 0 where
    last :
        (page : String) (w : W) (p : Page A) (v : W)
        → ctx_error w ≡ none
        → fetch page w ≡ (ok p, v)
        → p.next ≡ ""
        → Pages page w p.items v
    more :
        (page : String) (w : W) (p : Page A) (u : W) (rest : List A) (v : W)
        → ctx_error w ≡ none
        → fetch page w ≡ (ok p, u)
        → p.next ≢ ""
        → Pages p.next u rest v
        → Pages page w (p.items ++ rest) v

  -- Wherever the provider stands, the next token of a page is one of the tokens.
  abbrev pub HasTokens : List String → Type 0
  HasTokens tokens =
      (page : String) (w : W) (p : Page A) (v : W)
      → fetch page w ≡ (ok p, v)
      → p.next ≢ ""
      → any (str_eq p.next) tokens ≡ true

  walk : ℕ → String → List String → List A → W → Option (Result (List A) × W)
  walk = all_from ctx_error stage fetch

  module _ (fuel : ℕ) (page : String) (seen : List String) (result : List A) (w u : W) (p : Page A)
      (go : ctx_error w ≡ none) (read : fetch page w ≡ (ok p, u)) where
    walk_last :
        str_eq p.next "" ≡ true
        → walk (suc fuel) page seen result w ≡ some (ok (result ++ p.items), u)
    unfolding walk all_from
    walk_last h = ground arith

    walk_again :
        str_eq p.next "" ≡ false
        → is_seen seen p.next ≡ true
        → (e : Err) × (walk (suc fuel) page seen result w ≡ some (err e, u))
    unfolding walk all_from
    walk_again h k = (fail provider stage "provider repeated a pagination token", ground arith)

    walk_more :
        str_eq p.next "" ≡ false
        → is_seen seen p.next ≡ false
        → walk (suc fuel) page seen result w
          ≡ walk fuel p.next (p.next ∷ seen) (result ++ p.items) u
    unfolding walk all_from
    walk_more h k = ground arith

  walk-ends :
      (tokens : List String)
      → HasTokens tokens
      → (fuel : ℕ) (page : String) (seen : List String) (result : List A) (w : W)
      → unseen seen tokens < fuel
      → walk fuel page seen result w ≢ none
  unfolding walk all_from
  walk-ends tokens has zero page seen result w h = absurd (omega arith)
  walk-ends tokens has (suc fuel) page seen result w h = elim (Option-cases (ctx_error w)) [
    | inr (e, stop) ↦ ground arith
    | inl go ↦ elim (Result-cases (fetch page w).0) [
      | inr (e, bad) ↦ ground (arith, go, bad)
      | inl (p, good) ↦
          let f : fetch page w ≡ (ok p, (fetch page w).1) = ap (λ r. (r, (fetch page w).1)) good in
          elim (Bool-cases (str_eq p.next "")) [
            | inl done ↦ rw (walk_last fuel page seen result w _ p go f done) (λ q. cc)
            | inr not_done ↦ elim (Bool-cases (is_seen seen p.next)) [
              | inl again ↦
                  rw (walk_again fuel page seen result w _ p go f not_done again).1 (λ q. cc)
              | inr new ↦
                  let m : p.next ≢ "" = ground (arith, eq_iff p.next "") in
                  let less = unseen-lt seen tokens p.next (has page w p _ f m) new in
                  rw (walk_more fuel page seen result w _ p go f not_done new) (
                    walk-ends tokens has fuel p.next (p.next ∷ seen) (result ++ p.items)
                      (fetch page w).1 (omega arith))
            ]
          ]
    ]
  ]

  walk-Pages :
      (fuel : ℕ) (page : String) (seen : List String) (result : List A) (w : W) (xs : List A)
      (v : W)
      → walk fuel page seen result w ≡ some (ok xs, v)
      → (rest : List A) × (xs ≡ result ++ rest) × Pages page w rest v
  unfolding walk all_from
  walk-Pages zero page seen result w xs v h = absurd (cc)
  walk-Pages (suc fuel) page seen result w xs v h = elim (Option-cases (ctx_error w)) [
    | inr (e, stop) ↦ absurd (ground arith)
    | inl go ↦ elim (Result-cases (fetch page w).0) [
      | inr (e, bad) ↦ absurd (ground arith)
      | inl (p, good) ↦
          let f : fetch page w ≡ (ok p, (fetch page w).1) = ap (λ r. (r, (fetch page w).1)) good in
          elim (Bool-cases (str_eq p.next "")) [
            | inl done ↦
                let g : some (ok (result ++ p.items), (fetch page w).1) ≡ some (ok xs, v) =
                  rw (walk_last fuel page seen result w _ p go f done) at h in
                let same : (fetch page w).1 ≡ v = cc in
                (
                  p.items,
                  cc,
                  Pages.last page w p v go (f ∙ ap (λ x. (ok p, x)) same)
                      (ground (arith, eq_iff p.next "")),
                )
            | inr not_done ↦ elim (Bool-cases (is_seen seen p.next)) [
              | inl again ↦ absurd (ground arith)
              | inr new ↦
                  let g = rw (walk_more fuel page seen result w _ p go f not_done new) at h in
                  let (rest, e, pages) =
                    walk-Pages fuel p.next (p.next ∷ seen) (result ++ p.items) (fetch page w).1 xs v
                      g in
                  (
                    p.items ++ rest,
                    e ∙ append_assoc result p.items rest,
                    Pages.more page w p (fetch page w).1 rest v go f
                        (ground (arith, eq_iff p.next "")) pages,
                  )
            ]
          ]
    ]
  ]

  -- Where the tokens of the listing are finitely many, the walk ends within one round more than
  -- there are tokens.
  pub all-ends :
      (tokens : List String)
      → HasTokens tokens
      → (fuel : ℕ) (w : W) → length tokens < fuel
      → all ctx_error stage fetch fuel w ≢ none
  unfolding all walk
  all-ends tokens has fuel w h =
      walk-ends tokens has fuel "" [] [] w (omega (arith, unseen-le-length tokens))

  -- What the walk returns is the items of the pages that it reads, each reached by the token of the one
  -- before, from the first to one without a next, in their order.
  pub all-Pages :
      (fuel : ℕ) (w : W) (xs : List A) (v : W)
      → all ctx_error stage fetch fuel w ≡ some (ok xs, v)
      → Pages "" w xs v
  unfolding all walk
  all-Pages fuel w xs v h =
      let (rest, e, pages) = walk-Pages fuel "" [] [] w xs v h in rw (← e) at pages
