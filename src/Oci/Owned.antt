-- ===== src/Oci/Owned.antt =====
-- internal/provider/oci/launch/launch.go: what `Reconcile` finds.
use mathlib.Core.List.{append_assoc}
use ocihood.Base.{
  ℕ, zero, suc, String, true, ◌≡◌, refl, sym, ap, ◌∙◌, Option, none, some, List, [], ◌∷◌, ◌++◌, map,
  arith, Option-cases, inl, inr,
}
use ocihood.Errors.{Err}
use ocihood.Io.{Result, ok, err, Result-cases}
use ocihood.Launch.{Request, Instance}
use ocihood.Reconcile
use ocihood.Reconcile.{State, active_owned, unknown_owned, decide}
use ocihood.Reconcile.Safety.{Launches, decide-Launches}
use ocihood.Oci.{Response, SdkInstance}
use ocihood.Oci.Resources.{of_instance}
use ocihood.Oci.Compute.{
  Clients, alive_ids, list_owned, got_found, among, after_list, get, reconcile, Found,
}
use ocihood.Oci.Alive.{alive_ids-length}

alive_ids-append :
    (t a : String) (xs ys : List SdkInstance)
    → alive_ids t a (xs ++ ys) ≡ alive_ids t a xs ++ alive_ids t a ys
unfolding alive_ids
alive_ids-append t a [] ys = refl
alive_ids-append t a (x ∷ xs) ys = ground (arith, alive_ids-append t a xs ys)

module _ {W : Type 0} (c : Clients W) (i : Request) where
  -- The pages of the listing of instances from the page `page` on, up to one with no next.
  pub data Listing : Option String → W → List SdkInstance → W → Type 0 where
    last :
        (page : Option String) (w : W) (r : Response SdkInstance) (v : W)
        → c.list_instances i.compartment_id page w ≡ (ok r, v)
        → r.opc_next_page ≡ none
        → Listing page w r.items v
    more :
        (page : Option String) (w : W) (r : Response SdkInstance) (token : String) (u : W)
        (rest : List SdkInstance) (v : W)
        → c.list_instances i.compartment_id page w ≡ (ok r, u)
        → r.opc_next_page ≡ some token
        → Listing (some token) u rest v
        → Listing page w (r.items ++ rest) v

  -- What a loop with these ids found so far has found at its end.
  abbrev pub Lists : Option String → W → List String → List String → W → Type 0
  Lists page w found ids v =
      (xs : List SdkInstance) × Listing page w xs v
      × (ids ≡ found ++ alive_ids i.target_id i.account xs)

  module _ (fuel : ℕ) (page : Option String) (found : List String) (w u : W)
      (r : Response SdkInstance) (read : c.list_instances i.compartment_id page w ≡ (ok r, u)) where
    list_owned_last :
        r.opc_next_page ≡ none
        → list_owned c i (suc fuel) page found w
          ≡ some (ok (found ++ alive_ids i.target_id i.account r.items), u)
    unfolding list_owned
    list_owned_last h = ground arith

    list_owned_more :
        (token : String)
        → r.opc_next_page ≡ some token
        → list_owned c i (suc fuel) page found w
          ≡ list_owned c i fuel (some token) (found ++ alive_ids i.target_id i.account r.items) u
    unfolding list_owned
    list_owned_more token h = ground arith

  list_owned-Lists :
      (fuel : ℕ) (page : Option String) (found : List String) (w : W) (ids : List String) (v : W)
      → list_owned c i fuel page found w ≡ some (ok ids, v)
      → Lists page w found ids v
  unfolding list_owned
  list_owned-Lists zero page found w ids v h = absurd (cc)
  list_owned-Lists (suc fuel) page found w ids v h =
      elim (Result-cases (c.list_instances i.compartment_id page w).0) [
        | inr (e, bad) ↦ absurd (ground arith)
        | inl (r, good) ↦
            let u = (c.list_instances i.compartment_id page w).1 in
            let read : c.list_instances i.compartment_id page w ≡ (ok r, u) =
              ap (λ x. (x, u)) good in
            elim (Option-cases r.opc_next_page) [
              | inl done ↦
                  let g : some (ok (found ++ alive_ids i.target_id i.account r.items), u)
                      ≡ some (ok ids, v) =
                    rw (list_owned_last fuel page found w u r read done) at h in
                  let same : u ≡ v = cc in
                  (r.items, Listing.last page w r v (read ∙ ap (λ x. (ok r, x)) same) done, cc)
              | inr (token, next) ↦
                  let g = rw (list_owned_more fuel page found w u r read token next) at h in
                  let (rest, pages, e) =
                    list_owned-Lists fuel (some token)
                      (found ++ alive_ids i.target_id i.account r.items) u ids v g in
                  (
                    r.items ++ rest,
                    Listing.more page w r token u rest v read next pages,
                    e
                        ∙ append_assoc found (alive_ids i.target_id i.account r.items) _
                        ∙ ap (λ l. found ++ l)
                            (sym (alive_ids-append i.target_id i.account r.items rest)),
                  )
            ]
      ]

  got_found_ok :
      (r : Result Instance × W) (x : Instance) (e : Option Err) (v : W)
      → got_found c r ≡ (((x, true), e), v)
      → r ≡ (ok x, v)
  unfolding got_found
  got_found_ok (ok y, u) x e v h = cc
  got_found_ok (err f, u) x e v h = absurd (cc)

  among_found :
      (ids : List String) (w : W) (x : Instance) (e : Option Err) (v : W)
      → among c i.compartment_id ids w ≡ (((x, true), e), v)
      → (id : String) × (ids ≡ id ∷ []) × (get c i.compartment_id id w ≡ (ok x, v))
  unfolding among
  among_found [] w x e v h = absurd (cc)
  among_found (id ∷ []) w x e v h = (id, refl, got_found_ok (get c i.compartment_id id w) x e v h)
  among_found (a ∷ b ∷ ids) w x e v h = absurd (cc)

  after_list_found :
      (r : Option (Result (List String) × W)) (x : Instance) (e : Option Err) (v : W)
      → after_list c i.compartment_id r ≡ some (((x, true), e), v)
      → (ids : List String) × (u : W) × (r ≡ some (ok ids, u))
        × (among c i.compartment_id ids u ≡ (((x, true), e), v))
  unfolding after_list
  after_list_found none x e v h = absurd (cc)
  after_list_found (some (err f, u)) x e v h = absurd (cc)
  after_list_found (some (ok ids, u)) x e v h = (ids, u, refl, cc)

  reconcile_lists :
      (fuel : ℕ) (w : W) {r : Option (Found c × W)}
      → reconcile c fuel i w ≡ r
      → after_list c i.compartment_id (list_owned c i fuel none [] w) ≡ r
  unfolding reconcile
  reconcile_lists fuel w h = h

  -- What `Decide` is given where discovery observes this listing.
  abbrev pub observed : List SdkInstance → Option State → ℕ → Reconcile.Input
  observed xs state now = record {
    target_id = i.target_id;
    account = i.account;
    state = state;
    instances = map of_instance xs;
    now = now;
  }

  -- When `Reconcile` reports an instance, it read the whole listing, one instance alone is there that
  -- is not terminated and carries the target's tags, and on what the discovery's adapter makes of that
  -- listing `Decide` takes no decision to launch, whatever the local state and the time.
  pub reconcile_found :
      (fuel : ℕ) (w : W) (x : Instance) (e : Option Err) (v : W) (state : Option State) (now : ℕ)
      → reconcile c fuel i w ≡ some (((x, true), e), v)
      → (xs : List SdkInstance) × (u : W) × (id : String) × Listing none w xs u
        × (alive_ids i.target_id i.account xs ≡ id ∷ [])
        × (get c i.compartment_id id u ≡ (ok x, v))
        × ¬ Launches (decide (observed xs state now)).kind
  reconcile_found fuel w x e v state now h =
      let (ids, u, listed, chosen) =
        after_list_found (list_owned c i fuel none [] w) x e v (reconcile_lists fuel w h) in
      let (xs, pages, e1) = list_owned-Lists fuel none [] w ids u listed in
      let (id, e2, is_got) = among_found ids u x e v chosen in
      let alone : alive_ids i.target_id i.account xs ≡ id ∷ [] = sym e1 ∙ e2 in
      (
        xs,
        u,
        id,
        pages,
        alone,
        is_got,
        λ launches.
            let (p, q) = decide-Launches (observed xs state now) launches in
            let n = alive_ids-length (observed xs state now) xs refl in
            ground (arith, p, q, n, alone),
      )
