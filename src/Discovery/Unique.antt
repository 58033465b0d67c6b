-- ===== src/Discovery/Unique.antt =====
-- internal/discovery/discovery.go: `one` and the selections that end in it.
use mathlib.Core.List.{Perm}
use mathlib.Core.Logic.{∥∥₁_elim}
use ocihood.Base.{
  String, Bool, true, ◌≡◌, ◌≢◌, refl, List, [], ◌∷◌, arith, keep, str_eq, eq_iff, IsScalar-set,
  Bool-cases, inl, inr,
}
use ocihood.Io.{Result, ok, Result-cases}
use ocihood.Reconcile.Order.{Alike, keep-Alike}
use ocihood.Discovery.{Shape, Vcn, Subnet, Input}
use ocihood.Discovery.Select.{
  one, has_architecture, select_shape, select_vcn, select_subnet, is_vcn, is_subnet,
}

module _ {ℓ} {A : Type ℓ} where
  pub one_ok : (xs : List A) (stage : String) (x : A) → one xs stage ≡ ok x → xs ≡ x ∷ []
  unfolding one
  one_ok [] stage x h = absurd (cc)
  one_ok (y ∷ []) stage x h = cc
  one_ok (y ∷ z ∷ zs) stage x h = absurd (cc)

  -- `one` sees how many candidates there are, and the one where there is one.
  pub one-Alike : (xs ys : List A) (stage : String) → Alike xs ys → one xs stage ≡ one ys stage
  unfolding one
  one-Alike [] [] stage h = refl
  one-Alike (x ∷ []) (y ∷ []) stage h = let e : x ∷ [] ≡ y ∷ [] = h.agree (omega arith) in cc
  one-Alike (x ∷ x' ∷ xs) (y ∷ y' ∷ ys) stage h = rw h.lengths
  one-Alike [] (y ∷ ys) stage h = absurd (omega (arith, h.lengths))
  one-Alike (x ∷ xs) [] stage h = absurd (omega (arith, h.lengths))
  one-Alike (x ∷ []) (y ∷ y' ∷ ys) stage h = absurd (omega (arith, h.lengths))
  one-Alike (x ∷ x' ∷ xs) (y ∷ []) stage h = absurd (omega (arith, h.lengths))

  -- The item that alone passes a test passes it.
  pub kept_passes : (p : A → Bool) (l : List A) (x : A) → keep p l ≡ x ∷ [] → p x ≡ true
  kept_passes p [] x h = absurd (cc)
  kept_passes p (y ∷ ys) x h = elim (Bool-cases (p y)) [
    | inl passes ↦ let e : y ≡ x = ground arith in rw (← e) passes
    | inr fails ↦ ground (arith, kept_passes p ys x)
  ]

Result-set : IsSet (Result Subnet)
Result-set = hlevel IsScalar-set

pub select_subnet_ok :
    (items : List Subnet) (i : Input) (vcn_id : String) (x : Subnet)
    → select_subnet items i vcn_id ≡ ok x
    → keep (is_subnet i vcn_id) items ≡ x ∷ []
unfolding select_subnet
select_subnet_ok items i vcn_id x h = one_ok (keep (is_subnet i vcn_id) items) _ x h

pub select_vcn_ok :
    (items : List Vcn) (i : Input) (x : Vcn)
    → select_vcn items i ≡ ok x
    → keep (is_vcn i) items ≡ x ∷ []
unfolding select_vcn
select_vcn_ok items i x h = one_ok (keep (is_vcn i) items) _ x h

pub select_shape_ok :
    (items : List Shape) (name : String) (x : Shape)
    → select_shape items name ≡ ok x
    → (keep (λ s. str_eq s.name name) items ≡ x ∷ []) × (x.architecture ≢ "")
unfolding select_shape has_architecture
select_shape_ok items name x h =
    elim (Result-cases (one (keep (λ s. str_eq s.name name) items) "shape selection")) [
      | inl (y, e) ↦
          let found = one_ok (keep (λ s. str_eq s.name name) items) "shape selection" y e in
          let g : has_architecture y ≡ ok x = rw e at h in
          (ground (arith, found), ground (arith, eq_iff y.architecture ""))
      | inr (e, f) ↦ absurd (ground arith)
    ]

-- Which subnet is selected, or which error is returned, does not depend on the order in which the
-- provider lists the subnets.
pub select_subnet-Perm :
    (items items' : List Subnet) (i : Input) (vcn_id : String)
    → Perm items items'
    → select_subnet items i vcn_id ≡ select_subnet items' i vcn_id
unfolding select_subnet
select_subnet-Perm items items' i vcn_id perm =
    ∥∥₁_elim perm (Result-set _ _)
      (λ d. one-Alike _ _ "subnet selection" (keep-Alike (is_subnet i vcn_id) d))
