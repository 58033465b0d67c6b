-- ===== src/Discovery/Classified.antt =====
-- internal/discovery/discovery.go: the errors of `Discover`.
use ocihood.Base.{
  ℕ, zero, suc, String, Bool, true, ◌≡◌, ◌≢◌, refl, none, some, List, [], ◌∷◌, ◌++◌, arith,
  Option-cases, inl, inr, str_eq, keep,
}
use ocihood.Errors.{Err, discovery_error, as_discovery}
use ocihood.Io.{Result, ok, err, to_result, Io, and_then}
use ocihood.Discovery.{Page, Provider, Input, Task, go_on, lift, wrap, Shape, Image}
use ocihood.Discovery.Pages.{on_page, all_from, all}
use ocihood.Discovery.Sorting.{sort, newer, id_lt}
use ocihood.Discovery.Tasks.{is_discovery, is_classified, go_on-is_classified}
use ocihood.Discovery.Select.{
  one, has_architecture, select_shape, select_image, select_vcn, select_subnet, is_vcn, is_subnet,
}
use ocihood.Discovery.Discover.{
  validate, shape_query, vcn_query, list_images, on_domains, find_domains, find_shape, find_image,
  find_vcn, find_subnet, find_instances, discover,
}

wrap-is_discovery : (stage : String) (e : Err) → is_discovery (wrap stage e) ≡ true
unfolding wrap
wrap-is_discovery stage e = refl

abbrev may_fail {ℓ} : {A : Type ℓ} → Result A → Bool
may_fail (ok a) = true
may_fail (err e) = is_discovery e

one-may_fail {ℓ} : {A : Type ℓ} (xs : List A) (stage : String) → may_fail (one xs stage) ≡ true
unfolding one
one-may_fail [] stage = refl
one-may_fail (x ∷ []) stage = refl
one-may_fail (x ∷ y ∷ zs) stage = refl

and_then-may_fail :
    {A B : Type 0} (r : Result A) (f : A → Result B)
    → may_fail r ≡ true
    → ((a : A) → may_fail (f a) ≡ true)
    → may_fail (and_then r f) ≡ true
and_then-may_fail (ok a) f h k = k a
and_then-may_fail (err e) f h k = h

has_architecture-may_fail : (s : Shape) → may_fail (has_architecture s) ≡ true
unfolding has_architecture
has_architecture-may_fail s = ground arith

select_shape-may_fail : (xs : List Shape) (name : String) → may_fail (select_shape xs name) ≡ true
unfolding select_shape
select_shape-may_fail xs name =
    and_then-may_fail (one (keep (λ s. str_eq s.name name) xs) "shape selection") has_architecture
      (one-may_fail (keep (λ s. str_eq s.name name) xs) "shape selection") has_architecture-may_fail

select_image-may_fail : (xs : List Image) (id c : String) → may_fail (select_image xs id c) ≡ true
unfolding select_image
select_image-may_fail xs id c = ground arith

validate-may_fail : (i : Input) → may_fail (to_result (validate i)) ≡ true
unfolding validate
validate-may_fail i = ground arith

found : (e : Err) → is_discovery e ≡ true → as_discovery e ≢ none
unfolding as_discovery
found (discovery_error k stage c) h = λ q. cc
found _ h = absurd (cc)

module _ {W : Type 0} (p : Provider W) (fuel : ℕ) (i : Input) (sha256 : String → String) where
  lift-is_classified :
      {A : Type 0} (r : Result A) (w : W) → may_fail r ≡ true → is_classified (lift r w) ≡ true
  lift-is_classified (ok a) w h = refl
  lift-is_classified (err e) w h = h

  module _ {A : Type 0} (stage : String) (fetch : String → Io W (Page A)) where
    on_page-is_classified :
        (seen : List String) (result : List A)
        (again : String → List String → List A → Task W (List A)) (r : Result (Page A) × W)
        → ((t : String) (s : List String) (xs : List A) (u : W)
            → is_classified (again t s xs u) ≡ true)
        → is_classified (on_page p.ctx_error stage fetch seen result again r) ≡ true
    on_page-is_classified seen result again (err e, u) h = wrap-is_discovery stage e
    on_page-is_classified seen result again (ok x, u) h =
        ground (arith, h x.next (x.next ∷ seen) (result ++ x.items) u)

    all_from-is_classified :
        (n : ℕ) (page : String) (seen : List String) (result : List A) (w : W)
        → is_classified (all_from p.ctx_error stage fetch n page seen result w) ≡ true
    unfolding all_from
    all_from-is_classified zero page seen result w = refl
    all_from-is_classified (suc n) page seen result w = elim (Option-cases (p.ctx_error w)) [
      | inr (e, stop) ↦ rw (stop, all_from) (wrap-is_discovery stage e)
      | inl go ↦
          rw (go, all_from)
            (on_page-is_classified seen result (all_from p.ctx_error stage fetch n) (fetch page w)
              (all_from-is_classified n))
    ]

    choose-is_classified :
        {B : Type 0} (f : List A → Result B)
        → ((xs : List A) → may_fail (f xs) ≡ true)
        → (w : W)
        → is_classified (go_on (all p.ctx_error stage fetch fuel w) (λ xs. lift (f xs))) ≡ true
    unfolding all
    choose-is_classified f h w =
        go_on-is_classified (all p.ctx_error stage fetch fuel w) (λ xs. lift (f xs))
          (all_from-is_classified fuel "" [] [] w) (λ xs u. lift-is_classified (f xs) u (h xs))

  on_domains-is_classified :
      (r : Result (List String) × W) → is_classified (on_domains p fuel r) ≡ true
  unfolding on_domains
  on_domains-is_classified (err e, u) = wrap-is_discovery "availability domains" e
  on_domains-is_classified (ok [], u) = refl
  on_domains-is_classified (ok (a ∷ rest), u) = refl

  find_image-is_classified : (w : W) → is_classified (find_image p fuel i w) ≡ true
  unfolding find_image list_images
  find_image-is_classified w =
      go_on-is_classified (list_images p fuel (shape_query i) w) _
        (choose-is_classified "images" (p.images (shape_query i)) (λ xs. ok (sort newer xs))
          (λ xs. refl) w)
        (λ xs u.
          lift-is_classified (select_image xs i.image_id i.compartment_id) u
            (select_image-may_fail xs i.image_id i.compartment_id))

  find_subnet-is_classified :
      (id : String) (w : W) → is_classified (find_subnet p fuel i id w) ≡ true
  unfolding find_subnet select_subnet
  find_subnet-is_classified id w =
      choose-is_classified "subnets" (p.subnets (vcn_query i id)) (λ xs. select_subnet xs i id)
        (λ xs. one-may_fail (keep (is_subnet i id) xs) "subnet selection") w

  find_vcn-is_classified : (w : W) → is_classified (find_vcn p fuel i w) ≡ true
  unfolding find_vcn select_vcn
  find_vcn-is_classified w =
      choose-is_classified "VCNs" (p.vcns (vcn_query i "")) (λ xs. select_vcn xs i)
        (λ xs. one-may_fail (keep (is_vcn i) xs) "VCN selection") w

  find_shape-is_classified : (w : W) → is_classified (find_shape p fuel i w) ≡ true
  unfolding find_shape
  find_shape-is_classified w =
      choose-is_classified "shapes" (p.shapes (shape_query i)) (λ xs. select_shape xs i.shape)
        (λ xs. select_shape-may_fail xs i.shape) w

  find_instances-is_classified : (w : W) → is_classified (find_instances p fuel i w) ≡ true
  unfolding find_instances
  find_instances-is_classified w =
      choose-is_classified "instances" (p.instances i.compartment_id) (λ xs. ok (sort id_lt xs))
        (λ xs. refl) w

  discover-is_classified : (w : W) → is_classified (discover p fuel i sha256 w) ≡ true
  unfolding discover find_domains
  discover-is_classified w =
      go_on-is_classified (lift (to_result (validate i)) w) _
        (lift-is_classified (to_result (validate i)) w (validate-may_fail i))
        λ _ w0.
          go_on-is_classified (find_domains p fuel i w0) _
            (on_domains-is_classified (p.availability_domains i.tenancy_id w0))
            λ domains w1.
              go_on-is_classified (find_shape p fuel i w1) _ (find_shape-is_classified w1)
                λ shape w2.
                  go_on-is_classified (find_image p fuel i w2) _ (find_image-is_classified w2)
                    λ image w3.
                      go_on-is_classified (find_vcn p fuel i w3) _ (find_vcn-is_classified w3)
                        λ vcn w4.
                          go_on-is_classified (find_subnet p fuel i vcn.id w4) _
                            (find_subnet-is_classified vcn.id w4)
                            λ subnet w5.
                              go_on-is_classified (find_instances p fuel i w5) _
                                (find_instances-is_classified w5) λ instances w6. refl

  -- Each error of a discovery is a `discovery.Error`, which `errors.As` finds.
  pub discover_error :
      (w : W) (e : Err) (v : W)
      → discover p fuel i sha256 w ≡ some (err e, v)
      → as_discovery e ≢ none
  unfolding as_discovery
  discover_error w e v h = found e (rw h at (discover-is_classified w))
