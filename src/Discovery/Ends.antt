-- ===== src/Discovery/Ends.antt =====
-- internal/discovery/discovery.go: when `Discover` ends.
use ocihood.Base.{ℕ, ◌<◌, String, ◌≢◌, none, List, [], ◌∷◌, length}
use ocihood.Io.{Result, ok, err, to_result, Io}
use ocihood.Discovery.{Page, Query, Provider, Input, go_on, lift}
use ocihood.Discovery.Pages.{all}
use ocihood.Discovery.Sorting.{sort, newer, id_lt}
use ocihood.Discovery.Walk.{HasTokens, all-ends}
use ocihood.Discovery.Tasks.{go_on-ends}
use ocihood.Discovery.Select.{select_shape, select_image, select_vcn, select_subnet}
use ocihood.Discovery.Discover.{
  validate, shape_query, vcn_query, list_images, on_domains, find_domains, find_shape, find_image,
  find_vcn, find_subnet, find_instances, discovered, discover,
}

-- Each listing of the provider has its next tokens among these.
pub record HasFinitePages {W : Type 0} (p : Provider W) (tokens : List String) : Type 0 where
  pub shapes : (q : Query) → HasTokens p.ctx_error "shapes" (p.shapes q) tokens
  pub images : (q : Query) → HasTokens p.ctx_error "images" (p.images q) tokens
  pub vcns : (q : Query) → HasTokens p.ctx_error "VCNs" (p.vcns q) tokens
  pub subnets : (q : Query) → HasTokens p.ctx_error "subnets" (p.subnets q) tokens
  pub instances : (c : String) → HasTokens p.ctx_error "instances" (p.instances c) tokens

module _ {W : Type 0} (p : Provider W) (fuel : ℕ) (i : Input) (sha256 : String → String) where
  on_domains-ends : (r : Result (List String) × W) → on_domains p fuel r ≢ none
  unfolding on_domains
  on_domains-ends (err e, u) = λ q. cc
  on_domains-ends (ok [], u) = λ q. cc
  on_domains-ends (ok (a ∷ rest), u) = λ q. cc

  lift-ends : {A : Type 0} (r : Result A) (w : W) → lift r w ≢ none
  lift-ends r w q = cc

  -- A listing and a choice from it.
  choose-ends :
      {A B : Type 0} (stage : String) (fetch : String → Io W (Page A)) (f : List A → Result B)
      (tokens : List String)
      → HasTokens p.ctx_error stage fetch tokens
      → length tokens < fuel
      → (w : W) → go_on (all p.ctx_error stage fetch fuel w) (λ xs. lift (f xs)) ≢ none
  choose-ends stage fetch f tokens h few w =
      go_on-ends _ _ (all-ends p.ctx_error stage fetch tokens h fuel w few) (λ xs. lift-ends (f xs))

  find_image-ends :
      (tokens : List String)
      → HasFinitePages p tokens
      → length tokens < fuel
      → (w : W) → find_image p fuel i w ≢ none
  unfolding find_image list_images
  find_image-ends tokens h few w =
      go_on-ends _ _
        (choose-ends "images" (p.images (shape_query i)) (λ xs. ok (sort newer xs)) tokens
          (h.images (shape_query i)) few w)
        (λ images. lift-ends (select_image images i.image_id i.compartment_id))

  -- Where the provider's tokens are finitely many, and fewer than the pages that a listing may have,
  -- a discovery ends, whatever the provider answers.
  pub discover-ends :
      (tokens : List String)
      → HasFinitePages p tokens
      → length tokens < fuel
      → (w : W) → discover p fuel i sha256 w ≢ none
  unfolding discover find_domains find_shape find_vcn find_subnet find_instances
  discover-ends tokens h few w = go_on-ends _ _ (lift-ends (to_result (validate i)) w) λ _ w0.
      go_on-ends _ _ (on_domains-ends (p.availability_domains i.tenancy_id w0)) λ domains w1.
        go_on-ends _ _
          (choose-ends "shapes" (p.shapes (shape_query i)) (λ xs. select_shape xs i.shape) tokens
            (h.shapes (shape_query i)) few w1)
          λ shape w2. go_on-ends _ _ (find_image-ends tokens h few w2) λ image w3.
            go_on-ends _ _
              (choose-ends "VCNs" (p.vcns (vcn_query i "")) (λ xs. select_vcn xs i) tokens
                (h.vcns (vcn_query i "")) few w3)
              λ vcn w4.
                go_on-ends _ _
                  (choose-ends "subnets" (p.subnets (vcn_query i vcn.id))
                    (λ xs. select_subnet xs i vcn.id) tokens (h.subnets (vcn_query i vcn.id)) few
                    w4)
                  λ subnet w5.
                    go_on-ends _ _
                      (choose-ends "instances" (p.instances i.compartment_id)
                        (λ xs. ok (sort id_lt xs)) tokens (h.instances i.compartment_id) few w5)
                      λ instances.
                        lift-ends
                          (ok (discovered p fuel i sha256 domains shape image vcn subnet instances))
