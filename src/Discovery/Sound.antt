-- ===== src/Discovery/Sound.antt =====
-- internal/discovery/discovery.go: what a discovery that succeeds returns, and what its errors are.
use mathlib.Core.List.{Perm}
use ocihood.Base.{
  ℕ, String, true, false, ◌≡◌, ◌≢◌, refl, none, some, List, [], ◌∷◌, arith, str_eq, eq_iff,
  to_lower, trim_space,
}
use ocihood.Io.{Result, ok, err, to_result}
use ocihood.Reconcile.{Instance}
use ocihood.Reconcile.Identity.{target_id}
use ocihood.Discovery.{Image, Shape, Vcn, Subnet, Provider, Input, Discovered, lift}
use ocihood.Discovery.Pages.{all}
use ocihood.Discovery.Walk.{Pages, all-Pages}
use ocihood.Discovery.Sorting.{text_lt, sort, id_lt, newer}
use ocihood.Discovery.Order.{
  IsSorted, sort-perm, sort-IsSorted, sort-ne-nil, id_lt-IsOrder, text_lt-IsOrder,
}
use ocihood.Discovery.Select.{
  ubuntu, select_shape, select_image, select_vcn, select_subnet, is_vcn, is_subnet,
}
use ocihood.Discovery.Fits.{
  FitsVcn, FitsSubnet, IsNamed, is_vcn-FitsVcn, is_subnet-FitsSubnet, is_image-IsNamed,
}
use ocihood.Discovery.Newest.{select_image_newest, select_image_named}
use ocihood.Discovery.Tasks.{go_on_ok, Ensures, go_on-Ensures}
use ocihood.Discovery.Unique.{kept_passes, select_subnet_ok, select_vcn_ok, select_shape_ok}
use ocihood.Discovery.Discover.{
  validate, target_of, shape_query, vcn_query, find_domains, find_shape, find_image, find_vcn,
  find_subnet, find_instances, discover, list_images, on_domains,
}

-- The image's version is Ubuntu's where the image is asked for by that word, else it is the one of this
-- id.
abbrev pub FitsImage : Input → Image → Type 0
FitsImage i x =
    (str_eq (to_lower (trim_space i.image_id)) "ubuntu" ≡ true → ubuntu x ≢ none)
    × (str_eq (to_lower (trim_space i.image_id)) "ubuntu" ≡ false
        → IsNamed i.image_id i.compartment_id x)

module _ {W : Type 0} (p : Provider W) (fuel : ℕ) (i : Input) where
  find_shape_ok :
      (w : W) (s : Shape) (v : W)
      → find_shape p fuel i w ≡ some (ok s, v)
      → (s.name ≡ i.shape) × (s.architecture ≢ "")
  unfolding find_shape
  find_shape_ok w s v h =
      let (shapes, u, read, chosen) =
        go_on_ok (all p.ctx_error "shapes" (p.shapes (shape_query i)) fuel w)
          (λ shapes. lift (select_shape shapes i.shape)) h in
      let (alone, known) = select_shape_ok shapes i.shape s (ground arith) in
      ((eq_iff s.name i.shape).0 (kept_passes (λ x. str_eq x.name i.shape) shapes s alone), known)

  find_vcn_ok : (w : W) (x : Vcn) (v : W) → find_vcn p fuel i w ≡ some (ok x, v) → FitsVcn i x
  unfolding find_vcn
  find_vcn_ok w x v h =
      let (vcns, u, read, chosen) =
        go_on_ok (all p.ctx_error "VCNs" (p.vcns (vcn_query i "")) fuel w)
          (λ vcns. lift (select_vcn vcns i)) h in
      is_vcn-FitsVcn i x (kept_passes (is_vcn i) vcns x (select_vcn_ok vcns i x (ground arith)))

  find_subnet_ok :
      (vcn_id : String) (w : W) (x : Subnet) (v : W)
      → find_subnet p fuel i vcn_id w ≡ some (ok x, v)
      → FitsSubnet i vcn_id x
  unfolding find_subnet
  find_subnet_ok vcn_id w x v h =
      let (subnets, u, read, chosen) =
        go_on_ok (all p.ctx_error "subnets" (p.subnets (vcn_query i vcn_id)) fuel w)
          (λ subnets. lift (select_subnet subnets i vcn_id)) h in
      is_subnet-FitsSubnet i vcn_id x (
        kept_passes (is_subnet i vcn_id) subnets x
          (select_subnet_ok subnets i vcn_id x (ground arith)))

  -- The instances are those of the listing's pages, sorted by id.
  abbrev Observes : List Instance → W → W → Type 0
  Observes xs w v =
      (observed : List Instance) × Pages p.ctx_error "instances" (p.instances i.compartment_id) "" w
        observed v
      × Perm xs observed
      × IsSorted id_lt xs

  find_instances_ok :
      (w : W) (xs : List Instance) (v : W)
      → find_instances p fuel i w ≡ some (ok xs, v)
      → Observes xs w v
  unfolding find_instances
  find_instances_ok w xs v h =
      let (observed, u, read, sorted) =
        go_on_ok (all p.ctx_error "instances" (p.instances i.compartment_id) fuel w)
          (λ observed. lift (ok (sort id_lt observed))) h in
      let e : sort id_lt observed ≡ xs = ground arith in
      let f : u ≡ v = ground arith in
      rw (← e, ← f)
        (
          observed,
          all-Pages p.ctx_error "instances" (p.instances i.compartment_id) fuel w observed u read,
          sort-perm id_lt observed,
          sort-IsSorted id_lt id_lt-IsOrder observed,
        )

  find_image_ok :
      (w : W) (x : Image) (v : W) → find_image p fuel i w ≡ some (ok x, v) → FitsImage i x
  unfolding find_image list_images
  find_image_ok w x v h =
      let (images, u, listed, chosen) =
        go_on_ok (list_images p fuel (shape_query i) w)
          (λ images. lift (select_image images i.image_id i.compartment_id)) h in
      let (raw, u', read, sorted) =
        go_on_ok (all p.ctx_error "images" (p.images (shape_query i)) fuel w)
          (λ raw. lift (ok (sort newer raw))) listed in
      let e : sort newer raw ≡ images = ground arith in
      let c : select_image (sort newer raw) i.image_id i.compartment_id ≡ ok x = ground arith in
      (
        λ word.
            let (version, is_it, _) =
              select_image_newest raw i.image_id i.compartment_id x word c in
            rw is_it (λ q. cc),
        λ other.
            is_image-IsNamed i.image_id i.compartment_id x
              (select_image_named (sort newer raw) i.image_id i.compartment_id x other c),
      )

  on_domains_ok :
      (r : Result (List String) × W) (xs : List String) (v : W)
      → on_domains p fuel r ≡ some (ok xs, v)
      → (xs ≢ []) × IsSorted text_lt xs
  unfolding on_domains
  on_domains_ok (err e, u) xs v h = absurd (cc)
  on_domains_ok (ok [], u) xs v h = absurd (cc)
  on_domains_ok (ok (a ∷ rest), u) xs v h =
      let e : sort text_lt (a ∷ rest) ≡ xs = ground arith in
      rw (← e) (sort-ne-nil text_lt a rest, sort-IsSorted text_lt text_lt-IsOrder (a ∷ rest))

  find_domains_ok :
      (w : W) (xs : List String) (v : W)
      → find_domains p fuel i w ≡ some (ok xs, v)
      → (xs ≢ []) × IsSorted text_lt xs
  unfolding find_domains
  find_domains_ok w xs v h = on_domains_ok (p.availability_domains i.tenancy_id w) xs v h

-- A target that launches can rely on.
pub record IsSound (sha256 : String → String) (i : Input) (d : Discovered) : Type 0 where
  pub account : d.account ≡ i.account
  pub domains : d.availability_domains ≢ []
  pub sorted_domains : IsSorted text_lt d.availability_domains
  pub architecture : d.shape_architecture ≢ ""
  pub image : FitsImage i d.image
  pub vcn : FitsVcn i d.vcn
  pub target : d.target_id ≡ target_id sha256 (target_of i d.subnet.id d.image.id)
  pub sorted : IsSorted id_lt d.instances
  pub subnet : FitsSubnet i d.vcn.id d.subnet

module _ {W : Type 0} (p : Provider W) (fuel : ℕ) (i : Input) (sha256 : String → String) where
  discover-Ensures : (w : W) → Ensures (λ d v. IsSound sha256 i d) (discover p fuel i sha256 w)
  unfolding discover
  discover-Ensures w = go_on-Ensures _ (lift (to_result (validate i)) w) _ λ _ w0 _.
      go_on-Ensures _ (find_domains p fuel i w0) _ λ domains w1 e1.
        go_on-Ensures _ (find_shape p fuel i w1) _ λ shape w2 e2.
          go_on-Ensures _ (find_image p fuel i w2) _ λ image w3 e3.
            go_on-Ensures _ (find_vcn p fuel i w3) _ λ vcn w4 e4.
              go_on-Ensures _ (find_subnet p fuel i vcn.id w4) _ λ subnet w5 e5.
                go_on-Ensures _ (find_instances p fuel i w5) _ λ instances w6 e6.
                  let (_, _, _, sorted) = find_instances_ok p fuel i w5 instances w6 e6 in
                  record {
                    account = refl;
                    domains = (find_domains_ok p fuel i w0 domains w1 e1).0;
                    sorted_domains = (find_domains_ok p fuel i w0 domains w1 e1).1;
                    architecture = (find_shape_ok p fuel i w1 shape w2 e2).1;
                    image = find_image_ok p fuel i w2 image w3 e3;
                    vcn = find_vcn_ok p fuel i w3 vcn w4 e4;
                    target = refl;
                    sorted = sorted;
                    subnet = find_subnet_ok p fuel i vcn.id w4 subnet w5 e5;
                  }

  -- A discovery that succeeds returns at least one availability domain, an image that is the one asked
  -- for, a VCN and a subnet of it that lie in the compartment and have the id and the name that are
  -- configured, the subnet with public addresses where one is wanted, the target id of the account, the
  -- sizes and the resources found, and instances sorted by id.
  pub discover-IsSound :
      (w : W) (d : Discovered) (v : W)
      → discover p fuel i sha256 w ≡ some (ok d, v)
      → IsSound sha256 i d
  discover-IsSound w d v h = rw h at (discover-Ensures w)
