-- ===== src/Discovery/Examples.antt =====
-- Tests and witnesses of the discovery.
use ocihood.Reconcile.Identity.{target_id}
use ocihood.Base.{
  contains_char, to_lower, trim_space, ℕ, ℤ, ◌⊎◌, ◌++◌, false, trim_space, to_lower, String, true,
  ◌≡◌, ◌≢◌, refl, none, some, List, [], ◌∷◌, arith, str_eq, if◌then◌else◌, pos,
}
use ocihood.Errors.{Err, message, as_discovery}
use ocihood.Io.{ok, err, Io}
use ocihood.Reconcile.{Instance, active, terminated}
use ocihood.Discovery.{Page, Image, Subnet, Provider, Input, Discovered, wrap}
use ocihood.Discovery.Samples.{a_target}
use ocihood.Discovery.Pages.{all}
use ocihood.Discovery.Walk.{Pages, all-Pages}
use ocihood.Discovery.Select.{
  select_vcn, select_shape, ubuntu, version_lt, select_image, select_subnet,
}
use ocihood.Discovery.Sorting.{text_lt, insert, newer, sort}
use ocihood.Discovery.Newest.{IsNotLater, select_image-Newest}
use ocihood.Discovery.Discover.{
  find_instances, find_subnet, find_vcn, list_images, find_image, find_shape, find_domains,
  validate, discover,
}
use ocihood.Discovery.Sound.{IsSound, discover-IsSound}
use ocihood.Discovery.Ends.{HasFinitePages, discover-ends}
use ocihood.Discovery.Classified.{discover_error}

abbrev image_of : String → String → ℕ → Image
image_of id version created_at = record {
  id = id;
  name = "ubuntu";
  compartment_id = "";
  operating_system = "Canonical Ubuntu";
  os_version = version;
  created_at = created_at;
}

abbrev old : Image
old = image_of "img-22" "22.04" 9

abbrev new : Image
new = image_of "img-24" "24.04" 7

abbrev public : Subnet
public = a_target.subnet

abbrev private_one : Subnet
private_one = record public { id = "s2"; name = "private"; compartment_id = "c2" }

abbrev one_page : {A : Type 0} → List A → String → Io ℕ (Page A)
one_page items page calls = (ok (record { items = items; next = "" }), calls)

-- The images come on two pages.
abbrev two_pages : String → Io ℕ (Page Image)
two_pages page calls =
    if str_eq page ""
    then (ok (record { items = old ∷ []; next = "p2" }), calls)
    else (ok (record { items = new ∷ []; next = "" }), calls)

abbrev listed : List Instance
listed =
    record { id = "i2"; lifecycle = terminated; tags = [] }
    ∷ record { id = "i1"; lifecycle = active; tags = [] }
    ∷ []

abbrev a_provider : Provider ℕ
a_provider = record {
  availability_domains = λ tenancy calls. (ok ("ad-2" ∷ "ad-1" ∷ []), calls);
  shapes = λ q. one_page (record { name = "A1"; architecture = "arm64" } ∷ []);
  images = λ q. two_pages;
  vcns = λ q. one_page (a_target.vcn ∷ []);
  subnets = λ q. one_page (private_one ∷ public ∷ []);
  instances = λ c. one_page listed;
  ctx_error = λ calls. none;
}

abbrev asked_for : Input
asked_for = record {
  account = "home";
  tenancy_id = "tenancy";
  compartment_id = "c1";
  region = "eu-1";
  shape = "A1";
  ocpus = pos 4;
  memory_gb = pos 24;
  boot_volume_gb = pos 50;
  image_id = "Ubuntu";
  vcn_id = "";
  vcn_name = "";
  subnet_id = "";
  subnet_name = "public";
  public_ip = true;
}

abbrev digest : String → String
digest text = "target"

abbrev found : Discovered
found = record a_target {
  availability_domains = "ad-1" ∷ "ad-2" ∷ [];
  image = new;
  instances =
      record { id = "i1"; lifecycle = active; tags = [] }
      ∷ record { id = "i2"; lifecycle = terminated; tags = [] }
      ∷ [];
}

discover_test : discover a_provider 3 asked_for digest 0 ≡ some (ok found, 0)
unfolding discover validate trim_space find_domains find_shape all select_shape find_image
    list_images select_image to_lower sort insert newer contains_char find_vcn select_vcn
    find_subnet select_subnet find_instances text_lt target_id
discover_test = refl

abbrev out_of_reach : Provider ℕ
out_of_reach = record a_provider { vcns = λ q page calls. (err (message "unreachable"), calls) }

discover-IsSound_example : IsSound digest asked_for found
discover-IsSound_example = discover-IsSound a_provider 3 asked_for digest 0 found 0 discover_test

next_of :
    (page : String) (calls : ℕ) (p : Page Image) (v : ℕ)
    → two_pages page calls ≡ (ok p, v)
    → p.next ≢ ""
    → p.next ≡ "p2"
next_of page calls p v read more = ground arith

few_tokens : HasFinitePages a_provider ("p2" ∷ [])
few_tokens = record {
  shapes = λ q page w p v read next. absurd (ground arith);
  images = λ q page w p v read next. rw (next_of page w p v read next) refl;
  vcns = λ q page w p v read next. absurd (ground arith);
  subnets = λ q page w p v read next. absurd (ground arith);
  instances = λ c page w p v read next. absurd (ground arith);
}

discover-ends_example : discover a_provider 3 asked_for digest 0 ≢ none
discover-ends_example =
    discover-ends a_provider 3 asked_for digest ("p2" ∷ []) few_tokens (omega arith) 0

images_test : all a_provider.ctx_error "images" two_pages 2 0 ≡ some (ok (old ∷ new ∷ []), 0)
unfolding all
images_test = refl

all-Pages_example : Pages a_provider.ctx_error "images" two_pages "" 0 (old ∷ new ∷ []) 0
all-Pages_example =
    all-Pages a_provider.ctx_error "images" two_pages 2 0 (old ∷ new ∷ []) 0 images_test

select_image_test : select_image (sort newer (old ∷ new ∷ [])) "Ubuntu" "c1" ≡ ok new
unfolding select_image to_lower trim_space sort insert newer contains_char
select_image_test = refl

sort_test : sort newer (old ∷ new ∷ []) ≡ [] ++ old ∷ new ∷ []
unfolding sort insert newer
sort_test = refl

ubuntu_test : ubuntu old ≡ some (pos 22, pos 4)
unfolding ubuntu contains_char
ubuntu_test = refl

select_image-Newest_example :
    (v : ℤ × ℤ) × (ubuntu new ≡ some v)
    × (version_lt v.0 v.1 (pos 22) (pos 4) ≡ false)
    × IsNotLater (pos 22, pos 4) v
    × (((pos 22, pos 4) ≢ v) ⊎ (newer old new ≡ false))
unfolding to_lower trim_space
select_image-Newest_example =
    select_image-Newest (old ∷ new ∷ []) [] (new ∷ []) "Ubuntu" "c1" new old (pos 22, pos 4) refl
      select_image_test sort_test ubuntu_test

abbrev unreachable : Err
unreachable = wrap "VCNs" (message "unreachable")

unreachable_test : discover out_of_reach 3 asked_for digest 0 ≡ some (err unreachable, 0)
unfolding discover validate trim_space find_domains find_shape all select_shape find_image
    list_images select_image to_lower sort insert newer contains_char find_vcn
unreachable_test = refl

discover_error_example : as_discovery unreachable ≢ none
discover_error_example =
    discover_error out_of_reach 3 asked_for digest 0 unreachable 0 unreachable_test
