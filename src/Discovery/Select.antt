-- ===== src/Discovery/Select.antt =====
-- internal/discovery/discovery.go: the selection of one shape, image, VCN and subnet among those that
-- the provider lists. `%q` writes a text with no characters to escape.
use ocihood.Base.{
  String, Bool, not, ◌&&◌, ◌||◌, Option, none, some, List, [], ◌∷◌, ◌^^◌, str_eq, if◌then◌else◌,
  length, keep, decimal, trim_space, to_lower, ℤ, negsuc, lt_int, eq_int,
}
use ocihood.Errors.Kinds.{not_found, ambiguous, provider}
use ocihood.Io.{Result, ok, err, and_then}
use ocihood.Discovery.{Image, Shape, Vcn, Subnet, Input, fail}
use ocihood.Discovery.Version.{ubuntu_version}

unfoldable pub one {ℓ} : {A : Type ℓ} → List A → String → Result A
one [] stage = err (fail not_found stage "no compatible candidate found")
one (x ∷ []) stage = ok x
one (x ∷ y ∷ zs) stage = err (
    fail ambiguous stage (
      "found "
      ^^ decimal (length (x ∷ y ∷ zs))
      ^^ " candidates; configure an explicit OCID or unique name"))

unfoldable pub has_architecture : Shape → Result Shape
has_architecture s =
    if str_eq s.architecture ""
    then err (fail provider "shape selection" "provider did not report shape architecture")
    else ok s

unfoldable pub select_shape : List Shape → String → Result Shape
unfolding one has_architecture
select_shape items name =
    and_then (one (keep (λ s. str_eq s.name name) items) "shape selection") has_architecture

-- Version `(a, b)` comes before `(c, d)`.
abbrev pub version_lt : ℤ → ℤ → ℤ → ℤ → Bool
version_lt a b c d = lt_int a c || (eq_int a c && lt_int b d)

-- The version of an image that counts as Ubuntu.
unfoldable pub ubuntu : Image → Option (ℤ × ℤ)
unfolding ubuntu_version
ubuntu x =
    if str_eq x.operating_system "Canonical Ubuntu" then ubuntu_version x.os_version else none

-- The zero value of `Image`.
abbrev pub no_image : Image
no_image = record {
  id = "";
  name = "";
  compartment_id = "";
  operating_system = "";
  os_version = "";
  created_at = 0;
}

-- What the loop keeps: the image selected so far and its version.
pub record Best : Type 0 where
  pub selected : Image
  pub major : ℤ
  pub minor : ℤ

unfoldable pub better : Best → Image → Best
unfolding ubuntu
better b x = elim (ubuntu x) [
  | none ↦ b
  | some (major, minor) ↦
      if version_lt b.major b.minor major minor
      then record { selected = x; major = major; minor = minor }
      else b
]

unfoldable pub best : Best → List Image → Best
unfolding better
best b [] = b
best b (x ∷ xs) = best (better b x) xs

abbrev pub no_best : Best
no_best = record { selected = no_image; major = negsuc 0; minor = negsuc 0 }

-- The first image that the test takes.
unfoldable pub first {ℓ} : {A : Type ℓ} → (A → Bool) → List A → Option A
first p [] = none
first p (x ∷ xs) = let rest = first p xs in if p x then some x else rest

-- Public platform images have no owning compartment.
abbrev pub is_image : String → String → Image → Bool
is_image id compartment_id x =
    str_eq x.id id && (str_eq x.compartment_id "" || str_eq x.compartment_id compartment_id)

unfoldable pub select_image : List Image → String → String → Result Image
unfolding best first
select_image items id compartment_id =
    if str_eq (to_lower (trim_space id)) "ubuntu"
    then (let selected = (best no_best items).selected in
        if str_eq selected.id ""
        then err (
            fail not_found "image selection"
              "no compatible Ubuntu image was found; run `ocihood images list` and check the available images")
        else ok selected)
    else elim (first (is_image id compartment_id) items) [
      | some x ↦ ok x
      | none ↦ err (
          fail not_found "image selection" (
            "image_id \"" ^^ id
            ^^ "\" was not found for the configured compartment and shape; run `ocihood images list` and check the value"))
    ]

-- A name or id that is given must be the candidate's.
abbrev pub agrees : String → String → Bool
agrees given own = str_eq given "" || str_eq own given

abbrev pub is_vcn : Input → Vcn → Bool
is_vcn i x =
    str_eq x.compartment_id i.compartment_id && agrees i.vcn_id x.id && agrees i.vcn_name x.name

unfoldable pub select_vcn : List Vcn → Input → Result Vcn
unfolding one
select_vcn items i = one (keep (is_vcn i) items) "VCN selection"

abbrev pub is_subnet : Input → String → Subnet → Bool
is_subnet i vcn_id x =
    str_eq x.compartment_id i.compartment_id
    && str_eq x.vcn_id vcn_id
    && agrees i.subnet_id x.id
    && agrees i.subnet_name x.name
    && (not i.public_ip || x.allows_public_ip)

unfoldable pub select_subnet : List Subnet → Input → String → Result Subnet
unfolding one
select_subnet items i vcn_id = one (keep (is_subnet i vcn_id) items) "subnet selection"
