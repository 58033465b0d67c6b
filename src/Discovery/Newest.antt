-- ===== src/Discovery/Newest.antt =====
-- internal/discovery/discovery.go: the Ubuntu image that `selectImage` selects from the sorted list.
use ocihood.Base.{
  String, Bool, true, false, ◌≡◌, ◌≢◌, ◌⊎◌, refl, some, List, [], ◌∷◌, arith, All, str_eq, eq_iff,
  Bool-cases, Option-cases, inl, inr, ◌++◌, ℤ, pos, negsuc, eq_int, lt_int, trim_space, to_lower,
}
use ocihood.Io.{ok}
use ocihood.Discovery.{Image}
use ocihood.Discovery.Sorting.{newer, sort}
use ocihood.Discovery.Order.{newer-IsOrder, sort-IsSorted}
use ocihood.Discovery.Select.{version_lt, ubuntu, best, no_best, first, is_image, select_image}
use ocihood.Discovery.Best.{version, All-of_mem, All-mono, best-Selected}

pub select_image_word :
    (images : List Image) (id compartment_id : String) (x : Image)
    → str_eq (to_lower (trim_space id)) "ubuntu" ≡ true
    → select_image images id compartment_id ≡ ok x
    → ((best no_best images).selected ≡ x) × (x.id ≢ "")
unfolding select_image
select_image_word images id compartment_id x word h =
    let selected = (best no_best images).selected in
    elim (Bool-cases (str_eq selected.id "")) [
      | inl missing ↦ absurd (ground arith)
      | inr found ↦
          let e : selected ≡ x = ground arith in
          (e, rw (← e) (ground (arith, eq_iff selected.id "")))
    ]

-- All that the selection by the word `ubuntu` gives, for the whole list at once.
pub select_image_newest :
    (images : List Image) (id compartment_id : String) (x : Image)
    → str_eq (to_lower (trim_space id)) "ubuntu" ≡ true
    → select_image (sort newer images) id compartment_id ≡ ok x
    → (v : ℤ × ℤ) × (ubuntu x ≡ some v)
      × All
          (λ y.
            (u : ℤ × ℤ)
            → ubuntu y ≡ some u
            → (version_lt v.0 v.1 u.0 u.1 ≡ false) × (u ≡ v → newer y x ≡ false))
          (sort newer images)
select_image_newest images id compartment_id x word h =
    let r =
      best-Selected no_best (sort newer images) (λ named. absurd (named refl))
        (All-of_mem _ _ (λ y m named. absurd (named refl)))
        (sort-IsSorted newer newer-IsOrder images) in
    let (e, named) = select_image_word (sort newer images) id compartment_id x word h in
    let b = best no_best (sort newer images) in
    let named' : b.selected.id ≢ "" = rw e named in
    (
      version b,
      rw (← e) (r.real named'),
      rw (← e)
          (All-mono (λ y o u k. ((o u k).0, (o u k).1 named')) (sort newer images) r.outranked),
    )

All_at {ℓ κ} :
    {A : Type ℓ} (P : A → Type κ) (before after : List A) (y : A)
    → All P (before ++ y ∷ after)
    → P y
All_at P [] after y h = h.0
All_at P (x ∷ before) after y h = All_at P before after y h.1

eq_int_refl : (a : ℤ) → eq_int a a ≡ true
eq_int_refl (pos a) = ground arith
eq_int_refl (negsuc a) = ground arith

-- The number before the point is not larger, and where it is the same that behind it is not.
abbrev pub IsNotLater : ℤ × ℤ → ℤ × ℤ → Type 0
IsNotLater u v = (lt_int v.0 u.0 ≡ false) × (v.0 ≡ u.0 → lt_int v.1 u.1 ≡ false)

version_lt-IsNotLater : (u v : ℤ × ℤ) → version_lt v.0 v.1 u.0 u.1 ≡ false → IsNotLater u v
version_lt-IsNotLater u v h =
    (ground arith, λ same. let e = eq_int_refl v.0 in ground (arith, rw same at e))

-- When the image is asked for by the word `ubuntu`, the selected one is a Canonical image of an
-- Ubuntu version; an Ubuntu image that is listed is not of a later version, by the number before the
-- point and then by the one behind it, and where it is of the same version it does not come before the
-- selected one in the order that is newest first.
pub select_image-Newest :
    (images before after : List Image) (id compartment_id : String) (x y : Image) (u : ℤ × ℤ)
    → str_eq (to_lower (trim_space id)) "ubuntu" ≡ true
    → select_image (sort newer images) id compartment_id ≡ ok x
    → sort newer images ≡ before ++ y ∷ after
    → ubuntu y ≡ some u
    → (v : ℤ × ℤ) × (ubuntu x ≡ some v)
      × (version_lt v.0 v.1 u.0 u.1 ≡ false)
      × IsNotLater u v
      × ((u ≢ v) ⊎ (newer y x ≡ false))
select_image-Newest images before after id compartment_id x y u word h m listed =
    let (v, is_it, outranked) = select_image_newest images id compartment_id x word h in
    let (not_later, not_newer) = All_at _ before after y (rw m at outranked) u listed in
    (
      v,
      is_it,
      not_later,
      version_lt-IsNotLater u v not_later,
      elim (Bool-cases (newer y x)) [
        | inl before ↦ inl (λ same. let kept = not_newer same in absurd (cc))
        | inr behind ↦ inr behind
      ],
    )

first_passes {ℓ} :
    {A : Type ℓ} (p : A → Bool) (l : List A) (x : A) → first p l ≡ some x → p x ≡ true
unfolding first
first_passes p [] x h = absurd (cc)
first_passes p (y ∷ ys) x h = elim (Bool-cases (p y)) [
  | inl passes ↦ let e : y ≡ x = ground arith in rw (← e) passes
  | inr fails ↦ ground (arith, first_passes p ys x)
]

pub select_image_named :
    (images : List Image) (id compartment_id : String) (x : Image)
    → str_eq (to_lower (trim_space id)) "ubuntu" ≡ false
    → select_image images id compartment_id ≡ ok x
    → is_image id compartment_id x ≡ true
unfolding select_image
select_image_named images id compartment_id x other h =
    elim (Option-cases (first (is_image id compartment_id) images)) [
      | inl missing ↦ absurd (ground arith)
      | inr (y, found) ↦
          let e : y ≡ x = ground arith in
          rw (← e) (first_passes (is_image id compartment_id) images y found)
    ]
