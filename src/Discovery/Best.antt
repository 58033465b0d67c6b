-- ===== src/Discovery/Best.antt =====
-- internal/discovery/discovery.go: the loop of `selectImage` over the sorted images.
use mathlib.Core.List.{Pairwise, Mem, mem-cons_self, mem-cons_of_mem}
use mathlib.Core.Path.{subst}
use ocihood.Base.{
  Bool, true, false, ◌≡◌, ◌≢◌, ◌⊎◌, refl, ◌∙◌, sym, none, some, List, [], ◌∷◌, arith, All,
  Bool-cases, Option-cases, inl, inr, ℤ, pos, negsuc, eq_int,
}
use ocihood.Discovery.{Image}
use ocihood.Discovery.Sorting.{newer}
use ocihood.Discovery.Order.{IsSorted, newer-IsOrder}
use ocihood.Discovery.Select.{version_lt, ubuntu, Best, better, best}

eq_int_iff : (a b : ℤ) → eq_int a b ≡ true → a ≡ b
eq_int_iff (pos a) (pos b) h = ground arith
eq_int_iff (negsuc a) (negsuc b) h = ground arith
eq_int_iff (pos a) (negsuc b) h = absurd (cc)
eq_int_iff (negsuc a) (pos b) h = absurd (cc)

version_trans :
    (a b c d e f : ℤ)
    → version_lt a b c d ≡ true
    → version_lt c d e f ≡ true
    → version_lt a b e f ≡ true
version_trans a b c d e f h k = ground arith

version_irrefl : (a b : ℤ) → version_lt a b a b ≡ false
version_irrefl a b = ground arith

version_le_trans :
    (a b c d e f : ℤ)
    → version_lt a b c d ≡ true
    → version_lt a b e f ≡ false
    → version_lt c d e f ≡ false
version_le_trans a b c d e f h k = ground arith

abbrev is_below : Best → ℤ × ℤ → Bool
is_below b u = version_lt b.major b.minor u.0 u.1

abbrev pub version : Best → ℤ × ℤ
version b = (b.major, b.minor)

-- The version that is kept is the selected image's.
abbrev pub IsReal : Best → Type 0
IsReal b = b.selected.id ≢ "" → ubuntu b.selected ≡ some (version b)

-- None of the images comes before the selected one.
abbrev pub IsAhead : Best → List Image → Type 0
IsAhead b xs = All (λ y. b.selected.id ≢ "" → newer y b.selected ≡ false) xs

-- The image is not of a later version than the one kept, and where it is of the same one it does not
-- come before the selected image.
abbrev pub IsOutranked : Best → Image → Type 0
IsOutranked b y =
    (u : ℤ × ℤ)
    → ubuntu y ≡ some u
    → (is_below b u ≡ false) × (b.selected.id ≢ "" → u ≡ version b → newer y b.selected ≡ false)

pub All-of_mem {ℓ κ} :
    {A : Type ℓ} (P : A → Type κ) (xs : List A) → ((y : A) → Mem y xs → P y) → All P xs
All-of_mem P [] h = tt
All-of_mem P (x ∷ xs) h = (h x mem-cons_self, All-of_mem P xs (λ y m. h y (mem-cons_of_mem x m)))

abbrev pub GrowsTo : Best → Best → Type 0
GrowsTo b after = (after ≡ b) ⊎ (is_below b (version after) ≡ true)

newer_irrefl : (x : Image) → newer x x ≡ false
newer_irrefl x = elim (Bool-cases (newer x x)) [ inl h ↦ newer-IsOrder.asym x x h | inr h ↦ h ]

-- What one round does.
record Round (b : Best) (x : Image) (after : Best) : Type 0 where
  real : IsReal after
  grows : GrowsTo b after
  outranked : IsOutranked after x

pub All-mono {ℓ κ μ} :
    {A : Type ℓ} {P : A → Type κ} {Q : A → Type μ}
    → ((y : A) → P y → Q y)
    → (xs : List A) → All P xs
    → All Q xs
All-mono f [] h = tt
All-mono f (x ∷ xs) h = (f x h.0, All-mono f xs h.1)

taken : Image → ℤ × ℤ → Best
taken x u = record { selected = x; major = u.0; minor = u.1 }

module _ (b : Best) (x : Image) where
  better-none : ubuntu x ≡ none → better b x ≡ b
  unfolding better
  better-none h = ground arith

  module _ (u : ℤ × ℤ) (is_ubuntu : ubuntu x ≡ some u) where
    better_up : is_below b u ≡ true → better b x ≡ taken x u
    unfolding better taken
    better_up h = ground arith

    better_down : is_below b u ≡ false → better b x ≡ b
    unfolding better
    better_down h = ground arith

  round : IsReal b → (b.selected.id ≢ "" → newer x b.selected ≡ false) → Round b x (better b x)
  unfolding taken
  round real ahead = elim (Option-cases (ubuntu x)) [
    | inl other ↦
        rw (better-none other)
          (record { real = real; grows = inl refl; outranked = λ u h. absurd (ground arith) })
    | inr (u, h) ↦ elim (Bool-cases (is_below b u)) [
      | inl up ↦ rw (better_up u h up) (record {
        real = λ _. h;
        grows = inr up;
        outranked = λ v k.
            let e : v ≡ u = ground arith in rw e (version_irrefl u.0 u.1, λ _ _. newer_irrefl x);
      })
      | inr down ↦ rw (better_down u h down) (record {
        real = real;
        grows = inl refl;
        outranked = λ v k. let e : v ≡ u = ground arith in rw e (down, λ named _. ahead named);
      })
    ]
  ]

  -- What the rounds before leave ahead of the later images stays so.
  round-IsAhead :
      (xs : List Image) → IsAhead b xs → All (λ y. newer y x ≡ false) xs → IsAhead (better b x) xs
  unfolding taken
  round-IsAhead xs ahead later = elim (Option-cases (ubuntu x)) [
    | inl other ↦ rw (better-none other) ahead
    | inr (u, h) ↦ elim (Bool-cases (is_below b u)) [
      | inl up ↦ rw (better_up u h up) (All-mono (λ y e _. e) xs later)
      | inr down ↦ rw (better_down u h down) ahead
    ]
  ]

GrowsTo-trans : (b m f : Best) → GrowsTo b m → GrowsTo m f → GrowsTo b f
GrowsTo-trans b m f (inl e) (inl e') = inl (e' ∙ e)
GrowsTo-trans b m f (inl e) (inr up) = inr (subst (λ x. is_below x (version f) ≡ true) e up)
GrowsTo-trans b m f (inr up) (inl e) = inr (subst (λ x. is_below b (version x) ≡ true) (sym e) up)
GrowsTo-trans b m f (inr up) (inr up') =
    inr (version_trans b.major b.minor m.major m.minor f.major f.minor up up')

IsOutranked-GrowsTo : (m f : Best) (x : Image) → IsOutranked m x → GrowsTo m f → IsOutranked f x
IsOutranked-GrowsTo m f x h (inl e) = subst (λ b. IsOutranked b x) (sym e) h
IsOutranked-GrowsTo m f x h (inr up) = λ u k. (
  version_le_trans m.major m.minor f.major f.minor u.0 u.1 up (h u k).0,
  λ _ e.
      let high : is_below m u ≡ true = subst (λ v. is_below m v ≡ true) (sym e) up in
      let low = (h u k).0 in cc,
)

-- What the loop leaves.
pub record Selected (b : Best) (xs : List Image) (after : Best) : Type 0 where
  pub real : IsReal after
  pub grows : GrowsTo b after
  pub outranked : All (IsOutranked after) xs

pub best-Selected :
    (b : Best) (xs : List Image)
    → IsReal b
    → IsAhead b xs
    → IsSorted newer xs
    → Selected b xs (best b xs)
unfolding best
best-Selected b [] real ahead s = record { real = real; grows = inl refl; outranked = tt }
best-Selected b (x ∷ xs) real ahead (Pairwise.cons below s) =
    let r = round b x real ahead.0 in
    let later = round-IsAhead b x xs ahead.1 (All-of_mem (λ y. newer y x ≡ false) xs below) in
    let rest = best-Selected (better b x) xs r.real later s in
    record {
      real = rest.real;
      grows = GrowsTo-trans b (better b x) _ r.grows rest.grows;
      outranked = (IsOutranked-GrowsTo (better b x) _ x r.outranked rest.grows, rest.outranked);
    }
