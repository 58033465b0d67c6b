-- ===== src/Discovery/Order.antt =====
-- internal/discovery/discovery.go: the orders by which discovery sorts.
use mathlib.Core.List.{Perm, Pairwise, Pairwise-singleton, forall_mem-cons}
use mathlib.Core.List.Perm
use mathlib.Core.Bool.{Bool-set}
use ocihood.Base.{
  String, Bool, true, false, ◌≡◌, ◌≢◌, refl, List, [], ◌∷◌, arith, Bool-cases, inl, inr,
}
use ocihood.Discovery.Sorting.{text_lt, insert, sort, newer, id_lt}

-- What a test that sorts must satisfy.
pub record IsOrder {ℓ} {A : Type ℓ} (less : A → A → Bool) : Type ℓ where
  pub asym : (x y : A) → less x y ≡ true → less y x ≡ false
  pub neg_trans : (x y z : A) → less y x ≡ false → less z y ≡ false → less z x ≡ false

module _ {ℓ} {A : Type ℓ} (less : A → A → Bool) where
  -- No item comes before an earlier one.
  abbrev pub IsSorted : List A → Type ℓ
  IsSorted = Pairwise (λ x y. less y x ≡ false)

  insert-perm : (x : A) (l : List A) → Perm (insert less x l) (x ∷ l)
  unfolding insert
  insert-perm x [] = Perm.rfl
  insert-perm x (y ∷ ys) = elim (Bool-cases (less y x)) [
    | inl h ↦ rw h (Perm.trans (Perm.cons y (insert-perm x ys)) (Perm.swap x y ys))
    | inr h ↦ rw h Perm.rfl
  ]

  pub sort-perm : (l : List A) → Perm (sort less l) l
  unfolding sort
  sort-perm [] = Perm.rfl
  sort-perm (x ∷ xs) = Perm.trans (insert-perm x (sort less xs)) (Perm.cons x (sort-perm xs))

  insert-ne-nil : (x : A) (l : List A) → insert less x l ≢ []
  unfolding insert
  insert-ne-nil x [] = λ q. cc
  insert-ne-nil x (y ∷ ys) = ground arith

  pub sort-ne-nil : (x : A) (l : List A) → sort less (x ∷ l) ≢ []
  unfolding sort
  sort-ne-nil x l = insert-ne-nil x (sort less l)

  module _ (o : IsOrder less) where
    insert-IsSorted : (x : A) {l : List A} → IsSorted l → IsSorted (insert less x l)
    unfolding insert
    insert-IsSorted x Pairwise.nil = Pairwise-singleton _ x
    insert-IsSorted x (Pairwise.cons {a = y} {l = ys} below s) = elim (Bool-cases (less y x)) [
      | inl h ↦ rw h (
          Pairwise.cons
            (λ z m.
              (forall_mem-cons (λ a. Bool-set _ _)).1 (o.asym y x h, below) z
                ((Perm.mem_iff (insert-perm x ys)).0 m))
            (insert-IsSorted x s))
      | inr h ↦
          let whole = Pairwise.cons below s in
          rw h (
            Pairwise.cons
              ((forall_mem-cons (λ a. Bool-set _ _)).1 (h, λ z m. o.neg_trans x y z h (below z m)))
              whole)
    ]

    pub sort-IsSorted : (l : List A) → IsSorted (sort less l)
    unfolding sort
    sort-IsSorted [] = Pairwise.nil
    sort-IsSorted (x ∷ xs) = insert-IsSorted x (sort-IsSorted xs)

text_lt_asym : (s t : String) → text_lt s t ≡ true → text_lt t s ≡ false
unfolding text_lt
text_lt_asym String.[] String.[] h = refl
text_lt_asym String.[] (String.◌∷◌ d t) h = refl
text_lt_asym (String.◌∷◌ c s) String.[] h = ground arith
text_lt_asym (String.◌∷◌ c s) (String.◌∷◌ d t) h = ground (arith, text_lt_asym s t)

text_lt_neg_trans :
    (s t u : String) → text_lt t s ≡ false → text_lt u t ≡ false → text_lt u s ≡ false
unfolding text_lt
text_lt_neg_trans (String.◌∷◌ c s) (String.◌∷◌ d t) (String.◌∷◌ e u) h k =
    ground (arith, text_lt_neg_trans s t u)
text_lt_neg_trans String.[] t String.[] h k = refl
text_lt_neg_trans String.[] t (String.◌∷◌ e u) h k = refl
text_lt_neg_trans (String.◌∷◌ c s) String.[] u h k = ground arith
text_lt_neg_trans (String.◌∷◌ c s) (String.◌∷◌ d t) String.[] h k = ground arith

pub text_lt-IsOrder : IsOrder text_lt
text_lt-IsOrder = record { asym = text_lt_asym; neg_trans = text_lt_neg_trans }

pub id_lt-IsOrder : IsOrder id_lt
id_lt-IsOrder = record {
  asym = λ x y. text_lt_asym x.id y.id;
  neg_trans = λ x y z. text_lt_neg_trans x.id y.id z.id;
}

pub newer-IsOrder : IsOrder newer
unfolding newer
newer-IsOrder = record {
  asym = λ x y h. ground (arith, text_lt_asym x.id y.id);
  neg_trans = λ x y z h k. ground (arith, text_lt_neg_trans x.id y.id z.id);
}
