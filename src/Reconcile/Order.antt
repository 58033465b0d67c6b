-- ===== src/Reconcile/Order.antt =====
-- internal/reconcile/reconcile.go: `Decide` and the order of the provider's list.
use mathlib.Core.List.{Perm, Permᴰ}
use mathlib.Core.Logic.{∥∥₁_elim}
use ocihood.Base.{
  ℕ, suc, ◌≤◌, ◌+◌, String, Bool, true, false, ◌≡◌, refl, ◌∙◌, Option, List, [], ◌∷◌, arith, length,
  keep, ltb, IsScalar-set, Bool-cases, inl, inr, ap, sym,
}
use ocihood.Reconcile.{Instance, State, Decision, Input, decide, decide_listed}

Decision-set : IsSet Decision
Decision-set = hlevel IsScalar-set

-- Two lists of one length that agree when they hold at most one item.
pub record Alike {ℓ} {A : Type ℓ} (xs ys : List A) : Type ℓ where
  pub lengths : length xs ≡ length ys
  pub agree : length xs ≤ 1 → xs ≡ ys

module _ {ℓ} {A : Type ℓ} where
  Alike-trans : {xs ys zs : List A} → Alike xs ys → Alike ys zs → Alike xs zs
  Alike-trans p q = record {
    lengths = p.lengths ∙ q.lengths;
    agree = λ h. p.agree h ∙ q.agree (omega (arith, p.lengths));
  }

  Alike-refl : (xs : List A) → Alike xs xs
  Alike-refl xs = record { lengths = refl; agree = λ h. refl }

  Alike-cons : {x y : A} {xs ys : List A} → x ≡ y → Alike xs ys → Alike (x ∷ xs) (y ∷ ys)
  Alike-cons {x} {y} {xs} {ys} e p = record {
    lengths = ap suc p.lengths;
    agree = λ h. let e' : xs ≡ ys = p.agree (omega arith) in cc;
  }

  keep-true : (p : A → Bool) (x : A) (xs : List A) → p x ≡ true → keep p (x ∷ xs) ≡ x ∷ keep p xs
  keep-true p x xs h = rw h

  keep-false : (p : A → Bool) (x : A) (xs : List A) → p x ≡ false → keep p (x ∷ xs) ≡ keep p xs
  keep-false p x xs h = rw h

  -- The two heads of a list, in either order, behind the test.
  keep-swap :
      (p : A → Bool) (a b a' b' : A) (l : List A)
      → a ≡ b'
      → b ≡ a'
      → Alike (keep p (a ∷ b ∷ l)) (keep p (a' ∷ b' ∷ l))
  keep-swap p a b a' b' l d e =
      rw (← d, ← e)
        (elim (Bool-cases (p a)) [
          | inl h ↦ elim (Bool-cases (p b)) [
            | inl k ↦ rw (h, k) (record { lengths = refl; agree = λ few. absurd (omega arith) })
            | inr k ↦ rw (h, k) (Alike-refl (a ∷ keep p l))
          ]
          | inr h ↦ elim (Bool-cases (p b)) [
            | inl k ↦ rw (h, k) (Alike-refl (b ∷ keep p l))
            | inr k ↦ rw (h, k) (Alike-refl (keep p l))
          ]
        ])

  pub keep-Alike : (p : A → Bool) {xs ys : List A} → Permᴰ xs ys → Alike (keep p xs) (keep p ys)
  keep-Alike p Permᴰ.nil = Alike-refl []
  keep-Alike p (Permᴰ.cons {a = a} {b = b} {l₁ = l} {l₂ = m} e d) = elim (Bool-cases (p a)) [
    | inl h ↦ rw (keep-true p a l h, keep-true p b m (rw e at h)) (Alike-cons e (keep-Alike p d))
    | inr h ↦ rw (keep-false p a l h, keep-false p b m (rw e at h)) (keep-Alike p d)
  ]
  keep-Alike p (Permᴰ.swap {a = a} {b = b} {a' = a'} {b' = b'} {l = l} d e) =
      keep-swap p a b a' b' l d e
  keep-Alike p (Permᴰ.trans d e) = Alike-trans (keep-Alike p d) (keep-Alike p e)

decide_listed-Alike :
    (state : Option State) (target_id : String) (now : ℕ) {xs ys us vs : List Instance}
    → Alike xs ys
    → Alike us vs
    → decide_listed state target_id now xs us ≡ decide_listed state target_id now ys vs
unfolding decide_listed
decide_listed-Alike state target_id now {xs} {ys} {us} {vs} p q =
    elim (Bool-cases (ltb 1 (length xs + length us))) [
      | inl many ↦ rw (← p.lengths, ← q.lengths, many)
      | inr few ↦
          let e : xs ≡ ys = p.agree (ground arith) in
          let f : us ≡ vs = q.agree (ground arith) in rw (e, f)
    ]

-- The decision is the same in whatever order the provider lists the instances.
pub decide-Perm :
    (i : Input) (ys : List Instance)
    → Perm i.instances ys
    → decide (record i { instances = ys }) ≡ decide i
unfolding decide
decide-Perm i ys perm =
    ∥∥₁_elim perm (Decision-set _ _)
      (λ d. sym (decide_listed-Alike i.state i.target_id i.now (keep-Alike _ d) (keep-Alike _ d)))
