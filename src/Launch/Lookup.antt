-- ===== src/Launch/Lookup.antt =====
-- internal/launch/launch.go: which instance the wait for a public address ends with.
use ocihood.Base.{
  ℕ, suc, ◌+◌, String, true, ◌≡◌, ◌≢◌, ◌⊎◌, refl, ap, ◌∙◌, none, some, List, [], ◌∷◌, ◌++◌, arith,
  All, length, eq_iff, eq_int, inl, inr,
}
use ocihood.Errors.{Err}
use ocihood.Io.{ok, err}
use ocihood.Launch.{Instance, Input, LookupRound, backoff}
use ocihood.Launch.Run.{LookupStep, more, use_instance, leave, lookup_round, lookup_loop}

-- A look-up that shows an instance with an address.
abbrev pub Shows : LookupRound → Type 0
Shows l = (l.error ≡ none) × (l.instance.public_ip ≢ "")

-- The instance of the last look-up without an error, or the one of before.
abbrev pub last_answer : Instance → List LookupRound → Instance
last_answer x [] = x
last_answer x (l ∷ ls) = last_answer (elim l.error [ none ↦ l.instance | some _ ↦ x ]) ls

module _ (i : Input) (id : String) where
  -- A wait that found the instance `y`: the look-ups before the last showed no address; the last shows
  -- one, and its instance is the one found, or it was made after the longest delay, and the one found
  -- is the last that was answered.
  pub record Found (retry : ℕ) (x : Instance) (ls : List LookupRound) (y : Instance) : Type 0 where
    pub before : List LookupRound
    pub last : LookupRound
    pub after : List LookupRound
    pub are_split : ls ≡ before ++ last ∷ after
    pub are_quiet : All (λ l. ¬ Shows l) before
    pub is_last :
        (Shows last × (y ≡ last.instance))
        ⊎ ((¬ Shows last)
            × (eq_int (backoff i.retry_min i.retry_max (retry + length before)) i.retry_max ≡ true)
            × (y ≡ last_answer x (before ++ last ∷ [])))

  -- What one look-up comes to.
  abbrev answered : Instance → LookupRound → Instance
  answered x l = last_answer x (l ∷ [])

  lookup_round-use_instance :
      (retry : ℕ) (x y : Instance) (l : LookupRound)
      → (lookup_round i id retry x l).1 ≡ use_instance y
      → (Shows l × (y ≡ l.instance))
        ⊎ ((¬ Shows l)
            × (eq_int (backoff i.retry_min i.retry_max retry) i.retry_max ≡ true)
            × (y ≡ answered x l))
  unfolding lookup_round
  lookup_round-use_instance retry x y l h = ground (arith, eq_iff l.instance.public_ip "")

  lookup_round-more :
      (retry : ℕ) (x y : Instance) (l : LookupRound)
      → (lookup_round i id retry x l).1 ≡ more y
      → (¬ Shows l) × (y ≡ answered x l)
  unfolding lookup_round
  lookup_round-more retry x y l h = ground (arith, eq_iff l.instance.public_ip "")

  LookupStep-cases :
      (w : LookupStep)
      → ((y : Instance) × (w ≡ more y))
        ⊎ ((y : Instance) × (w ≡ use_instance y))
        ⊎ ((e : Err) × (w ≡ leave e))
  LookupStep-cases (more y) = inl (y, refl)
  LookupStep-cases (use_instance y) = inr (inl (y, refl))
  LookupStep-cases (leave e) = inr (inr (e, refl))

  now_found :
      (retry : ℕ) (x y : Instance) (l : LookupRound) (ls : List LookupRound)
      → (lookup_round i id retry x l).1 ≡ use_instance y
      → Found retry x (l ∷ ls) y
  now_found retry x y l ls h = record {
    before = [];
    last = l;
    after = ls;
    are_split = refl;
    are_quiet = tt;
    is_last =
        let e : retry + 0 ≡ retry = omega arith in rw e (lookup_round-use_instance retry x y l h);
  }

  later_found :
      (retry : ℕ) (x y z : Instance) (l : LookupRound) (ls : List LookupRound)
      → (lookup_round i id retry x l).1 ≡ more y
      → Found (suc retry) y ls z
      → Found retry x (l ∷ ls) z
  later_found retry x y z l ls h k =
      let (quiet, seen) = lookup_round-more retry x y l h in
      let e : suc retry + length k.before ≡ retry + suc (length k.before) = omega arith in
      record {
        before = l ∷ k.before;
        last = k.last;
        after = k.after;
        are_split = ap (◌∷◌ l) k.are_split;
        are_quiet = (quiet, k.are_quiet);
        is_last = rw (e, seen) at k.is_last;
      }

  -- When the wait for a public address ends with an instance, it is that of the first look-up that shows
  -- an address, whatever its lifecycle state; or none has shown one up to the look-up that is made after
  -- the longest delay, and the instance is the one that was answered last.
  pub lookup_loop-Found :
      (retry : ℕ) (x y : Instance) (ls : List LookupRound)
      → (lookup_loop i id retry x ls).1 ≡ some (ok y)
      → Found retry x ls y
  unfolding lookup_loop
  lookup_loop-Found retry x y [] h = absurd (cc)
  lookup_loop-Found retry x y (l ∷ ls) h = elim (LookupStep-cases (lookup_round i id retry x l).1) [
    | inl (z, go) ↦
        later_found retry x z y l ls go
          (lookup_loop-Found (suc retry) z y ls (rw (go, lookup_loop) at h))
    | inr (inl (z, taken)) ↦
        let found : some (ok z) ≡ some (ok y) = rw (taken, lookup_loop) at h in
        let same : z ≡ y = cc in now_found retry x y l ls (taken ∙ ap use_instance same)
    | inr (inr (e, gone)) ↦
        let failed : some (err e) ≡ some (ok y) = rw (gone, lookup_loop) at h in absurd (cc)
  ]
