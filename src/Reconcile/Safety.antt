-- ===== src/Reconcile/Safety.antt =====
-- internal/reconcile/reconcile.go: the kinds of decision of `Decide`.
use ocihood.Base.{
  ℕ, String, true, false, ◌&&◌, ◌≡◌, ◌↔◌, ◌⊎◌, inl, inr, ◌<◌, Option, none, some, List, [], ◌∷◌,
  arith, All, keep, is_blank, eq_iff, refl, Option-cases, Bool-cases, ap, ◌++◌,
}
use ocihood.Reconcile.{
  Attempt, active, terminated, Instance, State, DecisionKind, create, already_satisfied,
  retry_same_attempt, new_attempt_safe, Decision, Input, is_owned, active_owned, unknown_owned,
  is_active, is_unknown, decide, decide_listed,
}

-- The kinds after which the program launches an instance.
abbrev pub Launches : DecisionKind → Type 0
Launches k = (k ≡ create) ⊎ (k ≡ new_attempt_safe) ⊎ (k ≡ retry_same_attempt)

-- Nothing that the input shows is owned and may still run.
abbrev pub NoneAlive : Input → Type 0
NoneAlive i =
    All (λ x. is_owned x.tags i.target_id i.account ≡ true → x.lifecycle ≡ terminated) i.instances

alive_none :
    (t a : String) (xs : List Instance)
    → keep (λ x. is_owned x.tags t a && is_active x.lifecycle) xs ≡ []
    → keep (λ x. is_owned x.tags t a && is_unknown x.lifecycle) xs ≡ []
    → All (λ x. is_owned x.tags t a ≡ true → x.lifecycle ≡ terminated) xs
alive_none t a [] p q = tt
alive_none t a (x ∷ xs) p q = ground (arith, alive_none t a xs)

-- The one instance that is owned and active; all others that are owned are terminated.
abbrev pub IsAlone : String → String → List Instance → Instance → Type 0
IsAlone t a xs x =
    (before : List Instance) × (after : List Instance) × (xs ≡ before ++ x ∷ after)
    × (is_owned x.tags t a ≡ true)
    × (x.lifecycle ≡ active)
    × All (λ y. is_owned y.tags t a ≡ true → y.lifecycle ≡ terminated) (before ++ after)

module _ (t a : String) where
  keep_first-IsAlone :
      (x y : Instance) (ys : List Instance)
      → (is_owned y.tags t a && is_active y.lifecycle) ≡ true
      → keep (λ x. is_owned x.tags t a && is_active x.lifecycle) (y ∷ ys) ≡ x ∷ []
      → keep (λ x. is_owned x.tags t a && is_unknown x.lifecycle) (y ∷ ys) ≡ []
      → IsAlone t a (y ∷ ys) x
  keep_first-IsAlone x y ys passes p q =
      let rest : keep (λ x. is_owned x.tags t a && is_active x.lifecycle) ys ≡ [] = ground arith in
      let unknown : keep (λ x. is_owned x.tags t a && is_unknown x.lifecycle) ys ≡ [] =
        ground arith in
      let same : y ≡ x = ground arith in
      rw (← same) ([], ys, refl, ground arith, ground arith, alive_none t a ys rest unknown)

  keep-IsAlone :
      (x : Instance) (ys : List Instance)
      → keep (λ x. is_owned x.tags t a && is_active x.lifecycle) ys ≡ x ∷ []
      → keep (λ x. is_owned x.tags t a && is_unknown x.lifecycle) ys ≡ []
      → IsAlone t a ys x
  keep-IsAlone x [] p q = absurd (cc)
  keep-IsAlone x (y ∷ ys) p q = elim (Bool-cases (is_owned y.tags t a && is_active y.lifecycle)) [
    | inl passes ↦ keep_first-IsAlone x y ys passes p q
    | inr fails ↦
        let (before, after, e, owned, runs, dead) =
          keep-IsAlone x ys (rw fails at p) (ground arith) in
        let gone : is_owned y.tags t a ≡ true → y.lifecycle ≡ terminated = ground arith in
        (y ∷ before, after, ap (◌∷◌ y) e, owned, runs, (gone, dead))
  ]

-- What holds of `decide_listed` for any two lists holds of `Decide` for the lists that it collects.
module _ (state : Option State) (target_id : String) (now : ℕ) where
  listed : List Instance → List Instance → Decision
  listed xs us = decide_listed state target_id now xs us

  listed-Launches : (xs us : List Instance) → Launches (listed xs us).kind → (xs ≡ []) × (us ≡ [])
  unfolding listed decide_listed
  listed-Launches xs (u ∷ us) h = ground arith
  listed-Launches (x ∷ xs) [] h = ground arith
  listed-Launches [] [] h = (refl, refl)

  listed-create : (xs us : List Instance) → (listed xs us).kind ≡ create → state ≡ none
  unfolding listed decide_listed
  listed-create xs (u ∷ us) h = ground arith
  listed-create (x ∷ xs) [] h = ground arith
  listed-create [] [] h = ground arith

  listed-satisfied :
      (xs us : List Instance)
      → (listed xs us).kind ≡ already_satisfied
      → (x : Instance) × (xs ≡ x ∷ []) × (us ≡ []) × ((listed xs us).instance_id ≡ x.id)
  unfolding listed decide_listed
  listed-satisfied xs (u ∷ us) h = absurd (ground arith)
  listed-satisfied [] [] h = absurd (ground arith)
  listed-satisfied (x ∷ []) [] h = (x, refl, refl, ground arith)
  listed-satisfied (x ∷ y ∷ xs) [] h = absurd (ground arith)

  -- The attempt of the state, complete and not expired, is the one that the decision hands on.
  abbrev pub Retries : Decision → Type 0
  Retries d =
      (s : State) × (a : Attempt) × (state ≡ some s)
      × (s.attempt ≡ some a)
      × (d.attempt ≡ some a)
      × (now < a.valid_until)
      × (is_blank a.id ≡ false)
      × (is_blank a.retry_token ≡ false)

  listed-retry :
      (xs us : List Instance) → (listed xs us).kind ≡ retry_same_attempt → Retries (listed xs us)
  unfolding listed decide_listed
  listed-retry xs (u ∷ us) h = absurd (ground arith)
  listed-retry (x ∷ xs) [] h = absurd (ground arith)
  listed-retry [] [] h = elim (Option-cases state) [
    | inl e ↦ absurd (ground arith)
    | inr (s, e) ↦ elim (Option-cases s.attempt) [
      | inl e' ↦ absurd (ground arith)
      | inr (a, e') ↦ (s, a, e, e', ground arith, ground arith, ground arith, ground arith)
    ]
  ]

-- A decision to launch is taken only when each instance that the provider lists and that carries the
-- target's ownership tags is terminated.
pub decide-NoneAlive : (i : Input) → Launches (decide i).kind → NoneAlive i
unfolding decide listed
decide-NoneAlive i h =
    let (p, q) = listed-Launches i.state i.target_id i.now (active_owned i) (unknown_owned i) h in
    alive_none i.target_id i.account i.instances p q

pub decide-Launches :
    (i : Input) → Launches (decide i).kind → (active_owned i ≡ []) × (unknown_owned i ≡ [])
unfolding decide listed
decide-Launches i = listed-Launches i.state i.target_id i.now (active_owned i) (unknown_owned i)

-- The decision to retry hands on the attempt of the local state, which is complete and not yet
-- expired.
pub decide-retry :
    (i : Input)
    → (decide i).kind ≡ retry_same_attempt
    → Retries i.state i.target_id i.now (decide i)
unfolding decide listed
decide-retry i h = listed-retry i.state i.target_id i.now (active_owned i) (unknown_owned i) h

-- A target counts as satisfied only by the single owned instance that is not terminated: an active
-- one, whose id the decision reports. Each other instance that the provider lists and that carries the
-- target's ownership tags is terminated.
pub decide-satisfied :
    (i : Input)
    → (decide i).kind ≡ already_satisfied
    → (x : Instance) × (active_owned i ≡ x ∷ [])
      × (unknown_owned i ≡ [])
      × ((decide i).instance_id ≡ x.id)
      × IsAlone i.target_id i.account i.instances x
unfolding decide listed
decide-satisfied i h =
    let (x, p, q, reports) =
      listed-satisfied i.state i.target_id i.now (active_owned i) (unknown_owned i) h in
    (x, p, q, reports, keep-IsAlone i.target_id i.account x i.instances p q)

-- To create is decided exactly when there is no local state and no owned instance that is active or
-- unknown.
pub decide-create_iff :
    (i : Input)
    → ((decide i).kind ≡ create)
      ↔ ((i.state ≡ none) × (active_owned i ≡ []) × (unknown_owned i ≡ []))
unfolding decide listed decide_listed
decide-create_iff i = (
  λ h.
      let (p, q) =
        listed-Launches i.state i.target_id i.now (active_owned i) (unknown_owned i) (inl h) in
      (listed-create i.state i.target_id i.now (active_owned i) (unknown_owned i) h, p, q),
  λ h. ground arith,
)

-- A complete attempt in the local state that has not expired is retried as long as no owned instance
-- is active or unknown: the decision hands on that very attempt.
pub decide_retries :
    (i : Input) (s : State) (a : Attempt)
    → i.state ≡ some s
    → s.target_id ≡ i.target_id
    → s.attempt ≡ some a
    → is_blank a.id ≡ false
    → is_blank a.retry_token ≡ false
    → i.now < a.valid_until
    → active_owned i ≡ []
    → unknown_owned i ≡ []
    → ((decide i).kind ≡ retry_same_attempt) × ((decide i).attempt ≡ some a)
unfolding decide decide_listed
decide_retries i s a from target held id token soon none_active none_unknown =
    rw (from, none_active, none_unknown)
      (ground (arith, eq_iff s.target_id i.target_id, target, held, id, token, soon))
