-- ===== src/Launch/Budget.antt =====
-- internal/launch/launch.go: the loops of `Run` with a retry budget, for launching and for the wait
-- for a public address.
use ocihood.Base.{
  ℕ, suc, ◌+◌, ◌*◌, ◌^◌, ◌≤◌, ◌<◌, ◌≡◌, ◌≢◌, arith, String, true, none, List, [], ◌∷◌, All, length,
  pos, eq_iff, Bool-cases, inl, inr, ltb,
}
use ocihood.Launch.{Instance, Input, backoff, LaunchRound, LookupRound}
use ocihood.Launch.Backoff.{backoff-min}
use ocihood.Launch.Run.{again, launch_round, launch_loop, more, lookup_round, lookup_loop}

-- Positive retry bounds of 64 bits, and a number of doublings that takes the first to the second.
pub record HasBudget (i : Input) (k : ℕ) : Type 0 where
  pub low : ℕ
  pub high : ℕ
  pub retry_min : i.retry_min ≡ pos low
  pub retry_max : i.retry_max ≡ pos high
  pub positive : 0 < low
  pub ordered : low ≤ high
  pub fits : high < 2 ^ 63
  pub doublings : high ≤ low * 2 ^ k

-- A reconciliation that finds an instance gives its id.
abbrev pub NamesFound : LaunchRound → Type 0
NamesFound r = r.found ≡ true → r.found_instance.id ≢ ""

module _ (i : Input) (k : ℕ) (b : HasBudget i k) where
  last_delay : backoff i.retry_min i.retry_max k ≡ i.retry_max
  last_delay =
      rw (b.retry_min, b.retry_max, backoff-min b.low b.high k b.positive b.ordered b.fits)
        (ground (arith, b.doublings))

  last_round : (r : LaunchRound) → NamesFound r → (launch_round i k r).1 ≢ again
  unfolding launch_round
  last_round r named = ground (
    arith,
    last_delay,
    b.retry_max,
    eq_iff r.found_instance.id "",
    eq_iff r.result.instance.id "",
  )

  launch_loop-ends_from :
      (retry : ℕ) (rs : List LaunchRound)
      → retry ≤ k
      → k < retry + length rs
      → All NamesFound rs
      → (launch_loop i retry rs).1 ≢ none
  unfolding launch_loop
  launch_loop-ends_from retry [] p q named = absurd (omega arith)
  launch_loop-ends_from retry (r ∷ rs) p q (named, later) = elim (Bool-cases (ltb retry k)) [
    | inl early ↦
        ground (arith, launch_loop-ends_from (suc retry) rs (ground arith) (omega arith) later)
    | inr last ↦
        let e : retry ≡ k = ground arith in
        let ends : (launch_round i retry r).1 ≢ again = rw e (last_round r named) in ground arith
  ]

  -- One step of the lookup loop, by what the round leads to.
  lookup_goes_on :
      (id : String) (retry : ℕ) (x : Instance) (l : LookupRound) (ls : List LookupRound)
      → ((y : Instance) → (lookup_loop i id (suc retry) y ls).1 ≢ none)
      → (lookup_loop i id retry x (l ∷ ls)).1 ≢ none
  unfolding lookup_loop
  lookup_goes_on id retry x l ls later = grind (arith, later)

  lookup_stops :
      (id : String) (retry : ℕ) (x : Instance) (l : LookupRound) (ls : List LookupRound)
      → ((y : Instance) → (lookup_round i id retry x l).1 ≢ more y)
      → (lookup_loop i id retry x (l ∷ ls)).1 ≢ none
  unfolding lookup_loop
  lookup_stops id retry x l ls never = grind (arith, never)

  last_lookup :
      (id : String) (x : Instance) (l : LookupRound) (y : Instance)
      → (lookup_round i id k x l).1 ≢ more y
  unfolding lookup_round
  last_lookup id x l y = ground (arith, last_delay, b.retry_max)

  lookup_loop-ends_from :
      (id : String) (retry : ℕ) (x : Instance) (ls : List LookupRound)
      → retry ≤ k
      → k < retry + length ls
      → (lookup_loop i id retry x ls).1 ≢ none
  unfolding lookup_loop
  lookup_loop-ends_from id retry x [] p q = absurd (omega arith)
  lookup_loop-ends_from id retry x (l ∷ ls) p q = elim (Bool-cases (ltb retry k)) [
    | inl early ↦
        lookup_goes_on id retry x l ls
          (λ y. lookup_loop-ends_from id (suc retry) y ls (ground arith) (omega arith))
    | inr last ↦
        let e : retry ≡ k = ground arith in
        lookup_stops id retry x l ls (λ y. rw e (last_lookup id x l y))
  ]

  -- The launch loop asks the provider to launch at most `k + 1` times, where `retry_max` is at most
  -- `retry_min` doubled `k` times: by then it has an instance or has returned an error.
  pub launch_loop-ends :
      (rs : List LaunchRound) → k < length rs → All NamesFound rs → (launch_loop i 0 rs).1 ≢ none
  launch_loop-ends rs q named = launch_loop-ends_from 0 rs (omega arith) (omega arith) named

  -- The wait for a public address ends after at most `k + 1` lookups, whatever they answer.
  pub lookup_loop-ends :
      (id : String) (x : Instance) (ls : List LookupRound)
      → k < length ls
      → (lookup_loop i id 0 x ls).1 ≢ none
  lookup_loop-ends id x ls q = lookup_loop-ends_from id 0 x ls (omega arith) (omega arith)
