-- ===== src/Launch/Guarded.antt =====
-- internal/launch/breaker.go: `BreakerProvider`. `answer` is what the provider answers where the
-- circuit lets the call through; a call that is not made leaves the zero result.
use ocihood.Base.{
  String, Bool, true, false, ◌≡◌, refl, ◌∙◌, Option, none, some, if◌then◌else◌, pos, ◌⊎◌,
}
use ocihood.Errors.{Err, open_error, Sentinel, open_state, too_many_requests, as_launch}
use ocihood.Errors.Kinds.{
  LaunchKind, accepted, out_of_capacity, transient, ambiguous, fatal, limit_exceeded, canceled,
  unset, other,
}
use ocihood.Launch.{Instance, LaunchResult}
use ocihood.Breaker.{is_open, Gate, call, failure, exclude, translate}
use ocihood.Breaker.Transparency.{
  Foreign-closed, open_is_open, Foreign, IsForeign, translate-plain, translate-marked, call_refused,
  call_admitted,
}

unfoldable pub classify_kind : LaunchKind → Option Err → Option Err
classify_kind transient e = some (failure e)
classify_kind ambiguous e = some (failure e)
classify_kind out_of_capacity e = some (exclude e)
classify_kind fatal e = some (exclude e)
classify_kind limit_exceeded e = some (exclude e)
classify_kind canceled e = some (exclude e)
classify_kind accepted e = e
classify_kind unset e = e
classify_kind (other k) e = e

abbrev by_kind : Err → Option (LaunchKind × Err) → Option Err
by_kind e (some (k, _)) = classify_kind k (some e)
by_kind e none = some (failure (some e))

unfoldable pub classify_error : Option Err → Option Err
classify_error none = none
classify_error (some e) = by_kind e (as_launch e)

abbrev pub no_instance : Instance
no_instance = record { id = ""; state = ""; public_ip = "" }

abbrev pub no_result : LaunchKind → LaunchResult
no_result k = record { kind = k; instance = no_instance; retry_after = pos 0 }

module _ (g : Gate) (name : String) (s : g.State) where
  unfoldable pub guarded_launch : LaunchResult × Option Err → LaunchResult × Option Err
  guarded_launch (r, e) =
      let c = call g name s (classify_kind r.kind e) in
      let result = if c.made then r else no_result unset in
      (if is_open c.error then no_result transient else result, c.error)

  unfoldable pub guarded_reconcile : (Instance × Bool) × Option Err → (Instance × Bool) × Option Err
  guarded_reconcile (x, e) =
      let c = call g name s (classify_error e) in
      (if c.made then x else (no_instance, false), c.error)

  unfoldable pub guarded_get : Instance × Option Err → Instance × Option Err
  guarded_get (x, e) =
      let c = call g name s (classify_error e) in (if c.made then x else no_instance, c.error)

translate-classify_kind :
    (name : String) (k : LaunchKind) (e : Option Err)
    → Foreign e
    → translate name (classify_kind k e) ≡ e
unfolding classify_kind
translate-classify_kind name transient e f = translate-marked name true e f
translate-classify_kind name ambiguous e f = translate-marked name true e f
translate-classify_kind name out_of_capacity e f = translate-marked name false e f
translate-classify_kind name fatal e f = translate-marked name false e f
translate-classify_kind name limit_exceeded e f = translate-marked name false e f
translate-classify_kind name canceled e f = translate-marked name false e f
translate-classify_kind name accepted e f = translate-plain name e f
translate-classify_kind name unset e f = translate-plain name e f
translate-classify_kind name (other k) e f = translate-plain name e f

translate-by_kind :
    (name : String) (e : Err) (o : Option (LaunchKind × Err))
    → IsForeign e
    → translate name (by_kind e o) ≡ some e
translate-by_kind name e none f = translate-marked name true (some e) f
translate-by_kind name e (some (k, _)) f = translate-classify_kind name k (some e) f

translate-classify_error :
    (name : String) (e : Option Err) → Foreign e → translate name (classify_error e) ≡ e
unfolding classify_error
translate-classify_error name none f = translate-plain name none f
translate-classify_error name (some e) f = translate-by_kind name e (as_launch e) f

module _ (g : Gate) (name : String) (s : g.State) where
  -- Each of the three calls, where the circuit lets it through, returns what the provider answered.
  pub guarded_admitted :
      (r : LaunchResult) (x : Instance) (b : Bool) (e : Option Err)
      → Foreign e
      → (g.admit s).0 ≡ none
      → (guarded_launch g name s (r, e) ≡ (r, e))
        × (guarded_reconcile g name s ((x, b), e) ≡ ((x, b), e))
        × (guarded_get g name s (x, e) ≡ (x, e))
  unfolding guarded_launch guarded_reconcile guarded_get
  guarded_admitted r x b e f h =
      let (launch_made, launch_error, _) = call_admitted g name s (classify_kind r.kind e) h in
      let (made, error, _) = call_admitted g name s (classify_error e) h in
      let same = launch_error ∙ translate-classify_kind name r.kind e f in
      let same' = error ∙ translate-classify_error name e f in
      (
        rw (launch_made, same, Foreign-closed e f) refl,
        rw (made, same') refl,
        rw (made, same') refl,
      )

  -- A call that the circuit refuses finds nothing: a launch reads as a transient failure, which is
  -- tried again with the same token, and a reconciliation and a look-up fail with the breaker's error.
  pub guarded_refused :
      (r : LaunchResult) (x : Instance) (b : Bool) (e : Option Err) (why : Sentinel)
      → (why ≡ open_state) ⊎ (why ≡ too_many_requests)
      → (g.admit s).0 ≡ some why
      → (guarded_launch g name s (r, e) ≡ (no_result transient, some (open_error name)))
        × (guarded_reconcile g name s ((x, b), e) ≡ ((no_instance, false), some (open_error name)))
        × (guarded_get g name s (x, e) ≡ (no_instance, some (open_error name)))
  unfolding guarded_launch guarded_reconcile guarded_get
  guarded_refused r x b e why which h =
      let (launch_unmade, launch_error) =
        call_refused g name s (classify_kind r.kind e) why which h in
      let (unmade, error) = call_refused g name s (classify_error e) why which h in
      (rw (launch_error, open_is_open name) refl, rw (unmade, error) refl, rw (unmade, error) refl)
