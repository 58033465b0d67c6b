-- ===== src/Capacity/Guarded.antt =====
-- internal/capacity/breaker.go: `BreakerClient.Probe`. `answer` is what the client answers where the
-- circuit lets the call through.
use ocihood.Base.{
  String, true, false, ◌≡◌, refl, ap, ◌∙◌, Option, none, some, if◌then◌else◌, pos, ◌⊎◌,
}
use ocihood.Errors.{Err, inner, open_error, Sentinel, open_state, too_many_requests}
use ocihood.Errors.Kinds.{
  CapacityKind, available, unavailable, probe_unavailable, throttled, transient, fatal, canceled,
  other,
}
use ocihood.Capacity.{ProbeResult}
use ocihood.Breaker.{is_open, Gate, Call, call, failure, exclude, Verdict, verdict, translate}
use ocihood.Breaker.Transparency.{
  Foreign-closed, open_is_open, Foreign, translate-plain, translate-marked, verdict-marked,
  call_refused, call_admitted,
}

-- The error that the breaker is told.
unfoldable pub classify : CapacityKind → Option Err → Option Err
classify transient e = some (failure e)
classify throttled e = some (failure e)
classify unavailable e = some (exclude e)
classify probe_unavailable e = some (exclude e)
classify fatal e = some (exclude e)
classify canceled e = some (exclude e)
classify available e = e
classify (other k) e = e

-- The kind that a call which was not made leaves in the result is empty.
abbrev no_result : ProbeResult
no_result = record { kind = other ""; retry_after = pos 0 }

abbrev transient_result : ProbeResult
transient_result = record { kind = transient; retry_after = pos 0 }

module _ (g : Gate) (name : String) (s : g.State) (answer : ProbeResult × Option Err) where
  abbrev pub probe_call : Call g
  probe_call = call g name s (classify answer.0.kind answer.1)

  unfoldable pub guarded_probe : ProbeResult × Option Err
  guarded_probe =
      let result = if probe_call.made then answer.0 else no_result in
      (if is_open probe_call.error then transient_result else result, probe_call.error)

-- What the breaker counts: a transient or throttled probe as a failure, capacity without an error
-- as a success, and an answer that tells of no fault of the service not at all.
abbrev pub counted : CapacityKind → Option Err → Verdict
counted transient e = Verdict.failed
counted throttled e = Verdict.failed
counted available none = Verdict.success
counted available (some e) = Verdict.failed
counted (other k) none = Verdict.success
counted (other k) (some e) = Verdict.failed
counted _ e = Verdict.excluded

translate-classify :
    (name : String) (k : CapacityKind) (e : Option Err)
    → Foreign e
    → translate name (classify k e) ≡ e
unfolding classify
translate-classify name transient e f = translate-marked name true e f
translate-classify name throttled e f = translate-marked name true e f
translate-classify name unavailable e f = translate-marked name false e f
translate-classify name probe_unavailable e f = translate-marked name false e f
translate-classify name fatal e f = translate-marked name false e f
translate-classify name canceled e f = translate-marked name false e f
translate-classify name available e f = translate-plain name e f
translate-classify name (other k) e f = translate-plain name e f

verdict-plain :
    (e : Option Err)
    → Foreign e
    → verdict e ≡ (elim e [ none ↦ Verdict.success | some _ ↦ Verdict.failed ])
unfolding verdict
verdict-plain none f = refl
verdict-plain (some e) f = rw f.not_marked refl

verdict-classify :
    (k : CapacityKind) (e : Option Err) → Foreign e → verdict (classify k e) ≡ counted k e
unfolding classify
verdict-classify transient e f = verdict-marked true (inner e)
verdict-classify throttled e f = verdict-marked true (inner e)
verdict-classify unavailable e f = verdict-marked false (inner e)
verdict-classify probe_unavailable e f = verdict-marked false (inner e)
verdict-classify fatal e f = verdict-marked false (inner e)
verdict-classify canceled e f = verdict-marked false (inner e)
verdict-classify available none f = verdict-plain none f
verdict-classify available (some e) f = verdict-plain (some e) f
verdict-classify (other k) none f = verdict-plain none f
verdict-classify (other k) (some e) f = verdict-plain (some e) f

module _ (g : Gate) (name : String) (s : g.State) (answer : ProbeResult × Option Err) where
  -- A probe that the circuit lets through returns what the client answered, and the circuit counts it
  -- by its kind.
  pub guarded_probe_admitted :
      Foreign answer.1
      → (g.admit s).0 ≡ none
      → (guarded_probe g name s answer ≡ answer)
        × ((probe_call g name s answer).after
            ≡ g.settle (counted answer.0.kind answer.1) (g.admit s).1)
  unfolding guarded_probe
  guarded_probe_admitted f h =
      let (made, e, after) = call_admitted g name s (classify answer.0.kind answer.1) h in
      let same = e ∙ translate-classify name answer.0.kind answer.1 f in
      (
        rw (made, same, Foreign-closed answer.1 f) refl,
        after ∙ ap (λ v. g.settle v (g.admit s).1) (verdict-classify answer.0.kind answer.1 f),
      )

  -- A probe that the circuit refuses is not made, and reads as a transient one with the breaker's
  -- error, so that the watcher waits.
  pub guarded_probe_refused :
      (why : Sentinel)
      → (why ≡ open_state) ⊎ (why ≡ too_many_requests)
      → (g.admit s).0 ≡ some why
      → ((probe_call g name s answer).made ≡ false)
        × ((guarded_probe g name s answer).0.kind ≡ transient)
        × ((guarded_probe g name s answer).1 ≡ some (open_error name))
  unfolding guarded_probe
  guarded_probe_refused why which h =
      let (unmade, e) = call_refused g name s (classify answer.0.kind answer.1) why which h in
      (unmade, rw (e, open_is_open name) refl, e)
