-- ===== src/Capacity/Saves.antt =====
-- internal/capacity/capacity.go: what `Watch` has persisted when it returns.
use mathlib.Core.List.{append_assoc}
use ocihood.Base.{
  ◌≡◌, ◌≢◌, refl, sym, ap, ◌∙◌, arith, String, Bool, true, Option, none, some, List, [], ◌∷◌, ◌++◌,
  ℤ, increment, eq_int, ◌&&◌, Bool-cases, inl, inr, ◌⊎◌,
}
use ocihood.Errors.{Err}
use ocihood.Errors.Kinds.{
  CapacityKind, available, unavailable, probe_unavailable, throttled, transient, fatal, canceled,
  other,
}
use ocihood.Io.{ok}
use ocihood.Capacity.{WatchState, Input, CapacityResult, Float64, Config}
use ocihood.Capacity.Watch.{
  Effect, probed, saved, stop, Round, watch_round, request_for, watch_loop, round_body, on_kind,
  no_capacity, delay_of, settled, found, on_fatal, end_cycle, wait, delayed, ad_at, probe_error,
  watch_round, request_for,
}
use ocihood.Capacity.Once.{WatchStep-cases}

-- The last act is the save of a state that fits the result: with capacity, or a probe that cannot
-- tell, its status and domain; without capacity only in `--once`. No next attempt is left planned.
abbrev pub EndsSaved : Bool → List Effect → CapacityResult → Type 0
EndsSaved once es x =
    (earlier : List Effect) × (s : WatchState) × (es ≡ earlier ++ saved s ∷ [])
    × (s.next_attempt ≡ 0)
    × (((x.kind ≡ available) ⊎ (x.kind ≡ probe_unavailable))
          × (s.status ≡ x.kind)
          × (s.last_ad ≡ x.availability_domain)
        ⊎ (x.kind ≡ unavailable) × (once ≡ true))

EndsSaved-append :
    {once : Bool} {x : CapacityResult} (fs : List Effect) {es : List Effect}
    → EndsSaved once es x
    → EndsSaved once (fs ++ es) x
EndsSaved-append fs (earlier, s, e, rest, fits) = (
  fs ++ earlier,
  s,
  ap (λ t. fs ++ t) e ∙ sym (append_assoc fs earlier (saved s ∷ [])),
  rest,
  fits,
)

end_cycle-EndsSaved :
    (once : Bool) (s : WatchState) (ad : String) (a : Option Err) (x : CapacityResult)
    → s.next_attempt ≡ 0
    → once ≡ true
    → (end_cycle s ad a).1 ≡ stop (ok x)
    → EndsSaved once (end_cycle s ad a).0 x
unfolding end_cycle
end_cycle-EndsSaved once s ad none x h o e = ([], s, refl, h, inr (cc, o))
end_cycle-EndsSaved once s ad (some f) x h o e = absurd (ground arith)

found-EndsSaved :
    (once : Bool) (s : WatchState) (ad : String) (kind : CapacityKind) (a : Option Err)
    (x : CapacityResult)
    → (kind ≡ available) ⊎ (kind ≡ probe_unavailable)
    → (found s ad kind a).1 ≡ stop (ok x)
    → EndsSaved once (found s ad kind a).0 x
unfolding found
found-EndsSaved once s ad kind none x k e =
    ([], settled s ad kind, refl, refl, inl (ground arith, cc, cc))
found-EndsSaved once s ad kind (some f) x k e = absurd (ground arith)

on_fatal-fails :
    (s : WatchState) (ad : String) (cause a : Option Err) (x : CapacityResult)
    → (on_fatal s ad cause a).1 ≢ stop (ok x)
unfolding on_fatal
on_fatal-fails s ad cause none x = λ e. ground arith
on_fatal-fails s ad cause (some f) x = λ e. ground arith

wait-fails :
    (s : WatchState) (ad : String) (delay : ℤ) (a b : Option Err) (x : CapacityResult)
    → (wait s ad delay a b).1 ≢ stop (ok x)
unfolding wait
wait-fails s ad delay (some e) b x = λ e. ground arith
wait-fails s ad delay none none x = λ e. ground arith
wait-fails s ad delay none (some f) x = λ e. ground arith

module _ (float : Float64) (c : Config float) (i : Input) where
  no_capacity-EndsSaved :
      (start : ℤ) (s : WatchState) (ad : String) (r : Round float c i) (x : CapacityResult)
      → (no_capacity float c i start s ad r).1 ≡ stop (ok x)
      → EndsSaved i.once (no_capacity float c i start s ad r).0 x
  unfolding no_capacity
  no_capacity-EndsSaved start s ad r x h = elim (Bool-cases (i.once && eq_int s.next_ad start)) [
    | inl back ↦ rw back (
        end_cycle-EndsSaved i.once (record s { next_attempt = 0 }) ad r.save_error x refl
          (ground arith) (ground (arith, h)))
    | inr on ↦ absurd (
        ground (
          arith,
          wait-fails (delayed float c i s r) ad (delay_of float c i (increment s.retry_count) r)
              r.save_error r.sleep_error x,
        ))
  ]

  on_kind-EndsSaved :
      (start : ℤ) (s : WatchState) (ad : String) (r : Round float c i) (k : CapacityKind)
      (x : CapacityResult)
      → (on_kind float c i start s ad r k).1 ≡ stop (ok x)
      → EndsSaved i.once (on_kind float c i start s ad r k).0 x
  unfolding on_kind
  on_kind-EndsSaved start s ad r available x h =
      found-EndsSaved i.once s ad available r.save_error x (inl refl) h
  on_kind-EndsSaved start s ad r probe_unavailable x h =
      found-EndsSaved i.once s ad probe_unavailable r.save_error x (inr refl) h
  on_kind-EndsSaved start s ad r fatal x h =
      absurd (on_fatal-fails s ad (probe_error float c i r) r.save_error x h)
  on_kind-EndsSaved start s ad r canceled x h = absurd (ground arith)
  on_kind-EndsSaved start s ad r unavailable x h = no_capacity-EndsSaved start _ ad r x h
  on_kind-EndsSaved start s ad r throttled x h = no_capacity-EndsSaved start _ ad r x h
  on_kind-EndsSaved start s ad r transient x h = no_capacity-EndsSaved start _ ad r x h
  on_kind-EndsSaved start s ad r (other k) x h = absurd (ground arith)

  round_body-EndsSaved :
      (start : ℤ) (s : WatchState) (r : Round float c i) (e : Option Err) (x : CapacityResult)
      → (round_body float c i start s r e).1 ≡ stop (ok x)
      → EndsSaved i.once (round_body float c i start s r e).0 x
  unfolding round_body
  round_body-EndsSaved start s r none x h = on_kind-EndsSaved start s _ r _ x h
  round_body-EndsSaved start s r (some e) x h = absurd (ground arith)

  round-EndsSaved :
      (start : ℤ) (s : WatchState) (r : Round float c i) (x : CapacityResult)
      → (watch_round float c i start s r).1 ≡ stop (ok x)
      → EndsSaved i.once (watch_round float c i start s r).0 x
  unfolding watch_round
  round-EndsSaved start s r x h =
      EndsSaved-append (probed (request_for i (ad_at i.availability_domains s.next_ad)) ∷ [])
        (round_body-EndsSaved start s r r.ctx_error x h)

  -- When the loop returns a result, its last act was the save of a state that fits the result: with
  -- capacity, or a probe that cannot tell, the state's status and domain are the result's; the only
  -- other result is `unavailable`, in `--once`. No next attempt is left planned in that state.
  pub watch_loop-EndsSaved :
      (start : ℤ) (s : WatchState) (rs : List (Round float c i)) (x : CapacityResult)
      → (watch_loop float c i start s rs).1 ≡ some (ok x)
      → EndsSaved i.once (watch_loop float c i start s rs).0 x
  unfolding watch_loop
  watch_loop-EndsSaved start s [] x h = absurd (ground arith)
  watch_loop-EndsSaved start s (r ∷ rs) x h =
      elim (WatchStep-cases (watch_round float c i start s r).1) [
        | inl (t, go) ↦
            rw (go, watch_loop)
              (EndsSaved-append (watch_round float c i start s r).0
                (watch_loop-EndsSaved start t rs x (ground (arith, h))))
        | inr (y, done) ↦ rw (done, watch_loop) (round-EndsSaved start s r x (ground (arith, h)))
      ]
