-- ===== src/Capacity/Sleeps.antt =====
-- internal/capacity/capacity.go: what `Watch` has persisted when it sleeps.
use ocihood.Base.{
  ℕ, ◌≡◌, refl, String, Option, none, some, List, [], ◌∷◌, ◌++◌, ℤ, pos, increment, eq_int, le_int,
  not, ◌&&◌, Bool-cases, inl, inr,
}
use ocihood.Errors.{Err}
use ocihood.Errors.Kinds.{
  CapacityKind, available, unavailable, probe_unavailable, throttled, transient, fatal, canceled,
  other,
}
use ocihood.Time.{add_time}
use ocihood.Capacity.{WatchState, Input, Float64, Config}
use ocihood.Capacity.Watch.{
  Effect, probed, saved, slept, Round, watch_round, watch_loop, round_body, on_kind, no_capacity,
  delay_of, found, on_fatal, end_cycle, wait, delayed, probe_error, watch_round,
}
use ocihood.Capacity.Once.{WatchStep-cases}

-- The effects of a watch, read with the clock readings of its rounds. Each probe begins the next
-- round; a sleep comes right after a save of the same round, and the state that was saved has as its
-- next attempt the round's reading of the clock plus the duration of the sleep. The first two arguments
-- are the reading of the round that is read, and the state that was saved last.
abbrev pub PersistsSleeps : Option ℕ → Option WatchState → List ℕ → List Effect → Type 0
PersistsSleeps now last readings [] = Unit
PersistsSleeps now last [] (probed _ ∷ es) = ⊥
PersistsSleeps now last (reading ∷ readings) (probed _ ∷ es) =
    PersistsSleeps (some reading) none readings es
PersistsSleeps now last readings (saved s ∷ es) = PersistsSleeps now (some s) readings es
PersistsSleeps (some now) (some s) readings (slept d ∷ es) =
    (s.next_attempt ≡ add_time now d) × PersistsSleeps (some now) none readings es
PersistsSleeps _ _ readings (slept d ∷ es) = ⊥

-- The effects of one round after its probe, at its reading of the clock.
abbrev Persists : ℕ → Option WatchState → List Effect → Type 0
Persists now last [] = Unit
Persists now last (probed _ ∷ es) = ⊥
Persists now last (saved s ∷ es) = Persists now (some s) es
Persists now (some s) (slept d ∷ es) = (s.next_attempt ≡ add_time now d) × Persists now none es
Persists now none (slept d ∷ es) = ⊥

PersistsSleeps-append :
    (now : ℕ) (last : Option WatchState) (readings : List ℕ) (es fs : List Effect)
    → Persists now last es
    → ((before : Option ℕ) (kept : Option WatchState) → PersistsSleeps before kept readings fs)
    → PersistsSleeps (some now) last readings (es ++ fs)
PersistsSleeps-append now last readings [] fs h k = k (some now) last
PersistsSleeps-append now last readings (probed _ ∷ es) fs h k = absurd h
PersistsSleeps-append now last readings (saved s ∷ es) fs h k =
    PersistsSleeps-append now (some s) readings es fs h k
PersistsSleeps-append now none readings (slept d ∷ es) fs h k = absurd h
PersistsSleeps-append now (some s) readings (slept d ∷ es) fs (h, rest) k =
    (h, PersistsSleeps-append now none readings es fs rest k)

Persists-PersistsSleeps :
    (now : ℕ) (last : Option WatchState) (readings : List ℕ) (es : List Effect)
    → Persists now last es
    → PersistsSleeps (some now) last readings es
Persists-PersistsSleeps now last readings [] h = tt
Persists-PersistsSleeps now last readings (probed _ ∷ es) h = absurd h
Persists-PersistsSleeps now last readings (saved s ∷ es) h =
    Persists-PersistsSleeps now (some s) readings es h
Persists-PersistsSleeps now none readings (slept d ∷ es) h = absurd h
Persists-PersistsSleeps now (some s) readings (slept d ∷ es) (h, rest) =
    (h, Persists-PersistsSleeps now none readings es rest)

wait-Persists :
    (s : WatchState) (ad : String) (delay : ℤ) (a b : Option Err) (now : ℕ)
    → s.next_attempt ≡ add_time now delay
    → Persists now none (wait s ad delay a b).0
unfolding wait
wait-Persists s ad delay (some e) b now h = tt
wait-Persists s ad delay none none now h = (h, tt)
wait-Persists s ad delay none (some e) now h = (h, tt)

end_cycle-Persists :
    (now : ℕ) (s : WatchState) (ad : String) (a : Option Err)
    → Persists now none (end_cycle s ad a).0
unfolding end_cycle
end_cycle-Persists now s ad none = tt
end_cycle-Persists now s ad (some e) = tt

found-Persists :
    (now : ℕ) (s : WatchState) (ad : String) (kind : CapacityKind) (a : Option Err)
    → Persists now none (found s ad kind a).0
unfolding found
found-Persists now s ad kind none = tt
found-Persists now s ad kind (some e) = tt

on_fatal-Persists :
    (now : ℕ) (s : WatchState) (ad : String) (cause a : Option Err)
    → Persists now none (on_fatal s ad cause a).0
unfolding on_fatal
on_fatal-Persists now s ad cause none = tt
on_fatal-Persists now s ad cause (some e) = tt

module _ (float : Float64) (c : Config float) (i : Input) where
  no_capacity-Persists :
      (start : ℤ) (s : WatchState) (ad : String) (r : Round float c i)
      → Persists r.now none (no_capacity float c i start s ad r).0
  unfolding no_capacity
  no_capacity-Persists start s ad r = elim (Bool-cases (i.once && eq_int s.next_ad start)) [
    | inl back ↦ rw back (end_cycle-Persists r.now (record s { next_attempt = 0 }) ad r.save_error)
    | inr on ↦ rw on (elim (Bool-cases i.once) [
      | inl once ↦ rw once tt
      | inr steady ↦
          rw steady
            (elim (Bool-cases
              (not (eq_int s.next_ad (pos 0)) && le_int r.probe.retry_after (pos 0))) [
                | inl more ↦ rw more tt
                | inr full ↦ rw full (
                    wait-Persists (delayed float c i s r) ad
                      (delay_of float c i (increment s.retry_count) r) r.save_error r.sleep_error
                      r.now refl)
              ])
    ])
  ]

  on_kind-Persists :
      (start : ℤ) (s : WatchState) (ad : String) (r : Round float c i) (k : CapacityKind)
      → Persists r.now none (on_kind float c i start s ad r k).0
  unfolding on_kind
  on_kind-Persists start s ad r available = found-Persists r.now s ad available r.save_error
  on_kind-Persists start s ad r probe_unavailable =
      found-Persists r.now s ad probe_unavailable r.save_error
  on_kind-Persists start s ad r fatal =
      on_fatal-Persists r.now s ad (probe_error float c i r) r.save_error
  on_kind-Persists start s ad r canceled = tt
  on_kind-Persists start s ad r unavailable = no_capacity-Persists start _ ad r
  on_kind-Persists start s ad r throttled = no_capacity-Persists start _ ad r
  on_kind-Persists start s ad r transient = no_capacity-Persists start _ ad r
  on_kind-Persists start s ad r (other k) = tt

  round_body-Persists :
      (start : ℤ) (s : WatchState) (r : Round float c i) (e : Option Err)
      → Persists r.now none (round_body float c i start s r e).0
  unfolding round_body
  round_body-Persists start s r none = on_kind-Persists start s _ r _
  round_body-Persists start s r (some e) = tt

  -- The readings of the clock, round by round.
  abbrev pub readings : List (Round float c i) → List ℕ
  readings [] = []
  readings (r ∷ rs) = r.now ∷ readings rs

  loop-PersistsSleeps :
      (start : ℤ) (s : WatchState) (rs : List (Round float c i)) (now : Option ℕ)
      (last : Option WatchState)
      → PersistsSleeps now last (readings rs) (watch_loop float c i start s rs).0
  unfolding watch_loop watch_round
  loop-PersistsSleeps start s [] now last = tt
  loop-PersistsSleeps start s (r ∷ rs) now last =
      elim (WatchStep-cases (watch_round float c i start s r).1) [
        | inl (t, go) ↦
            rw (go, watch_loop)
              (PersistsSleeps-append r.now none (readings rs)
                (round_body float c i start s r r.ctx_error).0 (watch_loop float c i start t rs).0
                (round_body-Persists start s r r.ctx_error) (loop-PersistsSleeps start t rs))
        | inr (y, done) ↦
            rw (done, watch_loop)
              (Persists-PersistsSleeps r.now none (readings rs)
                (round_body float c i start s r r.ctx_error).0
                (round_body-Persists start s r r.ctx_error))
      ]

  -- Inside the loop every sleep of the watcher comes right after the save, in the same round, of a state
  -- whose next attempt is that round's reading of the clock plus the duration of the sleep, so that a
  -- restart knows of the delay.
  pub watch_loop-PersistsSleeps :
      (start : ℤ) (s : WatchState) (rs : List (Round float c i))
      → PersistsSleeps none none (readings rs) (watch_loop float c i start s rs).0
  watch_loop-PersistsSleeps start s rs = loop-PersistsSleeps start s rs none none
