-- ===== src/Launch/Finish.antt =====
-- internal/launch/launch.go: how `Run` ends when it returns an instance.
use mathlib.Core.List.{append_assoc}
use ocihood.Base.{
  ◌≡◌, ◌≢◌, refl, sym, ap, ◌∙◌, arith, String, Bool, true, false, ◌||◌, ◌&&◌, Option, none, some,
  List, [], ◌∷◌, ◌++◌, str_eq, any, Bool-cases, inl, inr, ◌⊎◌,
}
use ocihood.Errors.{Err, as_launch}
use ocihood.Errors.Kinds.{LaunchKind}
use ocihood.Io.{Result, ok, err}
use ocihood.Launch.{Instance, Input, Effect, got, stored_finished, LaunchRound, PollRound}
use ocihood.Launch.Run.{launch_loop, lookup_loop}
use ocihood.Launch.Poll.{
  PollStep, again, waiting, stop, poll_round, poll_loop, then_poll, run, is_ready, finish,
  finish_after, on_running, on_state, poll_answer, get_failed,
}

-- The last that is done is to tell the store of the instance.
abbrev pub EndsFinished : List Effect → Instance → Type 0
EndsFinished es x = (earlier : List Effect) × (es ≡ earlier ++ stored_finished x ∷ [])

EndsFinished-append :
    {x : Instance} (fs : List Effect) {es : List Effect}
    → EndsFinished es x
    → EndsFinished (fs ++ es) x
EndsFinished-append {x} fs (earlier, e) =
    (fs ++ earlier, ap (λ t. fs ++ t) e ∙ sym (append_assoc fs earlier (stored_finished x ∷ [])))

abbrev pub saw_running : PollRound → Bool
saw_running r = str_eq r.instance.state "RUNNING"

or-true : (a : Bool) {b : Bool} → b ≡ true → (a || b) ≡ true
or-true true h = refl
or-true false h = h

PollStep-cases :
    (s : PollStep) → (s ≡ again) ⊎ (s ≡ waiting) ⊎ ((y : Result Instance) × (s ≡ stop y))
PollStep-cases again = inl refl
PollStep-cases waiting = inr (inl refl)
PollStep-cases (stop y) = inr (inr (y, refl))

finish-stop :
    (y x : Instance) (f : Option Err)
    → (finish y f).1 ≡ stop (ok x)
    → (finish y f).0 ≡ stored_finished x ∷ []
finish-stop y x none h = ground arith
finish-stop y x (some e) h = absurd (ground arith)

finish_after-stop :
    (r : PollRound) (es : List Effect) (o : Option (Result Instance)) (x : Instance)
    → (finish_after r (es, o)).1 ≡ stop (ok x)
    → EndsFinished (finish_after r (es, o)).0 x
unfolding finish_after
finish_after-stop r es none x h = absurd (cc)
finish_after-stop r es (some (err e)) x h = absurd (ground arith)
finish_after-stop r es (some (ok y)) x h =
    (es, ap (λ fs. es ++ fs) (finish-stop y x r.finished_error h))

module _ (i : Input) where
  on_running-stop :
      (id : String) (r : PollRound) (x : Instance)
      → (on_running i id r).1 ≡ stop (ok x)
      → EndsFinished (on_running i id r).0 x
  unfolding on_running
  on_running-stop id r x h =
      elim (Bool-cases (i.request.public_ip && str_eq r.instance.public_ip "")) [
        | inl wants ↦ rw wants (
            finish_after-stop r (lookup_loop i id 0 r.instance r.lookups).0
              (lookup_loop i id 0 r.instance r.lookups).1 x (rw wants at h))
        | inr has ↦ rw has ([], finish-stop r.instance x r.finished_error (rw has at h))
      ]

  on_state-stop :
      (id : String) (r : PollRound) (x : Instance)
      → (on_state i id r).1 ≡ stop (ok x)
      → (str_eq r.instance.state "RUNNING" ≡ true) × EndsFinished (on_state i id r).0 x
  unfolding on_state
  on_state-stop id r x h = elim (Bool-cases (str_eq r.instance.state "RUNNING")) [
    | inl runs ↦ rw runs (refl, on_running-stop id r x (rw runs at h))
    | inr other ↦ absurd (ground arith)
  ]

  get_failed-no_stop :
      (r : PollRound) (e : Err) (k : Option (LaunchKind × Err)) (x : Instance)
      → (get_failed i r e k).1 ≢ stop (ok x)
  unfolding get_failed
  get_failed-no_stop r e k x h = ground arith

  poll_answer-stop :
      (id : String) (r : PollRound) (c e : Option Err) (x : Instance)
      → (poll_answer i id r c e).1 ≡ stop (ok x)
      → (str_eq r.instance.state "RUNNING" ≡ true) × EndsFinished (poll_answer i id r c e).0 x
  unfolding poll_answer
  poll_answer-stop id r (some _) e x h = absurd (ground arith)
  poll_answer-stop id r none (some e) x h = absurd (get_failed-no_stop r e (as_launch e) x h)
  poll_answer-stop id r none none x h = on_state-stop id r x h

  poll_round-stop :
      (id : String) (r : PollRound) (x : Instance)
      → (poll_round i id r).1 ≡ stop (ok x)
      → (str_eq r.instance.state "RUNNING" ≡ true) × EndsFinished (poll_round i id r).0 x
  unfolding poll_round
  poll_round-stop id r x h =
      let (runs, ends) = poll_answer-stop id r r.ctx_error r.error x h in
      (runs, EndsFinished-append (got id ∷ []) ends)

  poll_loop-ok :
      (id : String) (rs : List PollRound) (x : Instance)
      → (poll_loop i id rs).1 ≡ some (ok x)
      → (any saw_running rs ≡ true) × EndsFinished (poll_loop i id rs).0 x
  unfolding poll_loop
  poll_loop-ok id [] x h = absurd (cc)
  poll_loop-ok id (r ∷ rs) x h = elim (PollStep-cases (poll_round i id r).1) [
    | inl e ↦
        let (saw, ends) = poll_loop-ok id rs x (rw (e, poll_loop) at h) in
        rw (e, poll_loop)
          (or-true (saw_running r) saw, EndsFinished-append (poll_round i id r).0 ends)
    | inr (inl e) ↦ absurd (cc (rw (e, poll_loop) at h))
    | inr (inr (y, e)) ↦
        let same : y ≡ ok x = ground (arith, rw (e, poll_loop) at h) in
        let (runs, ends) = poll_round-stop id r x (e ∙ ap stop same) in
        rw (e, poll_loop) (rw runs refl, ends)
  ]

then_poll-ok :
    (i : Input) (ps : List PollRound) (es : List Effect) (o : Option (Result String)) (x : Instance)
    → (then_poll i ps (es, o)).1 ≡ some (ok x)
    → (any saw_running ps ≡ true) × EndsFinished (then_poll i ps (es, o)).0 x
unfolding then_poll
then_poll-ok i ps es none x h = absurd (cc)
then_poll-ok i ps es (some (err e)) x h = absurd (ground arith)
then_poll-ok i ps es (some (ok id)) x h =
    let (saw, ends) = poll_loop-ok i id ps x h in (saw, EndsFinished-append es ends)

-- A run returns an instance only after a round of the lifecycle loop saw `RUNNING`, and its last act
-- is then to tell the store that this very instance is running.
pub run_ok :
    (complete : Bool) (i : Input) (rs : List LaunchRound) (ps : List PollRound) (x : Instance)
    → (run complete i rs ps).1 ≡ some (ok x)
    → (any saw_running ps ≡ true) × EndsFinished (run complete i rs ps).0 x
unfolding run
run_ok complete i rs ps x h = elim (Bool-cases (is_ready complete i)) [
  | inl ready ↦ elim (Bool-cases (str_eq i.existing_instance_id "")) [
    | inl fresh ↦
        rw (ready, fresh)
          (then_poll-ok i ps (launch_loop i 0 rs).0 (launch_loop i 0 rs).1 x
            (rw (ready, fresh) at h))
    | inr known ↦
        rw (ready, known) (poll_loop-ok i i.existing_instance_id ps x (rw (ready, known) at h))
  ]
  | inr no_start ↦ absurd (cc (rw no_start at h))
]
