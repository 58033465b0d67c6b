-- ===== src/App/Announced.antt =====
-- internal/app/app.go: how a run that fails is announced.
use mathlib.Core.Path.{subst}
use ocihood.Base.{
  some_inj, String, Bool, true, false, ◌≡◌, ◌≢◌, refl, sym, ap, ◌∙◌, Option, none, some, List,
  str_eq, str_eq-false, inl, inr, if-intro, Option-cases,
}
use ocihood.Errors.{Err, wrapped, as_app}
use ocihood.Io.{Result, ok, err}
use ocihood.State.Disk.{FilePath, Disk}
use ocihood.Config.{Effective}
use ocihood.Config.Evaluate.{evaluate_policy}
use ocihood.Reconcile.{Decision}
use ocihood.Discovery.{Discovered}
use ocihood.Notification.{Event, run_started}
use ocihood.App.Prepare.{Injected, Request, Prepared, prepare}
use ocihood.App.Run.{Round, Runner, Going, Ended, notify}
use ocihood.App.Runner.{
  with_key, key_for, after_reconcile, reconciled, unlocking, after_lock, guarded, checked, event_of,
  start, prepared_run, announced, closing, run, account_of,
}
use ocihood.App.Phases.{HasPhases, prepare-HasPhases}
use ocihood.App.Standing.{IsAnnounced, Standing, Stands, failed-Stands, loop-Stands}

module _ (sha256 : String → String) (r : Runner) (send : Event → Option Err)
    (heard : r.notifier ≡ some send) where
  module _ (request : Request) (p : Prepared) (rounds : List Round) where
    module _ (e : Effective) (d : Discovered) where
      with_key-Stands :
          (b : Bool) (decision : Decision) (g : Going) (key : Result String)
          → Stands (some e) (some d) (with_key sha256 r request p rounds e d b decision g key)
      unfolding with_key
      with_key-Stands b decision g (err f) =
          failed-Stands (some e) (some d) g "launch" (wrapped "read SSH public key" f) refl
      with_key-Stands b decision g (ok key) =
          loop-Stands sha256 r send heard request.once e d key rounds b decision g

      after_reconcile-Stands :
          (g : Going) (x : Result (Decision × Bool) × Disk)
          → Stands (some e) (some d) (after_reconcile sha256 r request p rounds e d g x)
      after_reconcile-Stands g (err f, disk) = failed-Stands (some e) (some d) _ "state" f refl
      after_reconcile-Stands g (ok (decision, b), disk) =
          with_key-Stands b decision (record g { disk = disk })
            (key_for sha256 r request p rounds e d decision)

      reconciled-Stands :
          (g : Going) → Stands (some e) (some d) (reconciled sha256 r request p rounds e d g)
      unfolding reconciled
      reconciled-Stands g = after_reconcile-Stands g _

      unlocking-Stands :
          (lock : FilePath) (x : Option Ended)
          → Stands (some e) (some d) x
          → Stands (some e) (some d) (unlocking sha256 r request p rounds e d lock x)
      unfolding Stands
      unlocking-Stands lock none h = h
      unlocking-Stands lock (some x) h = h

      after_lock-Stands :
          (g : Going) (x : Result FilePath × Disk)
          → Stands (some e) (some d) (after_lock sha256 r request p rounds e d g x)
      after_lock-Stands g (err f, disk) = failed-Stands (some e) (some d) _ "state" f refl
      after_lock-Stands g (ok lock, disk) =
          unlocking-Stands lock _ (reconciled-Stands (record g { disk = disk }))

      guarded-Stands :
          (g : Going) → Stands (some e) (some d) (guarded sha256 r request p rounds e d g)
      unfolding guarded
      guarded-Stands g =
          if-intro (Stands (some e) (some d)) r.has_launch (λ _. after_lock-Stands g _)
            (λ _. reconciled-Stands g)

      checked-Stands :
          (g : Going) → Stands (some e) (some d) (checked sha256 r request p rounds e d g)
      unfolding checked
      checked-Stands g =
          if-intro (Stands (some e) (some d)) (evaluate_policy e).allowed (λ _. guarded-Stands _)
            (λ _. failed-Stands (some e) (some d) _ "policy" _ refl)

    prepared_run-Stands :
        (e : Option Effective) (d : Option Discovered) (f : Option Err) (g : Going)
        → HasPhases f
        → Stands e d (prepared_run sha256 r request p rounds e d f g)
    unfolding Stands
    prepared_run-Stands (some e) (some d) none g h = checked-Stands e d g
    prepared_run-Stands e d (some f) g h = h
    prepared_run-Stands none d none g h = tt
    prepared_run-Stands (some e) none none g h = tt

    announced-IsAnnounced :
        (y : Ended) (f : Err) (b : Bool)
        → y.error ≡ some f
        → Standing p.effective p.discovered y.going.effects (some f) b
        → IsAnnounced p.effective p.discovered (announced sha256 r request p y (some f) b)
    unfolding announced notify as_app
    announced-IsAnnounced y f true failed (phase, cause, (same, known), pause) =
        (phase, cause, failed ∙ ap some same, known, inr pause)
    announced-IsAnnounced y f false failed (phase, cause, (same, known)) =
        (phase, cause, failed ∙ ap some same, known, inl (rw (heard, same) (y.going.effects, refl)))

    announced_error :
        (y : Ended) (o : Option Err) (b : Bool)
        → (announced sha256 r request p y o b).error ≡ y.error
    unfolding announced
    announced_error y none b = refl
    announced_error y (some f) true = refl
    announced_error y (some f) false = refl

    closing-IsAnnounced :
        (o : Option Ended) (x : Ended)
        → Stands p.effective p.discovered o
        → closing sha256 r request p o ≡ some x
        → x.error ≢ none
        → IsAnnounced p.effective p.discovered x
    unfolding closing Stands
    closing-IsAnnounced none x stands h failed = absurd (cc)
    closing-IsAnnounced (some y) x stands h failed =
        let same : announced sha256 r request p y y.error y.is_paused ≡ x = some_inj h in
        let kept = announced_error y y.error y.is_paused in
        elim (Option-cases y.error) [
          | inl fine ↦ absurd (failed (sym (ap (λ z. z.error) same) ∙ kept ∙ fine))
          | inr (f, e) ↦
              let standing : Standing p.effective p.discovered y.going.effects (some f)
                  y.is_paused =
                subst (λ o. Standing p.effective p.discovered y.going.effects o y.is_paused) e
                  stands in
              subst (IsAnnounced p.effective p.discovered)
                (ap (λ o. announced sha256 r request p y o y.is_paused) (sym e) ∙ same)
                (announced-IsAnnounced y f y.is_paused e standing)
        ]

  -- A run that ends with an error of any of its phases, preparation included, ends with an error that
  -- names the phase, and its last effect is the notification: either that this phase failed, or, where
  -- a wait for capacity was canceled or ran out of time, that the run is paused. The account is known,
  -- there is a notifier, and the context was not yet canceled at the start.
  pub run-IsAnnounced :
      (env : Injected) (request : Request) (rounds : List Round) (disk : Disk) (x : Ended)
      → account_of (prepare env request).effective ≢ ""
      → run sha256 r request (prepare env request) none rounds disk ≡ some x
      → x.error ≢ none
      → IsAnnounced (prepare env request).effective (prepare env request).discovered x
  unfolding run
  run-IsAnnounced env request rounds disk x known h failed =
      let p = prepare env request in
      let told =
        notify r (event_of sha256 r request p run_started "") (start sha256 r request p disk) in
      let other : str_eq (account_of p.effective) "" ≡ false =
        str_eq-false (account_of p.effective) "" known in
      closing-IsAnnounced request p rounds _ x
        (prepared_run-Stands request p rounds p.effective p.discovered p.error told
          (prepare-HasPhases env request))
        (rw (other, run) at h) failed
