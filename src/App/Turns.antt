-- ===== src/App/Turns.antt =====
-- internal/app/app.go: what one turn of the loop of `Run` comes to.
use mathlib.Core.List.{append-nil}
use ocihood.Base.{
  String, Bool, true, false, ◌&&◌, ◌||◌, ◌≡◌, ◌⊎◌, refl, ap, ◌∙◌, Option, none, some, List, [], ◌∷◌,
  ◌++◌, arith, if◌then◌else◌, str_eq, not, Bool-cases, if-intro, inl, inr,
}
use ocihood.Errors.{Err, app_error, is, context_canceled, deadline_exceeded}
use ocihood.Errors.Kinds.{unavailable}
use ocihood.Io.{Result, ok, err}
use ocihood.Reconcile.{Attempt, Decision}
use ocihood.State.Disk.{Disk}
use ocihood.Config.{Effective}
use ocihood.Capacity.{CapacityResult}
use ocihood.Launch.{Instance}
use ocihood.Launch.Guarded.{no_instance}
use ocihood.Discovery.{Discovered}
use ocihood.Notification.{degraded, paused, resumed, waiting, capacity_found}
use ocihood.App.Persist.{new_attempt_and_persist, waiting_state}
use ocihood.App.Run.{
  Runner, Round, Going, Ended, watched, launched, Loop, event, ended, notify, act, launches,
  lost_capacity, final_id, complete, renewed, after_launch, launch_step, watch_failed, after_watch,
  turn, is_unavailable, no_capacity,
}
use ocihood.App.Asked.{decisions_of, decisions_of-append, asked, asked-notify}

module _ (sha256 : String → String) (r : Runner) (once : Bool) (e : Effective) (d : Discovered)
    (key : String) where
  pub asked-complete :
      (decision : Decision) (c : CapacityResult) (x : Instance) (g : Going)
      → asked (complete sha256 r once e d key decision c x g) ≡ asked g
  unfolding complete
  asked-complete decision c x g =
      elim (Bool-cases (str_eq (final_id sha256 r once e d key decision x) "")) [
        | inl blank ↦ rw (blank, complete) refl
        | inr named ↦ rw (named, complete) (asked-notify r _ _)
      ]

  -- A turn that ends the run: it asked for no launch, or for one with the decision.
  abbrev pub Stops : List Decision → Decision → Option Ended → Type 0
  Stops before decision o =
      (x : Ended) × (o ≡ some x)
      × ((asked x.going ≡ before) ⊎ (asked x.going ≡ before ++ decision ∷ []))

  -- A turn that leads to the next with a new attempt, stored after a launch that found capacity gone.
  pub record Renews (again : Loop sha256 r once e d key) (round : Round) (before : List Decision)
      (decision : Decision) (o : Option Ended) : Type 0 where
    pub attempt : Attempt
    pub next : Going
    pub old : Disk
    pub continues : o ≡ again false (record decision { attempt = some attempt }) next
    pub stored :
        new_attempt_and_persist sha256 e.state_dir e.account d.target_id round.random round.now old
        ≡ (ok attempt, next.disk)
    pub asks : asked next ≡ before ++ decision ∷ []
    pub is_repeated : once ≡ false
    pub is_launching : launches decision.kind ≡ true
    pub capacity : CapacityResult
    pub at : Disk
    pub lost : lost_capacity (round.launch decision capacity key at).0.1 ≡ true

  abbrev pub Turned :
      (again : Loop sha256 r once e d key)
      → Round
      → List Decision
      → Decision
      → Option Ended
      → Type 0
  Turned again round before decision o =
      Stops before decision o ⊎ Renews again round before decision o

  module _ (again : Loop sha256 r once e d key) (round : Round) (before : List Decision)
      (decision : Decision) where
    renewed-Turned :
        (g : Going) (c : CapacityResult) (at : Disk) (x : Result Attempt × Disk)
        → asked g ≡ before ++ decision ∷ []
        → once ≡ false
        → launches decision.kind ≡ true
        → lost_capacity (round.launch decision c key at).0.1 ≡ true
        → new_attempt_and_persist sha256 e.state_dir e.account d.target_id round.random round.now
            g.disk
          ≡ x
        → Turned again round before decision (renewed sha256 r once e d key again decision g x)
    renewed-Turned g c at (err f, disk) asks repeated launching lost same = inl (_, refl, inr asks)
    renewed-Turned g c at (ok a, disk) asks repeated launching lost same = inr (record {
      attempt = a;
      next = record g { disk = disk };
      old = g.disk;
      continues = refl;
      stored = same;
      asks = asks;
      is_repeated = repeated;
      is_launching = launching;
      capacity = c;
      at = at;
      lost = lost;
    })

    failed_or_done :
        (g : Going) (c : CapacityResult) (x : Instance) (f : Option Err)
        → asked g ≡ before ++ decision ∷ []
        → Turned again round before decision (elim f [
          | none ↦ ended (complete sha256 r once e d key decision c x g) none
          | some f' ↦ ended g (some (app_error "launch" f'))
        ])
    failed_or_done g c x none asks = inl (_, refl, inr (asked-complete decision c x g ∙ asks))
    failed_or_done g c x (some f) asks = inl (_, refl, inr asks)

    after_launch-Turned :
        (g : Going) (c : CapacityResult) (at : Disk) (x : Instance) (f : Option Err)
        → asked g ≡ before ++ decision ∷ []
        → (round.launch decision c key at).0 ≡ (x, f)
        → Turned again round before decision
            (after_launch sha256 r once e d key again round decision c g (x, f))
    unfolding after_launch
    after_launch-Turned g c at x f asks answer =
        let g' =
          notify r (event sha256 r once e d key degraded "capacity changed before launch") g in
        let asks' =
          asked-notify r (event sha256 r once e d key degraded "capacity changed before launch") g
          ∙ asks in
        if-intro (Turned again round before decision) (lost_capacity f && launches decision.kind)
          (λ lost.
            if-intro (Turned again round before decision) once
              (λ just_once. inl (
                _,
                refl,
                inr (
                    asked-complete decision
                      (record { kind = unavailable; availability_domain = "" }) x g'
                    ∙ asks'),
              ))
              (λ more.
                renewed-Turned g' c at _ asks' more (ground arith) (rw answer (ground arith)) refl))
          (λ kept. failed_or_done g c x f asks)

    launch_step-Turned :
        (g : Going) (c : CapacityResult)
        → asked g ≡ before
        → Turned again round before decision
            (launch_step sha256 r once e d key again round decision c g)
    unfolding launch_step decisions_of
    launch_step-Turned g c asks =
        if-intro (Turned again round before decision)
          (not r.has_launch || (not (launches decision.kind) && str_eq decision.instance_id ""))
          (λ skipped. inl (_, refl, inl (asked-complete decision c no_instance g ∙ asks)))
          (λ asking.
            let at = g.disk in
            after_launch-Turned
              (record (act (launched decision c key) g) {
                disk = (round.launch decision c key at).1;
              })
              c at (round.launch decision c key at).0.0 (round.launch decision c key at).0.1
              (decisions_of-append g.effects (launched decision c key ∷ [])
                ∙ ap (λ l. l ++ decision ∷ []) asks)
              refl)

    watch_failed-Turned :
        (g : Going) (f : Err)
        → asked g ≡ before
        → Turned again round before decision (watch_failed sha256 r once e d key f g)
    unfolding watch_failed
    watch_failed-Turned g f asks =
        if-intro (Turned again round before decision)
          ((is context_canceled f || is deadline_exceeded f)
            && waiting_state sha256 e.state_dir e.account d.target_id g.disk)
          (λ pausing. inl (
            _,
            refl,
            inl (
                asked-notify r (event sha256 r once e d key paused "capacity watch paused") g
                ∙ asks),
          ))
          (λ failing. inl (_, refl, inl asks))

    after_watch-Turned :
        (g : Going) (c : Result CapacityResult)
        → asked g ≡ before
        → Turned again round before decision
            (after_watch sha256 r once e d key again round decision g c)
    unfolding after_watch
    after_watch-Turned g (err f) asks = watch_failed-Turned g f asks
    after_watch-Turned g (ok c) asks =
        if-intro (Turned again round before decision) (once && is_unavailable c.kind)
          (λ over. inl (_, refl, inl (asked-complete decision c no_instance g ∙ asks)))
          (λ found.
            launch_step-Turned
              (notify r (event sha256 r once e d key capacity_found c.availability_domain) g) c
              (asked-notify r (event sha256 r once e d key capacity_found c.availability_domain) g
                ∙ asks))

    asked-resumed :
        (is_resumed : Bool) (g : Going)
        → asked (
            if is_resumed
            then notify r (event sha256 r once e d key resumed "capacity watch resumed") g
            else g)
          ≡ asked g
    asked-resumed true g =
        asked-notify r (event sha256 r once e d key resumed "capacity watch resumed") g
    asked-resumed false g = refl

  -- Each turn of the loop ends the run or leads to the next turn.
  pub turn-Turned :
      (again : Loop sha256 r once e d key) (round : Round) (is_resumed : Bool) (decision : Decision)
      (g : Going)
      → Turned again round
          (asked g)
          decision
          (turn sha256 r once e d key again round is_resumed decision g)
  unfolding turn decisions_of
  turn-Turned again round is_resumed decision g =
      if-intro (Turned again round (asked g) decision) (r.has_watch && launches decision.kind)
        (λ watching.
          let g1 =
            if is_resumed
            then notify r (event sha256 r once e d key resumed "capacity watch resumed") g
            else g in
          let g2 = notify r (event sha256 r once e d key waiting "capacity check started") g1 in
          let g3 = act watched g2 in
          after_watch-Turned again round (asked g) decision
            (record g3 { disk = (round.watch g3.disk).1 }) (round.watch g3.disk).0
            (decisions_of-append g2.effects (watched ∷ [])
              ∙ append-nil (decisions_of g2.effects)
              ∙ asked-notify r (event sha256 r once e d key waiting "capacity check started") g1
              ∙ asked-resumed again round (asked g) decision is_resumed g))
        (λ direct. launch_step-Turned again round (asked g) decision g no_capacity refl)
