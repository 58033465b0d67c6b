-- ===== src/App/Standing.antt =====
-- internal/app/app.go: how a run stands before the deferred announcement of its failure.
use ocihood.Base.{
  String, Bool, true, false, ◌≡◌, refl, Option, none, some, List, [], ◌∷◌, ◌++◌, ◌^^◌, str_eq, ◌⊎◌,
  inl, inr, if-intro, any, not, Bool-cases, Option-cases, ◌||◌, ◌&&◌,
}
use ocihood.Errors.{Err, app_error, is, context_canceled, deadline_exceeded}
use ocihood.Io.{Result, ok, err}
use ocihood.State.Disk.{Disk}
use ocihood.Config.{Effective}
use ocihood.Reconcile.{Attempt, Decision}
use ocihood.Capacity.{CapacityResult}
use ocihood.Launch.{Instance}
use ocihood.Discovery.{Discovered}
use ocihood.Notification.{Event, EventKind, terminal_failure, paused, degraded, capacity_found}
use ocihood.App.Persist.{waiting_state}
use ocihood.App.Prepare.{phase}
use ocihood.App.Run.{
  Round, Runner, Going, Effect, notified, Ended, notify, event, renewed, after_launch, launch_step,
  watch_failed, after_watch, turn, loop, Loop, ended, lost_capacity, launches, is_unavailable, act,
  launched,
}
use ocihood.App.Runner.{account_of, region_of, target_of}
use ocihood.App.Phases.{phases, IsPhased, HasPhase}

-- What a run says when it pauses, and when it fails in a phase.
module _ (e : Option Effective) (d : Option Discovered) where
  abbrev pub said : EventKind → String → Event
  said kind detail = record {
    kind = kind;
    account = account_of e;
    region = region_of e;
    target_id = target_of d;
    instance_id = "";
    public_ip = "";
    detail = detail;
  }

  -- A canceled wait for capacity, or one whose time is up, that was announced as a pause.
  abbrev pub IsPause : List Effect → String → Err → Type 0
  IsPause es phase cause =
      (phase ≡ "capacity")
      × ((is context_canceled cause || is deadline_exceeded cause) ≡ true)
      × ((before : List Effect) × (es
            ≡ before ++ notified (said paused "capacity watch paused") ∷ []))

  -- The run ended with an error that names its phase, and its last effect is the notification of it:
  -- that this phase failed, or that a wait for capacity which was canceled is paused.
  abbrev pub IsAnnounced : Ended → Type 0
  IsAnnounced x =
      (phase : String) × (cause : Err) × (x.error ≡ some (app_error phase cause))
      × (any (str_eq phase) phases ≡ true)
      × (((before : List Effect) × (x.going.effects
              ≡ before ++ notified (said terminal_failure (phase ^^ " failed")) ∷ []))
          ⊎ IsPause x.going.effects phase cause)

  -- How a run stands before the announcement of its failure.
  abbrev pub Standing : List Effect → Option Err → Bool → Type 0
  Standing es none b = Unit
  Standing es (some f) false = HasPhase f
  Standing es (some f) true =
      (phase : String) × (cause : Err) × IsPhased phase cause f × IsPause es phase cause

  unfoldable pub Stands : Option Ended → Type 0
  Stands none = Unit
  Stands (some x) = Standing x.going.effects x.error x.is_paused

  pub going-Stands : Stands none
  unfolding Stands
  going-Stands = tt

  pub ended-Stands : (g : Going) → Stands (ended g none)
  unfolding Stands
  ended-Stands g = tt

  pub failed-Stands :
      (g : Going) (phase : String) (cause : Err)
      → any (str_eq phase) phases ≡ true
      → Stands (ended g (some (app_error phase cause)))
  unfolding Stands
  failed-Stands g phase cause h = (phase, cause, (refl, h))

and_left : (a b : Bool) → (a && b) ≡ true → a ≡ true
and_left true b h = refl
and_left false b h = h

module _ (sha256 : String → String) (r : Runner) (send : Event → Option Err)
    (heard : r.notifier ≡ some send) where
  module _ (once : Bool) (e : Effective) (d : Discovered) (key : String) where
    abbrev Ok : Option Ended → Type 0
    Ok = Stands (some e) (some d)

    abbrev Keeps : Loop sha256 r once e d key → Type 0
    Keeps again = (b : Bool) (decision : Decision) (g : Going) → Ok (again b decision g)

    renewed-Stands :
        (again : Loop sha256 r once e d key)
        → Keeps again
        → (decision : Decision) (g : Going) (x : Result Attempt × Disk)
        → Ok (renewed sha256 r once e d key again decision g x)
    renewed-Stands again keeps decision g (err f, disk) =
        failed-Stands (some e) (some d) _ "state" f refl
    renewed-Stands again keeps decision g (ok a, disk) =
        keeps false (record decision { attempt = some a }) (record g { disk = disk })

    after_launch-Stands :
        (again : Loop sha256 r once e d key)
        → Keeps again
        → (round : Round) (decision : Decision) (c : CapacityResult) (g : Going)
          (x : Instance × Option Err)
        → Ok (after_launch sha256 r once e d key again round decision c g x)
    unfolding after_launch
    after_launch-Stands again keeps round decision c g (x, f) =
        elim (Bool-cases (lost_capacity f && launches decision.kind)) [
          | inl lost ↦ elim (Bool-cases once) [
            | inl last ↦ rw (lost, last) (ended-Stands (some e) (some d) _)
            | inr more ↦
                rw (lost, more)
                  (renewed-Stands again keeps decision
                    (notify r
                      (event sha256 r once e d key degraded "capacity changed before launch") g)
                    _)
          ]
          | inr kept ↦ elim (Option-cases f) [
            | inl fine ↦ rw (kept, fine) (ended-Stands (some e) (some d) _)
            | inr (f', failed) ↦
                rw (kept, failed) (failed-Stands (some e) (some d) g "launch" f' refl)
          ]
        ]

    launch_step-Stands :
        (again : Loop sha256 r once e d key)
        → Keeps again
        → (round : Round) (decision : Decision) (c : CapacityResult) (g : Going)
        → Ok (launch_step sha256 r once e d key again round decision c g)
    unfolding launch_step
    launch_step-Stands again keeps round decision c g =
        if-intro Ok
          (not r.has_launch || (not (launches decision.kind) && str_eq decision.instance_id ""))
          (λ _. ended-Stands (some e) (some d) _)
          (λ _.
            let answer = round.launch decision c key g.disk in
            after_launch-Stands again keeps round decision c
              (record (act (launched decision c key) g) { disk = answer.1 }) answer.0)

    paused-Stands :
        (f : Err) (g : Going)
        → (is context_canceled f || is deadline_exceeded f) ≡ true
        → Ok (
            some (record {
              going = notify r (said (some e) (some d) paused "capacity watch paused") g;
              error = some (app_error "capacity" f);
              is_paused = true;
            }))
    unfolding notify Stands
    paused-Stands f g h =
        rw (heard, notify) ("capacity", f, (refl, refl), (refl, h, (g.effects, refl)))

    watch_failed-Stands : (f : Err) (g : Going) → Ok (watch_failed sha256 r once e d key f g)
    unfolding watch_failed
    watch_failed-Stands f g =
        let over = is context_canceled f || is deadline_exceeded f in
        if-intro Ok (over && waiting_state sha256 e.state_dir e.account d.target_id g.disk)
          (λ h. paused-Stands f g (and_left over _ h))
          (λ _. failed-Stands (some e) (some d) g "capacity" f refl)

    after_watch-Stands :
        (again : Loop sha256 r once e d key)
        → Keeps again
        → (round : Round) (decision : Decision) (g : Going) (c : Result CapacityResult)
        → Ok (after_watch sha256 r once e d key again round decision g c)
    unfolding after_watch
    after_watch-Stands again keeps round decision g (err f) = watch_failed-Stands f g
    after_watch-Stands again keeps round decision g (ok c) =
        if-intro Ok (once && is_unavailable c.kind) (λ _. ended-Stands (some e) (some d) _)
          (λ _.
            launch_step-Stands again keeps round decision c
              (notify r (event sha256 r once e d key capacity_found c.availability_domain) g))

    turn-Stands :
        (again : Loop sha256 r once e d key)
        → Keeps again
        → (round : Round) → Keeps (turn sha256 r once e d key again round)
    unfolding turn
    turn-Stands again keeps round b decision g =
        if-intro Ok (r.has_watch && launches decision.kind)
          (λ _. after_watch-Stands again keeps round decision _ _)
          (λ _. launch_step-Stands again keeps round decision _ g)

    pub loop-Stands : (rounds : List Round) → Keeps (loop sha256 r once e d key rounds)
    unfolding loop
    loop-Stands [] b decision g = going-Stands (some e) (some d)
    loop-Stands (round ∷ rounds) b decision g =
        turn-Stands (loop sha256 r once e d key rounds) (loop-Stands rounds) round b decision g
