-- ===== src/App/Granted.antt =====
-- internal/app/app.go: what `Run` requires before it asks for a launch.
use mathlib.Core.Path.{subst}
use ocihood.Base.{
  ℕ, String, Bool, true, false, ◌≡◌, ◌⊎◌, refl, sym, ap, ◌∙◌, Option, none, some, List, [], ◌++◌,
  take, inl, inr, if-intro, Option-cases, str_eq,
}
use ocihood.Errors.{Err}
use ocihood.Io.{Result, ok, err}
use ocihood.Reconcile.{Decision}
use ocihood.State.Disk.{FilePath, Disk}
use ocihood.State.Store.{try_run_lock}
use ocihood.Config.{Effective}
use ocihood.Config.Evaluate.{evaluate_policy}
use ocihood.Discovery.{Discovered}
use ocihood.Notification.{run_started}
use ocihood.App.Persist.{reconcile_and_persist}
use ocihood.App.Prepare.{Request, Prepared}
use ocihood.App.Run.{Round, Runner, Going, Ended, notify, loop}
use ocihood.App.Asked.{disk-notify, decisions_of, asked, asked-notify}
use ocihood.App.Rounds.{attempts, loop-attempts}
use ocihood.App.Runner.{
  with_key, key_for, after_reconcile, reconciled, unlocking, after_lock, guarded, checked,
  prepared_run, announced, closing, event_of, start, run, account_of,
}

module _ (sha256 : String → String) (r : Runner) (request : Request) (p : Prepared)
    (rounds : List Round) (store : Disk) where
  -- The store that is reconciled is the one that the run found; where the run launches, its lock has
  -- been taken on it.
  abbrev pub IsLocked : Effective → Discovered → Disk → Type 0
  IsLocked e d before =
      ((r.has_launch ≡ false) × (before ≡ store))
      ⊎ ((lock : FilePath) × (try_run_lock sha256 e.state_dir e.account d.target_id store
            ≡ (ok lock, before)))

  -- The launches of a run that was allowed to launch: those of the abstract run that starts with the
  -- decision that was reconciled and stored.
  pub record Granted (launches : List Decision) : Type 0 where
    pub effective : Effective
    pub discovered : Discovered
    pub is_prepared :
        (p.error ≡ none) × (p.effective ≡ some effective) × (p.discovered ≡ some discovered)
    pub is_allowed : (evaluate_policy effective).allowed ≡ true
    pub before : Disk
    pub is_locked : IsLocked effective discovered before
    pub after : Disk
    pub decision : Decision
    pub is_resumed : Bool
    pub reconciled :
        reconcile_and_persist sha256 effective.state_dir effective.account discovered.target_id
          discovered.instances r.random r.now before
        ≡ (ok (decision, is_resumed), after)
    pub count : ℕ
    pub are_first : launches ≡ take count (attempts decision rounds)

  abbrev pub MayLaunch : Option Ended → Type 0
  MayLaunch none = Unit
  MayLaunch (some x) = (asked x.going ≡ []) ⊎ Granted (asked x.going)

  module _ (e : Effective) (d : Discovered)
      (is_prepared : (p.error ≡ none) × (p.effective ≡ some e) × (p.discovered ≡ some d))
      (is_allowed : (evaluate_policy e).allowed ≡ true) where
    with_key-MayLaunch :
        (decision : Decision) (is_resumed : Bool) (before after : Disk) (g : Going)
        (key : Result String)
        → reconcile_and_persist sha256 e.state_dir e.account d.target_id d.instances r.random r.now
            before
          ≡ (ok (decision, is_resumed), after)
        → IsLocked e d before
        → asked g ≡ []
        → MayLaunch (with_key sha256 r request p rounds e d is_resumed decision g key)
    unfolding with_key
    with_key-MayLaunch decision is_resumed before after g (err f) h locked quiet = inl quiet
    with_key-MayLaunch decision is_resumed before after g (ok key) h locked quiet =
        elim (Option-cases (loop sha256 r request.once e d key rounds is_resumed decision g)) [
          | inl going ↦ rw going tt
          | inr (x, ends) ↦
              let (n, few, first) =
                loop-attempts sha256 r request.once e d key rounds is_resumed decision g x ends in
              rw ends (
                inr (record {
                  effective = e;
                  discovered = d;
                  is_prepared = is_prepared;
                  is_allowed = is_allowed;
                  before = before;
                  is_locked = locked;
                  after = after;
                  decision = decision;
                  is_resumed = is_resumed;
                  reconciled = h;
                  count = n;
                  are_first = first ∙ ap (λ l. l ++ take n (attempts decision rounds)) quiet;
                }))
        ]

    after_reconcile-MayLaunch :
        (g : Going) (before : Disk) (x : Result (Decision × Bool) × Disk)
        → reconcile_and_persist sha256 e.state_dir e.account d.target_id d.instances r.random r.now
            before
          ≡ x
        → IsLocked e d before
        → asked g ≡ []
        → MayLaunch (after_reconcile sha256 r request p rounds e d g x)
    after_reconcile-MayLaunch g before (err f, disk) h locked quiet = inl quiet
    after_reconcile-MayLaunch g before (ok (decision, is_resumed), disk) h locked quiet =
        with_key-MayLaunch decision is_resumed before disk (record g { disk = disk })
          (key_for sha256 r request p rounds e d decision) h locked quiet

    reconciled-MayLaunch :
        (g : Going)
        → IsLocked e d g.disk
        → asked g ≡ []
        → MayLaunch (reconciled sha256 r request p rounds e d g)
    unfolding reconciled
    reconciled-MayLaunch g locked quiet = after_reconcile-MayLaunch g g.disk _ refl locked quiet

    unlocking-MayLaunch :
        (lock : FilePath) (x : Option Ended)
        → MayLaunch x
        → MayLaunch (unlocking sha256 r request p rounds e d lock x)
    unlocking-MayLaunch lock none h = tt
    unlocking-MayLaunch lock (some x) h = h

    after_lock-MayLaunch :
        (g : Going) (x : Result FilePath × Disk)
        → try_run_lock sha256 e.state_dir e.account d.target_id store ≡ x
        → asked g ≡ []
        → MayLaunch (after_lock sha256 r request p rounds e d g x)
    after_lock-MayLaunch g (err f, disk) h quiet = inl quiet
    after_lock-MayLaunch g (ok lock, disk) h quiet =
        unlocking-MayLaunch lock _
          (reconciled-MayLaunch (record g { disk = disk }) (inr (lock, h)) quiet)

    guarded-MayLaunch :
        (g : Going)
        → g.disk ≡ store
        → asked g ≡ []
        → MayLaunch (guarded sha256 r request p rounds e d g)
    unfolding guarded
    guarded-MayLaunch g same quiet =
        if-intro MayLaunch r.has_launch
          (λ launching.
            after_lock-MayLaunch g (try_run_lock sha256 e.state_dir e.account d.target_id g.disk)
              (ap (try_run_lock sha256 e.state_dir e.account d.target_id) (sym same)) quiet)
          (λ watching. reconciled-MayLaunch g (inl (watching, same)) quiet)

  checked-MayLaunch :
      (e : Effective) (d : Discovered) (g : Going)
      → (p.error ≡ none) × (p.effective ≡ some e) × (p.discovered ≡ some d)
      → g.disk ≡ store
      → asked g ≡ []
      → MayLaunch (checked sha256 r request p rounds e d g)
  unfolding checked
  checked-MayLaunch e d g is_prepared same quiet =
      if-intro MayLaunch (evaluate_policy e).allowed
        (λ allowed.
          guarded-MayLaunch e d is_prepared allowed
            (record g { result = record g.result { policy = evaluate_policy e } }) same quiet)
        (λ _. inl quiet)

  prepared_run-MayLaunch :
      (e : Option Effective) (d : Option Discovered) (f : Option Err) (g : Going)
      → p.effective ≡ e
      → p.discovered ≡ d
      → p.error ≡ f
      → g.disk ≡ store
      → asked g ≡ []
      → MayLaunch (prepared_run sha256 r request p rounds e d f g)
  prepared_run-MayLaunch (some e) (some d) none g pe pd pf same quiet =
      checked-MayLaunch e d g (pf, pe, pd) same quiet
  prepared_run-MayLaunch e d (some f) g pe pd pf same quiet = inl quiet
  prepared_run-MayLaunch none d none g pe pd pf same quiet = inl quiet
  prepared_run-MayLaunch (some e) none none g pe pd pf same quiet = inl quiet

  asked-announced :
      (x : Ended) (f : Option Err) (is_paused : Bool)
      → asked (announced sha256 r request p x f is_paused).going ≡ asked x.going
  unfolding announced
  asked-announced x none is_paused = refl
  asked-announced x (some f) true = refl
  asked-announced x (some f) false = asked-notify r _ x.going

  closing-MayLaunch : (x : Option Ended) → MayLaunch x → MayLaunch (closing sha256 r request p x)
  unfolding closing
  closing-MayLaunch none h = tt
  closing-MayLaunch (some x) h =
      subst (λ l. (l ≡ []) ⊎ Granted l) (sym (asked-announced x x.error x.is_paused)) h

  run-MayLaunch : (at_start : Option Err) → MayLaunch (run sha256 r request p at_start rounds store)
  unfolding run decisions_of
  run-MayLaunch (some f) = inl refl
  run-MayLaunch none =
      let first = start sha256 r request p store in
      let event = event_of sha256 r request p run_started "" in
      if-intro MayLaunch (str_eq (account_of p.effective) "")
        (λ _.
          prepared_run-MayLaunch p.effective p.discovered p.error first refl refl refl refl refl)
        (λ _.
          closing-MayLaunch
            (prepared_run sha256 r request p rounds p.effective p.discovered p.error
              (notify r event first))
            (prepared_run-MayLaunch p.effective p.discovered p.error (notify r event first) refl
              refl refl (disk-notify r event first) (asked-notify r event first)))

  -- A run asks for a launch only when the preparation succeeded, the policy allows the request, the
  -- run's lock was taken on the store that the run found (where it launches at all), and on this store
  -- reconciliation and its write returned without an error; then its launches are, in order and without
  -- a gap, the first ones of the abstract run that starts with the decision that was reconciled.
  pub run-Granted :
      (at_start : Option Err) (x : Ended)
      → run sha256 r request p at_start rounds store ≡ some x
      → (asked x.going ≡ []) ⊎ Granted (asked x.going)
  run-Granted at_start x h = subst MayLaunch h (run-MayLaunch at_start)
