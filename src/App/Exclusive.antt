-- ===== src/App/Exclusive.antt =====
-- internal/app/app.go, internal/state/state.go: two runs of one account and target.
use ocihood.Base.{
  some_inj, String, true, ◌≡◌, ◌≢◌, ◌∙◌, sym, Option, some, List, [], arith, any, inl, inr,
}
use ocihood.Errors.{Err}
use ocihood.Io.{ok}
use ocihood.State.Disk.{FilePath, Disk, same_path}
use ocihood.State.Store.{file_of, run_lock_of, path, acquire, try_run_lock}
use ocihood.Reconcile.{Decision}
use ocihood.Config.{Effective}
use ocihood.Discovery.{Discovered}
use ocihood.App.Prepare.{Request, Prepared}
use ocihood.App.Run.{Round, Runner, Ended}
use ocihood.App.Asked.{asked}
use ocihood.App.Runner.{run}
use ocihood.App.Granted.{Granted, run-Granted}

module _ (sha256 : String → String) (root account target : String) where
  -- A run of this account and target holds its lock.
  abbrev pub IsRunning : Disk → Type 0
  IsRunning d = any (same_path (run_lock_of (file_of sha256 root account target))) d.held ≡ true

  try_run_lock_busy :
      (d v : Disk) (lock : FilePath)
      → IsRunning d
      → try_run_lock sha256 root account target d ≢ (ok lock, v)
  unfolding try_run_lock path acquire
  try_run_lock_busy d v lock running h = absurd (ground arith)

module _ (sha256 : String → String) (r : Runner) (request : Request) (p : Prepared)
    (rounds : List Round) (e : Effective) (d : Discovered) where
  not-Granted :
      (store : Disk) (l : List Decision)
      → r.has_launch ≡ true
      → p.effective ≡ some e
      → p.discovered ≡ some d
      → IsRunning sha256 e.state_dir e.account d.target_id store
      → ¬ Granted sha256 r request p rounds store l
  not-Granted store l launching is_e is_d running k =
      let (_, same_e, same_d) = k.is_prepared in
      let f : k.effective ≡ e = some_inj (sym same_e ∙ is_e) in
      let g : k.discovered ≡ d = some_inj (sym same_d ∙ is_d) in
      elim k.is_locked [
        | inl (watching, _) ↦ cc
        | inr (lock, taken) ↦
            try_run_lock_busy sha256 k.effective.state_dir k.effective.account
              k.discovered.target_id store k.before lock (rw (f, g) running) taken
      ]

  -- Two runs that launch exclude each other: while one of this account and target holds the run's lock,
  -- a run of the same account and target asks for no launch, whatever its preparation, its rounds and
  -- the rest of the store.
  pub run_exclusive :
      (at_start : Option Err) (store : Disk) (x : Ended)
      → r.has_launch ≡ true
      → p.effective ≡ some e
      → p.discovered ≡ some d
      → IsRunning sha256 e.state_dir e.account d.target_id store
      → run sha256 r request p at_start rounds store ≡ some x
      → asked x.going ≡ []
  run_exclusive at_start store x launching is_e is_d running h =
      elim (run-Granted sha256 r request p rounds store at_start x h) [
        | inl quiet ↦ quiet
        | inr k ↦ absurd (not-Granted store (asked x.going) launching is_e is_d running k)
      ]
