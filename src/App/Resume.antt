-- ===== src/App/Resume.antt =====
-- internal/app/app.go: `reconcileAndPersist` in a run after one that was interrupted.
use ocihood.Base.{
  ℕ, ◌<◌, String, Bool, false, ◌≡◌, none, some, List, [], arith, inl, inr, Bool-cases, is_blank,
  str_eq, eq_iff, trim_space,
}
use ocihood.Io.{Result, ok, err}
use ocihood.Reconcile
use ocihood.Reconcile.{
  Attempt, Decision, decide, retry_same_attempt, Input, active_owned, unknown_owned,
}
use ocihood.Reconcile.Safety.{Launches, decide_retries}
use ocihood.Reconcile.Attempts.{AreBytes}
use ocihood.State.{LocalState, reconcile_state}
use ocihood.State.Disk.{Disk}
use ocihood.State.Store.{file_of}
use ocihood.State.Durability.{HasFreshTemp}
use ocihood.State.RoundTrip.{load_ok}
use ocihood.App.Persist.{Prior, prior, plan, plan_kind, reconcile_and_persist, input_of}
use ocihood.App.Reconciled.{reconcile_and_persist_ok, outcome_ok}
use ocihood.App.WriteAhead.{Pending, reconcile_and_persist-Committed}

blank_empty : (t : String) → is_blank t ≡ false → str_eq t "" ≡ false
blank_empty t h = elim (Bool-cases (str_eq t "")) [
  | inl same ↦
      let e : t ≡ "" = ground (arith, eq_iff t "") in
      absurd (let f : is_blank "" ≡ false = rw e at h in unfold trim_space in cc)
  | inr other ↦ other
]

Pending-attempt :
    (a : Attempt) (s : LocalState) (now : ℕ)
    → Pending a s now
    → (reconcile_state s).attempt ≡ some a
unfolding reconcile_state
Pending-attempt a s now ((i, t, v), (id, token), later) = ground (arith, blank_empty a.id id)

plan_retry :
    (d : Decision) (v : LocalState) (random : List ℕ) (now : ℕ) (a : Attempt)
    (planned : Decision × LocalState)
    → d.kind ≡ retry_same_attempt
    → d.attempt ≡ some a
    → plan d v random now ≡ ok planned
    → (planned.0.kind ≡ retry_same_attempt) × (planned.0.attempt ≡ some a)
unfolding plan plan_kind
plan_retry d v random now a planned h k e = ground arith

prior_loaded :
    (account target : String) (r : Result LocalState) (s : LocalState) (p : Prior)
    → r ≡ ok s
    → prior account target r ≡ ok p
    → p.local ≡ some (reconcile_state s)
unfolding prior
prior_loaded account target (ok v) s p h e = ground arith
prior_loaded account target (err f) s p h e = absurd (cc)

module _ (sha256 : String → String) (root account target : String) where
  module _ (instances later_instances : List Reconcile.Instance) (random later_random : List ℕ)
      (now later : ℕ) (d d' d'' : Disk) (x y : Decision × Bool) (a : Attempt) where
    -- After a run has decided to launch with an attempt, a second `reconcileAndPersist` on the store
    -- that the first one left, before the attempt expires and while discovery lists no owned instance
    -- that is active or unknown, decides to retry with that same attempt, so with the same retry
    -- token. (Both return without an error.)
    pub reconcile_and_persist-resumes :
        AreBytes random
        → HasFreshTemp (file_of sha256 root account target) d
        → HasFreshTemp (file_of sha256 root account target) d'
        → reconcile_and_persist sha256 root account target instances random now d ≡ (ok x, d')
        → Launches x.0.kind
        → x.0.attempt ≡ some a
        → later < a.valid_until
        → active_owned (input_of sha256 root account target none later_instances later) ≡ []
        → unknown_owned (input_of sha256 root account target none later_instances later) ≡ []
        → reconcile_and_persist sha256 root account target later_instances later_random later d'
          ≡ (ok y, d'')
        → (y.0.kind ≡ retry_same_attempt) × (y.0.attempt ≡ some a)
    reconcile_and_persist-resumes bytes fresh fresh' first launches at_a soon none_active
          none_unknown second =
        let ((s, stored, (b, at_b, _, pending)), _) =
          reconcile_and_persist-Committed sha256 root account target instances random now d d' x
            bytes fresh first launches in
        let same : b ≡ a = ground arith in
        let (_, target_eq, _, _, _) = load_ok sha256 root account target d' stored in
        let k =
          reconcile_and_persist_ok sha256 root account target later_instances later_random later d'
            d'' y fresh' second in
        let from = prior_loaded account target _ s k.before stored k.read_before in
        let (kind, attempt) =
          decide_retries (input_of sha256 root account target k.before.local later_instances later)
            (reconcile_state s) a from (unfold reconcile_state in target_eq)
            (Pending-attempt a s now (rw same at pending)) (rw same at pending.1.0)
            (rw same at pending.1.1) soon none_active none_unknown in
        rw (outcome_ok k.planned.0 _ y k.returned)
          (plan_retry _ k.before.value later_random later a k.planned kind attempt k.made)
