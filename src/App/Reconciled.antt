-- ===== src/App/Reconciled.antt =====
-- internal/app/app.go: what `reconcileAndPersist` reads, decides and stores, step by step.
use ocihood.Base.{ℕ, String, Bool, ◌≡◌, refl, ap, sym, ◌∙◌, none, some, List, arith, inl, inr, ◌⊎◌}
use ocihood.Io.{Result, ok, err, ◌>>=◌, query, query_ok, lift, ◌>>◌, >>=-eq-ok}
use ocihood.Reconcile
use ocihood.Reconcile.{
  Attempt, Decision, Instance, new_attempt, decide, undecided, create, already_satisfied,
  resume_reconcile, retry_same_attempt, new_attempt_safe, conflict, Input,
}
use ocihood.State.{LocalState, reconcile_state}
use ocihood.State.Disk.{Disk}
use ocihood.State.Store.{load, stamped, file_of, save_or_fail}
use ocihood.State.Durability.{HasFreshTemp}
use ocihood.State.Sessions.{locking_ok, saved-load, before-load, Session}
use ocihood.App.Persist.{
  Prior, prior, Planned, plan, plan_kind, outcome, reconciling, reconcile_and_persist, input_of,
  is_waiting,
}

-- The state that the decision reads is the one to change, or there is none.
pub prior_cases :
    (account target : String) (r : Result LocalState) (p : Prior)
    → prior account target r ≡ ok p
    → (p.local ≡ none) ⊎ (p.local ≡ some (reconcile_state p.value))
unfolding prior
prior_cases account target (ok v) p h = inr (ground arith)
prior_cases account target (err e) p h = inl (ground arith)

pub outcome_ok :
    (d : Decision) (resumed : Bool) (x : Decision × Bool)
    → outcome d resumed ≡ ok x
    → x ≡ (d, resumed)
unfolding outcome
outcome_ok d resumed x h = ground arith

plan_kind-keeps :
    (k : Reconcile.DecisionKind) (d : Decision) (v : LocalState) (random : List ℕ) (now : ℕ)
    (planned : Planned)
    → d.kind ≡ k
    → plan_kind k d v random now ≡ ok planned
    → planned.0.kind ≡ k
unfolding plan_kind
plan_kind-keeps already_satisfied d v random now planned e h = ground arith
plan_kind-keeps resume_reconcile d v random now planned e h = ground arith
plan_kind-keeps conflict d v random now planned e h = ground arith
plan_kind-keeps undecided d v random now planned e h = ground arith
plan_kind-keeps retry_same_attempt d v random now planned e h = ground arith
plan_kind-keeps create d v random now planned e h = ground arith
plan_kind-keeps new_attempt_safe d v random now planned e h = ground arith

pub plan-keeps :
    (d : Decision) (v : LocalState) (random : List ℕ) (now : ℕ) (planned : Planned)
    → plan d v random now ≡ ok planned
    → planned.0.kind ≡ d.kind
unfolding plan
plan-keeps d v random now planned h = plan_kind-keeps d.kind d _ random now planned refl h

lift_ok :
    {A : Type 0} (r : Result A) (d d' : Disk) {a : A}
    → lift r d ≡ (ok a, d')
    → (r ≡ ok a) × (d' ≡ d)
lift_ok r d d' h = (ap (λ x. x.0) h, sym (ap (λ x. x.1) h))

module _ (sha256 : String → String) (root account target : String) where
  -- What a `reconcileAndPersist` that returned `x` without an error did.
  pub record Reconciled (instances : List Reconcile.Instance) (random : List ℕ) (now : ℕ)
      (d d' : Disk) (x : Decision × Bool) : Type 0 where
    pub before : Prior
    pub read_before : prior account target (load sha256 root account target d) ≡ ok before
    pub planned : Planned
    pub made :
        plan
          (decide (input_of sha256 root account target before.local instances now))
          before.value
          random
          now
        ≡ ok planned
    pub stored : load sha256 root account target d' ≡ ok (stamped planned.1)
    pub returned : outcome planned.0 (is_waiting before.value.lifecycle) ≡ ok x

  module _ (instances : List Reconcile.Instance) (random : List ℕ) (now : ℕ) (d d' : Disk)
      (x : Decision × Bool) (fresh : HasFreshTemp (file_of sha256 root account target) d) where
    saved_last :
        (k : Session sha256 root account target
          (reconciling sha256 root account target instances random now)
          x
          d
          d')
        (p : Prior) (planned : Planned) (u : Disk)
        → prior account target (load sha256 root account target k.before) ≡ ok p
        → plan
            (decide (input_of sha256 root account target p.local instances now))
            p.value
            random
            now
          ≡ ok planned
        → u ≡ k.before
        → (save_or_fail k.writer planned.1
              >> lift (outcome planned.0 (is_waiting p.value.lifecycle)))
            u
          ≡ (ok x, k.after)
        → Reconciled instances random now d d' x
    saved_last k p planned u loaded made same rest =
        let (one, v, saved, last) = >>=-eq-ok (save_or_fail k.writer planned.1) _ u rest in
        let (returned, after) =
          lift_ok (outcome planned.0 (is_waiting p.value.lifecycle)) v k.after last in
        record {
          before = p;
          read_before = rw (before-load sha256 root account target k) at loaded;
          planned = planned;
          made = made;
          stored = saved-load sha256 root account target k planned.1 u fresh same (rw after saved);
          returned = returned;
        }

    planned_next :
        (k : Session sha256 root account target
          (reconciling sha256 root account target instances random now)
          x
          d
          d')
        (p : Prior) (u : Disk)
        → prior account target (load sha256 root account target k.before) ≡ ok p
        → u ≡ k.before
        → (lift (
                plan
                  (decide (input_of sha256 root account target p.local instances now))
                  p.value
                  random
                  now)
              >>= λ planned.
                  save_or_fail k.writer planned.1
                  >> lift (outcome planned.0 (is_waiting p.value.lifecycle)))
            u
          ≡ (ok x, k.after)
        → Reconciled instances random now d d' x
    planned_next k p u loaded same rest =
        let r =
          plan (decide (input_of sha256 root account target p.local instances now)) p.value random
            now in
        let (planned, v, lifted, last) = >>=-eq-ok (lift r) _ u rest in
        let (made, still) = lift_ok r u v lifted in
        saved_last k p planned v loaded made (still ∙ same) last

    pub reconcile_and_persist_ok :
        reconcile_and_persist sha256 root account target instances random now d ≡ (ok x, d')
        → Reconciled instances random now d d' x
    unfolding reconcile_and_persist
    reconcile_and_persist_ok h =
        let read_prior : Disk → Result Prior =
          λ e. prior account target (load sha256 root account target e) in
        let k =
          locking_ok sha256 root account target
            (reconciling sha256 root account target instances random now) x d d' h in
        let (p, u, found, rest) = >>=-eq-ok (query read_prior) _ k.before k.ran in
        let (loaded, same) = query_ok read_prior k.before found in
        planned_next k p u loaded same rest
