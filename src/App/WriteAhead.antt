-- ===== src/App/WriteAhead.antt =====
-- internal/app/app.go: what `reconcileAndPersist` stores before a launch.
use ocihood.Base.{ℕ, ◌<◌, String, Bool, ◌≡◌, refl, ap, ◌∙◌, none, some, List, arith, inl, inr, ◌⊎◌}
use ocihood.Io.{ok, Result-cases}
use ocihood.Reconcile
use ocihood.Reconcile.{
  Attempt, Decision, Instance, new_attempt, decide, undecided, create, already_satisfied,
  resume_reconcile, retry_same_attempt, new_attempt_safe, conflict, Input,
}
use ocihood.Reconcile.Safety.{Launches, NoneAlive, decide-NoneAlive, decide-retry}
use ocihood.Reconcile.Attempts.{AreBytes, IsComplete, new_attempt-IsComplete}
use ocihood.State.{LocalState, provisioning, reconcile_state}
use ocihood.State.Disk.{Disk}
use ocihood.State.Store.{load, stamped, file_of}
use ocihood.State.Durability.{HasFreshTemp}
use ocihood.App.Reconciled.{reconcile_and_persist_ok, prior_cases, outcome_ok, plan-keeps}
use ocihood.App.Persist.{
  Planned, plan, plan_kind, reconcile_and_persist, attempt_validity, input_of, is_waiting,
  attempted,
}

-- The state holds the attempt.
abbrev pub Holds : Attempt → LocalState → Type 0
Holds a s =
    (s.attempt_id ≡ a.id) × (s.retry_token ≡ a.retry_token) × (s.attempt_valid_to ≡ a.valid_until)

-- A complete attempt that the state holds and that is not over.
abbrev pub Pending : Attempt → LocalState → ℕ → Type 0
Pending a s now = Holds a s × IsComplete a × (now < a.valid_until)

abbrev pub Committed : Decision → LocalState → ℕ → Type 0
Committed d s now =
    (a : Attempt) × (d.attempt ≡ some a) × (s.lifecycle ≡ provisioning) × Pending a s now

attempted-Committed :
    (d d' : Decision) (v s : LocalState) (random : List ℕ) (now : ℕ)
    → AreBytes random
    → attempted d v now (new_attempt random now attempt_validity).0 ≡ ok (d', s)
    → Committed d' s now
attempted-Committed d d' v s random now bytes h =
    elim (Result-cases (new_attempt random now attempt_validity).0) [
      | inr (e, failed) ↦ absurd (ground arith)
      | inl (a, made) ↦
          let (complete, later) =
            new_attempt-IsComplete random now attempt_validity a
              (new_attempt random now attempt_validity).1 bytes
              (ap (λ r. (r, (new_attempt random now attempt_validity).1)) made) in
          (
            a,
            ground arith,
            ground arith,
            ((ground arith, ground arith, ground arith), complete, later),
          )
    ]

plan_kind-Committed :
    (k : Reconcile.DecisionKind) (d d' : Decision) (v s : LocalState) (random : List ℕ) (now : ℕ)
    → AreBytes random
    → d.kind ≡ k
    → (k ≡ retry_same_attempt → (a : Attempt) × (d.attempt ≡ some a) × Pending a v now)
    → plan_kind k d v random now ≡ ok (d', s)
    → Launches d'.kind
    → Committed d' s now
unfolding plan_kind
plan_kind-Committed already_satisfied d d' v s random now bytes e retry h launches =
    absurd (ground arith)
plan_kind-Committed resume_reconcile d d' v s random now bytes e retry h launches =
    absurd (ground arith)
plan_kind-Committed conflict d d' v s random now bytes e retry h launches = absurd (ground arith)
plan_kind-Committed undecided d d' v s random now bytes e retry h launches = absurd (ground arith)
plan_kind-Committed create d d' v s random now bytes e retry h launches =
    attempted-Committed d d' v s random now bytes h
plan_kind-Committed new_attempt_safe d d' v s random now bytes e retry h launches =
    attempted-Committed d d' v s random now bytes h
plan_kind-Committed retry_same_attempt d d' v s random now bytes e retry h launches =
    let (a, at_a, ((i, t, u), complete, later)) = retry refl in
    (a, ground arith, ground arith, ((ground arith, ground arith, ground arith), complete, later))

attempt-Holds : (v : LocalState) (a : Attempt) → (reconcile_state v).attempt ≡ some a → Holds a v
unfolding reconcile_state
attempt-Holds v a h = (ground arith, ground arith, ground arith)

retry-Pending :
    (i : Input) (v : LocalState)
    → (i.state ≡ none) ⊎ (i.state ≡ some (reconcile_state v))
    → (decide i).kind ≡ retry_same_attempt
    → (a : Attempt) × ((decide i).attempt ≡ some a) × Pending a v i.now
retry-Pending i v from h =
    let (s, a, at_s, in_s, handed, later, id, token) = decide-retry i h in
    let same : some s ≡ some (reconcile_state v) = ground arith in
    let held : (reconcile_state v).attempt ≡ some a = ground arith in
    (a, handed, (attempt-Holds v a held, (id, token), later))

plan-Committed :
    (i : Input) (v : LocalState) (random : List ℕ) (planned : Planned)
    → AreBytes random
    → (i.state ≡ none) ⊎ (i.state ≡ some (reconcile_state v))
    → plan (decide i) v random i.now ≡ ok planned
    → Launches planned.0.kind
    → Committed planned.0 (stamped planned.1) i.now
unfolding plan
plan-Committed i v random planned bytes from h launches =
    plan_kind-Committed (decide i).kind (decide i) planned.0 _ planned.1 random i.now bytes refl
      (λ retry. retry-Pending i v from retry) h launches

module _ (sha256 : String → String) (root account target : String) where
  module _ (instances : List Reconcile.Instance) (random : List ℕ) (now : ℕ) (d d' : Disk)
      (x : Decision × Bool) where
    -- A run that goes on to launch has first stored the attempt that it launches with: when
    -- `reconcileAndPersist` returns such a decision without an error, a load of the account and
    -- target finds a provisioning state with that attempt's id and retry token, which are not blank,
    -- and its expiry, which lies ahead; and each owned instance that discovery listed is terminated.
    pub reconcile_and_persist-Committed :
        AreBytes random
        → HasFreshTemp (file_of sha256 root account target) d
        → reconcile_and_persist sha256 root account target instances random now d ≡ (ok x, d')
        → Launches x.0.kind
        → ((s : LocalState) × (load sha256 root account target d' ≡ ok s) × Committed x.0 s now)
          × NoneAlive (input_of sha256 root account target none instances now)
    reconcile_and_persist-Committed bytes fresh h launches =
        let k =
          reconcile_and_persist_ok sha256 root account target instances random now d d' x fresh h in
        let i = input_of sha256 root account target k.before.local instances now in
        let same = outcome_ok k.planned.0 (is_waiting k.before.value.lifecycle) x k.returned in
        let kept = plan-keeps (decide i) k.before.value random now k.planned k.made in
        let kind : x.0.kind ≡ (decide i).kind = ap (λ y. y.0.kind) same ∙ kept in
        let decided : Launches (decide i).kind = rw kind at launches in
        let from =
          prior_cases account target (load sha256 root account target d) k.before k.read_before in
        (
          (
            stamped k.planned.1,
            k.stored,
            rw same (
                plan-Committed i k.before.value random k.planned bytes from k.made
                  (rw kept decided)),
          ),
          decide-NoneAlive i decided,
        )
