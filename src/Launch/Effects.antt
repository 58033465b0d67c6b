-- ===== src/Launch/Effects.antt =====
-- internal/launch/launch.go: what `Run` asks of the provider.
use ocihood.Base.{
  ℕ, suc, ◌≡◌, arith, String, Bool, Option, none, some, List, [], ◌∷◌, ◌++◌, All, All-append,
  eq_iff, Bool-cases, str_eq, inl, inr,
}
use ocihood.Io.{Result, ok, err}
use ocihood.Launch.{
  Instance, Input, Effect, launched, reconciled, stored_finished, LaunchRound, LookupRound,
  PollRound,
}
use ocihood.Launch.Run.{launch_round, launch_loop, lookup_round, lookup_loop}
use ocihood.Launch.Poll.{
  poll_round, poll_loop, then_poll, run, is_ready, finish, finish_after, on_running, on_state,
}

-- A launch or a reconciliation is asked for with the given request, and only where no instance is
-- known from before.
abbrev pub AsksFor : Input → Effect → Type 0
AsksFor i (launched q) = (q ≡ i.request) × (i.existing_instance_id ≡ "")
AsksFor i (reconciled q) = (q ≡ i.request) × (i.existing_instance_id ≡ "")
AsksFor i _ = Unit

module _ (i : Input) where
  launch_round-AsksFor :
      (retry : ℕ) (r : LaunchRound)
      → i.existing_instance_id ≡ ""
      → All (AsksFor i) (launch_round i retry r).0
  unfolding launch_round
  launch_round-AsksFor retry r h = ground arith

  launch_loop-AsksFor :
      (retry : ℕ) (rs : List LaunchRound)
      → i.existing_instance_id ≡ ""
      → All (AsksFor i) (launch_loop i retry rs).0
  unfolding launch_loop
  launch_loop-AsksFor retry [] h = tt
  launch_loop-AsksFor retry (r ∷ rs) h = ground (
    arith,
    launch_round-AsksFor retry r h,
    All-append (AsksFor i) (launch_round i retry r).0 (launch_loop i (suc retry) rs).0
        (launch_round-AsksFor retry r h) (launch_loop-AsksFor (suc retry) rs h),
  )

  lookup_round-AsksFor :
      (id : String) (retry : ℕ) (x : Instance) (l : LookupRound)
      → All (AsksFor i) (lookup_round i id retry x l).0
  unfolding lookup_round
  lookup_round-AsksFor id retry x l = ground arith

  lookup_loop-AsksFor :
      (id : String) (retry : ℕ) (x : Instance) (ls : List LookupRound)
      → All (AsksFor i) (lookup_loop i id retry x ls).0
  unfolding lookup_loop
  lookup_loop-AsksFor id retry x [] = tt
  lookup_loop-AsksFor id retry x (l ∷ ls) =
      let here = lookup_round-AsksFor id retry x l in
      let later = λ (y : Instance).
        All-append (AsksFor i) (lookup_round i id retry x l).0 (lookup_loop i id (suc retry) y ls).0
          here (lookup_loop-AsksFor id (suc retry) y ls) in
      grind (arith, here, later)

  finish_after-AsksFor :
      (r : PollRound) (es : List Effect) (o : Option (Result Instance))
      → All (AsksFor i) es
      → All (AsksFor i) (finish_after r (es, o)).0
  unfolding finish_after
  finish_after-AsksFor r es none h = h
  finish_after-AsksFor r es (some (err e)) h = h
  finish_after-AsksFor r es (some (ok x)) h =
      elim r.finished_error as (λ f. All (AsksFor i) (es ++ (finish x f).0)) [
        | none ↦ All-append (AsksFor i) es (stored_finished x ∷ []) h (tt, tt)
        | some _ ↦ All-append (AsksFor i) es (stored_finished x ∷ []) h (tt, tt)
      ]

  on_running-AsksFor : (id : String) (r : PollRound) → All (AsksFor i) (on_running i id r).0
  unfolding on_running
  on_running-AsksFor id r = ground (
    arith,
    finish_after-AsksFor r (lookup_loop i id 0 r.instance r.lookups).0
        (lookup_loop i id 0 r.instance r.lookups).1 (lookup_loop-AsksFor id 0 r.instance r.lookups),
  )

  poll_round-AsksFor : (id : String) (r : PollRound) → All (AsksFor i) (poll_round i id r).0
  unfolding poll_round on_state
  poll_round-AsksFor id r = ground (arith, on_running-AsksFor id r)

  poll_loop-AsksFor : (id : String) (rs : List PollRound) → All (AsksFor i) (poll_loop i id rs).0
  unfolding poll_loop
  poll_loop-AsksFor id [] = tt
  poll_loop-AsksFor id (r ∷ rs) = ground (
    arith,
    poll_round-AsksFor id r,
    All-append (AsksFor i) (poll_round i id r).0 (poll_loop i id rs).0 (poll_round-AsksFor id r)
        (poll_loop-AsksFor id rs),
  )

  then_poll-AsksFor :
      (ps : List PollRound) (es : List Effect) (o : Option (Result String))
      → All (AsksFor i) es
      → All (AsksFor i) (then_poll i ps (es, o)).0
  unfolding then_poll
  then_poll-AsksFor ps es none h = h
  then_poll-AsksFor ps es (some (err e)) h = h
  then_poll-AsksFor ps es (some (ok id)) h =
      All-append (AsksFor i) es (poll_loop i id ps).0 h (poll_loop-AsksFor id ps)

-- Whatever the provider answers, each launch and each reconciliation that a run asks for carries the
-- request that the run was given, its attempt and retry token included; and a run that is given the id
-- of an existing instance asks for none.
pub run-AsksFor :
    (complete : Bool) (i : Input) (rs : List LaunchRound) (ps : List PollRound)
    → All (AsksFor i) (run complete i rs ps).0
unfolding run
run-AsksFor complete i rs ps = elim (Bool-cases (is_ready complete i)) [
  | inl ready ↦ elim (Bool-cases (str_eq i.existing_instance_id "")) [
    | inl fresh ↦
        rw (ready, fresh)
          (then_poll-AsksFor i ps (launch_loop i 0 rs).0 (launch_loop i 0 rs).1
            (launch_loop-AsksFor i 0 rs ((eq_iff i.existing_instance_id "").0 fresh)))
    | inr known ↦ rw (ready, known) (poll_loop-AsksFor i i.existing_instance_id ps)
  ]
  | inr no_start ↦ rw no_start tt
]
