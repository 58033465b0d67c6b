-- ===== src/Launch/Poll.antt =====
-- internal/launch/launch.go: the lifecycle loop of `Orchestrator.Run`, and `Run` as a whole.
use ocihood.Base.{
  String, Bool, ◌&&◌, ◌||◌, not, Option, none, some, List, [], ◌∷◌, ◌++◌, str_eq, if◌then◌else◌,
  pos, lt_int, le_int, ◌^^◌,
}
use ocihood.Errors.{Err, message, wrapped, as_launch}
use ocihood.Errors.Kinds.{LaunchKind, fatal, limit_exceeded, canceled}
use ocihood.Io.{Result, ok, err}
use ocihood.Launch.{
  Instance, Input, Effect, got, stored_finished, stored_failed, slept, LaunchRound, PollRound,
  failed,
}
use ocihood.Launch.Run.{launch_loop, lookup_loop}

-- Where a round of the lifecycle loop leads; `waiting`: the lookups of the round ran out.
pub data PollStep : Type 0 where
  again waiting : PollStep
  stop : Result Instance → PollStep

abbrev fail_poll : Err → Option Err → List Effect × PollStep
fail_poll cause answer = (stored_failed cause ∷ [], stop (err (failed cause answer)))

abbrev after_sleep : Option Err → PollStep
after_sleep none = again
after_sleep (some e) = stop (err e)

abbrev pause : Input → PollRound → List Effect × PollStep
pause i r = (slept i.retry_min ∷ [], after_sleep r.sleep_error)

-- `errors.As(err, &classified)` and the test of its kind.
unfoldable pub get_failed :
    Input → PollRound → Err → Option (LaunchKind × Err) → List Effect × PollStep
get_failed i r e (some (fatal, _)) = fail_poll e r.failed_error
get_failed i r e (some (limit_exceeded, _)) = fail_poll e r.failed_error
get_failed i r e (some (canceled, _)) = ([], stop (err e))
get_failed i r e _ = pause i r

abbrev pub finish : Instance → Option Err → List Effect × PollStep
finish x none = (stored_finished x ∷ [], stop (ok x))
finish x (some e) = (stored_finished x ∷ [], stop (err (wrapped "persist running instance" e)))

unfoldable pub finish_after :
    PollRound → List Effect × Option (Result Instance) → List Effect × PollStep
finish_after r (es, none) = (es, waiting)
finish_after r (es, some (err e)) = (es, stop (err e))
finish_after r (es, some (ok x)) = let (fs, step) = finish x r.finished_error in (es ++ fs, step)

unfoldable pub on_running : Input → String → PollRound → List Effect × PollStep
on_running i id r =
    if i.request.public_ip && str_eq r.instance.public_ip ""
    then finish_after r (lookup_loop i id 0 r.instance r.lookups)
    else finish r.instance r.finished_error

unfoldable pub on_state : Input → String → PollRound → List Effect × PollStep
on_state i id r =
    if str_eq r.instance.state "RUNNING"
    then on_running i id r
    else if str_eq r.instance.state "TERMINATED" || str_eq r.instance.state "TERMINATING"
    then fail_poll
        (message ("instance " ^^ r.instance.id ^^ " reached terminal state " ^^ r.instance.state))
        r.failed_error
    else pause i r

-- After `Get`: its context, then its error.
unfoldable pub poll_answer :
    Input → String → PollRound → Option Err → Option Err → List Effect × PollStep
unfolding get_failed
poll_answer i id r (some e) _ = ([], stop (err e))
poll_answer i id r none (some e) = get_failed i r e (as_launch e)
poll_answer i id r none none = on_state i id r

unfoldable pub poll_round : Input → String → PollRound → List Effect × PollStep
unfolding poll_answer
poll_round i id r = let (es, step) = poll_answer i id r r.ctx_error r.error in (got id ∷ es, step)

unfoldable pub poll_loop : Input → String → List PollRound → List Effect × Option (Result Instance)
poll_loop i id [] = ([], none)
poll_loop i id (r ∷ rs) =
    let (es, step) = poll_round i id r in
    let (fs, later) = poll_loop i id rs in
    elim step [ again ↦ (es ++ fs, later) | waiting ↦ (es, none) | stop x ↦ (es, some x) ]

-- `complete`: provider, store and sleeper are there.
abbrev pub is_ready : Bool → Input → Bool
is_ready complete i =
    complete
    && not (le_int i.request_timeout (pos 0))
    && not (le_int i.retry_min (pos 0))
    && not (lt_int i.retry_max i.retry_min)

-- The rest of `Run` once the launch loop has ended.
unfoldable pub then_poll :
    Input
    → List PollRound
    → List Effect × Option (Result String)
    → List Effect × Option (Result Instance)
then_poll i ps (es, none) = (es, none)
then_poll i ps (es, some (err e)) = (es, some (err e))
then_poll i ps (es, some (ok id)) = let (fs, r) = poll_loop i id ps in (es ++ fs, r)

unfoldable pub run :
    Bool → Input → List LaunchRound → List PollRound → List Effect × Option (Result Instance)
run complete i rs ps =
    if is_ready complete i
    then (if str_eq i.existing_instance_id ""
        then then_poll i ps (launch_loop i 0 rs)
        else poll_loop i i.existing_instance_id ps)
    else (
      [],
      some (err (message "complete launch dependencies and retry configuration are required")),
    )
