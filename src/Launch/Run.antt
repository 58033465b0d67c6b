-- ===== src/Launch/Run.antt =====
-- internal/launch/launch.go: `Orchestrator.Run`, loop by loop.
use ocihood.Base.{
  ℕ, suc, String, Bool, true, false, not, Option, none, some, List, [], ◌∷◌, ◌++◌, str_eq,
  if◌then◌else◌, ℤ, lt_int, eq_int, ◌^^◌,
}
use ocihood.Errors.{Err, message, wrapped, launch_error, inner}
use ocihood.Errors.Kinds.{
  LaunchKind, accepted, out_of_capacity, transient, ambiguous, fatal, limit_exceeded, canceled,
  unset, other,
}
use ocihood.Io.{Result, ok, err}
use ocihood.Launch.{
  Instance, Input, backoff, Effect, launched, reconciled, got, stored_accepted, stored_failed,
  slept, LaunchRound, LookupRound, failed,
}

-- Where a round of the launch loop leads: to the next round, to an instance, or out of `Run`.
pub data LaunchStep : Type 0 where
  again : LaunchStep
  have : String → LaunchStep
  stop : Err → LaunchStep

abbrev fail_launch : Err → Option Err → List Effect × LaunchStep
fail_launch cause answer = (stored_failed cause ∷ [], stop (failed cause answer))

-- The loop goes on while the id is empty.
abbrev settle : String → LaunchStep
settle id = if str_eq id "" then again else have id

-- An instance that the store is told of.
abbrev accept : String → String → Option Err → List Effect × LaunchStep
accept label id none = (stored_accepted id ∷ [], settle id)
accept label id (some e) = (stored_accepted id ∷ [], stop (wrapped label e))

on_accepted : LaunchRound → List Effect × LaunchStep
on_accepted r =
    if str_eq r.result.instance.id ""
    then ([], stop (message "launch accepted without instance id"))
    else accept "persist accepted instance" r.result.instance.id r.accepted_error

-- After the reconciliation: its context, its error, what it found.
limit_answer : LaunchRound → Option Err → Option Err → Bool → List Effect × LaunchStep
limit_answer r (some e) _ _ = ([], stop e)
limit_answer r none (some e) _ = ([], stop (wrapped "reconcile service limit" e))
limit_answer r none none true =
    accept "persist reconciled instance" r.found_instance.id r.accepted_error
limit_answer r none none false =
    fail_launch (launch_error limit_exceeded (inner r.error)) r.failed_error

on_limit : Input → LaunchRound → List Effect × LaunchStep
unfolding limit_answer
on_limit i r =
    let (es, step) = limit_answer r r.reconcile_ctx_error r.reconcile_error r.found in
    (reconciled i.request ∷ es, step)

abbrev exhausted : Option Err → Err
exhausted none = message "launch retry budget exhausted"
exhausted (some e) = wrapped "launch retry budget exhausted" e

abbrev after_sleep : Option Err → LaunchStep
after_sleep none = again
after_sleep (some e) = stop e

on_retry : Input → ℕ → LaunchRound → LaunchKind → List Effect × LaunchStep
on_retry i retry r kind =
    let delay = backoff i.retry_min i.retry_max retry in
    let longer = if lt_int delay r.result.retry_after then r.result.retry_after else delay in
    if eq_int delay i.retry_max
    then fail_launch (launch_error kind (exhausted r.error)) r.failed_error
    else (slept longer ∷ [], after_sleep r.sleep_error)

on_kind : Input → ℕ → LaunchRound → LaunchKind → List Effect × LaunchStep
unfolding on_accepted on_limit on_retry
on_kind i retry r accepted = on_accepted r
on_kind i retry r out_of_capacity = ([], stop (launch_error out_of_capacity (inner r.error)))
on_kind i retry r limit_exceeded = on_limit i r
on_kind i retry r fatal = fail_launch (launch_error fatal (inner r.error)) r.failed_error
on_kind i retry r canceled = ([], stop (launch_error canceled (inner r.error)))
on_kind i retry r transient = on_retry i retry r transient
on_kind i retry r ambiguous = on_retry i retry r ambiguous
on_kind i retry r unset = on_retry i retry r unset
on_kind i retry r (other s) = ([], stop (message ("unknown launch result " ^^ s)))

-- A request that timed out without a result is ambiguous.
abbrev kind_of : Bool → LaunchKind → LaunchKind
kind_of true unset = ambiguous
kind_of _ k = k

round_body : Input → ℕ → LaunchRound → Option Err → List Effect × LaunchStep
unfolding on_kind
round_body i retry r (some e) = ([], stop e)
round_body i retry r none = on_kind i retry r (kind_of r.timed_out r.result.kind)

unfoldable pub launch_round : Input → ℕ → LaunchRound → List Effect × LaunchStep
unfolding round_body
launch_round i retry r =
    let (es, step) = round_body i retry r r.ctx_error in (launched i.request ∷ es, step)

-- `none`: the rounds ran out.
unfoldable pub launch_loop : Input → ℕ → List LaunchRound → List Effect × Option (Result String)
launch_loop i retry [] = ([], none)
launch_loop i retry (r ∷ rs) =
    let (es, step) = launch_round i retry r in
    let (fs, later) = launch_loop i (suc retry) rs in
    elim step [
      | again ↦ (es ++ fs, later)
      | have id ↦ (es, some (ok id))
      | stop e ↦ (es, some (err e))
    ]

-- The wait for a public address. The last instance seen is kept where a lookup fails.
abbrev seen : Instance → LookupRound → Instance
seen x l = elim l.error [ none ↦ l.instance | some _ ↦ x ]

abbrev has_address : LookupRound → Bool
has_address l = elim l.error [ none ↦ not (str_eq l.instance.public_ip "") | some _ ↦ false ]

-- Where a lookup leads: to the next one, to an instance, or out of `Run`.
pub data LookupStep : Type 0 where
  more : Instance → LookupStep
  use_instance : Instance → LookupStep
  leave : Err → LookupStep

lookup_answer : ℤ → ℤ → Instance → LookupRound → Option Err → LookupStep
lookup_answer delay maximum x l (some e) = leave e
lookup_answer delay maximum x l none =
    if has_address l
    then use_instance (seen x l)
    else if eq_int delay maximum
    then use_instance (seen x l)
    else more (seen x l)

lookup_slept : String → ℤ → ℤ → Instance → LookupRound → Option Err → List Effect × LookupStep
unfolding lookup_answer
lookup_slept id delay maximum x l (some e) = (slept delay ∷ [], leave e)
lookup_slept id delay maximum x l none =
    (slept delay ∷ got id ∷ [], lookup_answer delay maximum x l l.ctx_error)

unfoldable pub lookup_round : Input → String → ℕ → Instance → LookupRound → List Effect × LookupStep
unfolding lookup_slept
lookup_round i id retry x l =
    lookup_slept id (backoff i.retry_min i.retry_max retry) i.retry_max x l l.sleep_error

unfoldable pub lookup_loop :
    Input → String → ℕ → Instance → List LookupRound → List Effect × Option (Result Instance)
lookup_loop i id retry x [] = ([], none)
lookup_loop i id retry x (l ∷ ls) =
    let (es, step) = lookup_round i id retry x l in
    elim step [
      | more y ↦ let (fs, later) = lookup_loop i id (suc retry) y ls in (es ++ fs, later)
      | use_instance y ↦ (es, some (ok y))
      | leave e ↦ (es, some (err e))
    ]
