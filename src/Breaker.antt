-- ===== src/Breaker.antt =====
-- internal/breaker/breaker.go: the circuit breaker's configuration and `Do`. The breaker itself is
-- github.com/sony/gobreaker, which is not part of the repository: `Gate` stands for it, by what `Do`
-- asks of it. Its documented behaviour is that a call that is not admitted is answered by one of its
-- two errors without being made, and that an excluded outcome counts neither way.
pub mod Transparency
pub mod Samples
mod Examples
use ocihood.Base.{
  ℕ, ◌*◌, String, Bool, true, false, ◌||◌, Option, none, some, str_eq, if◌then◌else◌, ℤ, pos,
  lt_int, leb,
}
use ocihood.Errors.{
  Err, message, sentinel, outcome, outer, inner, open_error, Sentinel, open_state,
  too_many_requests, is, as_outcome, as_open,
}
use ocihood.Time.{second, hour}

pub record Config : Type 0 where
  pub failures : ℤ
  pub half_open_requests : ℤ
  pub interval : ℤ
  pub open_timeout : ℤ

-- `Failure` and `Exclude`
abbrev pub failure : Option Err → Err
failure e = outcome true (inner e)

abbrev pub exclude : Option Err → Err
exclude e = outcome false (inner e)

-- What the breaker counts.
pub data Verdict : Type 0 where
  success failed excluded : Verdict

-- `IsSuccessful` and `IsExcluded`
abbrev of_mark : Option (Bool × Err) → Verdict
of_mark none = failed
of_mark (some (true, _)) = failed
of_mark (some (false, _)) = excluded

unfoldable pub verdict : Option Err → Verdict
verdict none = success
verdict (some e) = of_mark (as_outcome e)

-- The refusal of `New`; `none`: a circuit is made.
unfoldable pub new_fault : String → Config → Option Err
new_fault name c =
    if str_eq name ""
      || lt_int c.failures (pos 1)
      || lt_int (pos 100) c.failures
      || lt_int c.half_open_requests (pos 1)
      || lt_int (pos 10) c.half_open_requests
      || lt_int c.interval (pos second)
      || lt_int (pos (24 * hour)) c.interval
      || lt_int c.open_timeout (pos second)
      || lt_int (pos hour) c.open_timeout
    then some (message "invalid circuit breaker name or configuration")
    else none

pub record Gate : Type 1 where
  pub State : Type 0
  -- Why a call is not admitted: `ErrOpenState` or `ErrTooManyRequests`.
  pub admit : State → Option Sentinel × State
  pub settle : Verdict → State → State

abbrev unmarked : Err → Option (Bool × Err) → Option Err
unmarked e none = some e
unmarked e (some (_, marked)) = outer marked

-- The error that `Do` makes of the one that the breaker returns.
unfoldable pub translate : String → Option Err → Option Err
translate name none = none
translate name (some e) =
    if is open_state e || is too_many_requests e
    then some (open_error name)
    else unmarked e (as_outcome e)

-- A call and what it makes of the circuit: whether it was made, its error.
pub record Call (g : Gate) : Type 0 where
  pub made : Bool
  pub error : Option Err
  pub after : g.State

-- `Do`; `answer` is what the function returns where it is called.
unfoldable pub call : (g : Gate) → String → g.State → Option Err → Call g
call g name s answer =
    let (refusal, s') = g.admit s in
    elim refusal [
      | some why ↦ record { made = false; error = translate name (some (sentinel why)); after = s' }
      | none ↦ record {
        made = true;
        error = translate name answer;
        after = g.settle (verdict answer) s';
      }
    ]

-- `errors.As(err, &open)`
abbrev pub is_open : Option Err → Bool
is_open none = false
is_open (some e) = elim (as_open e) [ none ↦ false | some _ ↦ true ]
