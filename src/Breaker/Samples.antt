-- ===== src/Breaker/Samples.antt =====
-- A circuit to try the definitions on.
use ocihood.Base.{Bool, true, false, Option, none, some, refl}
use ocihood.Errors.{Err, message, Sentinel, open_state, is, find_as, as_outcome, as_open}
use ocihood.Breaker.{Gate, Verdict}
use ocihood.Breaker.Transparency.{IsForeign}

-- A gate that is closed until a call fails, and then stays open.
abbrev if_open : Bool → Option Sentinel
if_open true = some open_state
if_open false = none

abbrev pub one_failure : Gate
one_failure = record {
  State = Bool;
  admit = λ open_now. (if_open open_now, open_now);
  settle = λ v open_now. elim v [
    | Verdict.success ↦ open_now
    | Verdict.failed ↦ true
    | Verdict.excluded ↦ open_now
  ];
}

abbrev pub a_fault : Err
a_fault = message "no capacity"

pub a_fault-IsForeign : IsForeign a_fault
unfolding is find_as as_outcome as_open
a_fault-IsForeign = record {
  not_nil = refl;
  not_open_state = refl;
  not_too_many = refl;
  not_marked = refl;
  not_open = refl;
}
