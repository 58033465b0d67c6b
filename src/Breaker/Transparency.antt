-- ===== src/Breaker/Transparency.antt =====
-- internal/breaker/breaker.go: the errors that come back from `Do`.
use ocihood.Base.{String, Bool, true, false, ◌≡◌, refl, Option, none, some, arith, ◌⊎◌}
use ocihood.Errors.{
  Err, nil_error, sentinel, outcome, outer, inner, open_error, Sentinel, open_state,
  too_many_requests, is, as_outcome, as_open, find_as,
}
use ocihood.Breaker.{is_open, failed, excluded, verdict, translate, Gate, call}

-- The error does not come from a circuit breaker.
pub record IsForeign (e : Err) : Type 0 where
  pub not_nil : outer e ≡ some e
  pub not_open_state : is open_state e ≡ false
  pub not_too_many : is too_many_requests e ≡ false
  pub not_marked : as_outcome e ≡ none
  pub not_open : as_open e ≡ none

-- No error, or one that does not come from a circuit breaker.
abbrev pub Foreign : Option Err → Type 0
Foreign none = Unit
Foreign (some e) = IsForeign e

marked-is : (b : Bool) (s : Sentinel) (e : Err) → is s (outcome b e) ≡ is s e
unfolding is find_as
marked-is b s e = refl

outcome-marked : (b : Bool) (e : Err) → as_outcome (outcome b e) ≡ some (b, e)
unfolding as_outcome find_as
outcome-marked b e = refl

nil-is : (s : Sentinel) → is s nil_error ≡ false
unfolding is find_as
nil-is s = refl

pub translate-plain : (name : String) (e : Option Err) → Foreign e → translate name e ≡ e
unfolding translate
translate-plain name none f = refl
translate-plain name (some e) f = ground (arith, f.not_open_state, f.not_too_many, f.not_marked)

pub translate-marked :
    (name : String) (b : Bool) (e : Option Err)
    → Foreign e
    → translate name (some (outcome b (inner e))) ≡ e
unfolding translate
translate-marked name b none f = ground (
  arith,
  marked-is b open_state nil_error,
  marked-is b too_many_requests nil_error,
  nil-is open_state,
  nil-is too_many_requests,
  outcome-marked b nil_error,
)
translate-marked name b (some e) f = ground (
  arith,
  marked-is b open_state e,
  marked-is b too_many_requests e,
  f.not_open_state,
  f.not_too_many,
  outcome-marked b e,
  f.not_nil,
)

pub verdict-marked :
    (b : Bool) (e : Err)
    → verdict (some (outcome b e)) ≡ (elim b [ true ↦ failed | false ↦ excluded ])
unfolding verdict
verdict-marked true e = rw (outcome-marked true e) refl
verdict-marked false e = rw (outcome-marked false e) refl

open_is : is open_state (sentinel open_state) ≡ true
unfolding is find_as
open_is = refl

many_is : is too_many_requests (sentinel too_many_requests) ≡ true
unfolding is find_as
many_is = refl

-- A call that is not admitted is not made: its error is the breaker's own.
pub call_refused :
    (g : Gate) (name : String) (s : g.State) (answer : Option Err) (why : Sentinel)
    → (why ≡ open_state) ⊎ (why ≡ too_many_requests)
    → (g.admit s).0 ≡ some why
    → ((call g name s answer).made ≡ false)
      × ((call g name s answer).error ≡ some (open_error name))
unfolding call translate
call_refused g name s answer why which h = ground (arith, open_is, many_is)

-- A call that is admitted is made, and its outcome is settled.
pub call_admitted :
    (g : Gate) (name : String) (s : g.State) (answer : Option Err)
    → (g.admit s).0 ≡ none
    → ((call g name s answer).made ≡ true)
      × ((call g name s answer).error ≡ translate name answer)
      × ((call g name s answer).after ≡ g.settle (verdict answer) (g.admit s).1)
unfolding call
call_admitted g name s answer h = rw (h, call) (refl, refl, refl)

pub Foreign-closed : (e : Option Err) → Foreign e → is_open e ≡ false
Foreign-closed none f = refl
Foreign-closed (some e) f = rw (f.not_open, is_open) refl

pub open_is_open : (name : String) → is_open (some (open_error name)) ≡ true
unfolding as_open find_as
open_is_open name = refl
