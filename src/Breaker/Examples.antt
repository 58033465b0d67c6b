-- ===== src/Breaker/Examples.antt =====
-- Tests of the circuit breaker.
use ocihood.Base.{false, none, some, ◌≡◌, refl}
use ocihood.Errors.{open_error, is, find_as, as_outcome}
use ocihood.Breaker.{call, verdict, translate, failure}
use ocihood.Breaker.Samples.{one_failure, a_fault}

-- The call that fails is made and its error comes back; the next one is refused.
first_test : (call one_failure "c" false (some (failure (some a_fault)))).error ≡ some a_fault
unfolding call translate verdict is find_as as_outcome
first_test = refl

second_test :
    (call one_failure "c"
      (call one_failure "c" false (some (failure (some a_fault)))).after
      none).error
    ≡ some (open_error "c")
unfolding call translate verdict is find_as as_outcome
second_test = refl
