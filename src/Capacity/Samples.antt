-- ===== src/Capacity/Samples.antt =====
-- A stand-in for floating-point numbers: natural numbers in percent.
use ocihood.Base.{ℕ, ltb, pos_part, ◌+◌, ◌-◌, ◌*◌, ◌/◌, pos}
use ocihood.Capacity.{Float64}

abbrev pub percent : Float64
percent = record {
  F = ℕ;
  zero = 0;
  one = 100;
  two = 200;
  add = λ a b. a + b;
  sub = λ a b. a - b;
  mul = λ a b. a * b / 100;
  lt = ltb;
  of_duration = pos_part;
  to_duration = λ x. pos x;
}
