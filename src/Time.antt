-- ===== src/Time.antt =====
-- Points in time (`time.Time`, in nanoseconds from the zero time, which is 0) and durations
-- (`time.Duration`, in nanoseconds).
use ocihood.Base.{ℕ, ◌+◌, ◌-◌, ◌*◌, Bool, ltb, ◌==◌, ℤ, pos_part, neg_part, sub_ℕ}

-- `t.IsZero()`
abbrev pub is_zero : ℕ → Bool
is_zero t = t == 0

-- `t.Before(u)`; `t.After(u)` is `before u t`.
abbrev pub before : ℕ → ℕ → Bool
before t u = ltb t u

-- `t.Add(d)`
abbrev pub add_time : ℕ → ℤ → ℕ
add_time t d = t + pos_part d - neg_part d

-- `t.Sub(u)`, for points in time less than 292 years apart.
abbrev pub sub_time : ℕ → ℕ → ℤ
sub_time t u = sub_ℕ t u

abbrev pub second : ℕ
second = 1_000_000_000

abbrev pub minute : ℕ
minute = 60 * second

abbrev pub hour : ℕ
hour = 60 * minute
