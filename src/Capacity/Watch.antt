-- ===== src/Capacity/Watch.antt =====
-- internal/capacity/capacity.go: `Watch`. What the client, the store, the sleeper, the clock and the
-- context answer is given round by round; what the watcher asks of them is the list of effects. Where
-- the rounds run out the watcher still waits.
use ocihood.Base.{
  ℕ, ◌+◌, ◌%◌, String, Bool, false, ◌&&◌, ◌||◌, not, Option, none, some, List, [], ◌∷◌, ◌++◌,
  if◌then◌else◌, ℤ, pos, lt_int, le_int, eq_int, pos_part, increment, length, get_elem?, value_or,
  ◌^^◌, str_eq,
}
use ocihood.Errors.{Err, message, wrapped, deadline_exceeded, is, inner, capacity_error}
use ocihood.Errors.Kinds.{
  CapacityKind, available, unavailable, probe_unavailable, throttled, transient, fatal, canceled,
  other,
}
use ocihood.Io.{Result, ok, err}
use ocihood.Time.{is_zero, before, add_time, sub_time}
use ocihood.Capacity.{
  Request, ProbeResult, WatchState, Input, CapacityResult, Float64, Config, backoff, validate,
  canceled_error,
}

pub data Effect : Type 0 where
  probed : Request → Effect
  saved : WatchState → Effect
  slept : ℤ → Effect

-- Where a round leads: to the next one, or out of `Watch`.
pub data WatchStep : Type 0 where
  again : WatchState → WatchStep
  stop : Result CapacityResult → WatchStep

-- `AvailabilityDomains[n]`; the index is always in range.
abbrev pub ad_at : List String → ℤ → String
ad_at ads n = value_or "" (get_elem? ads (pos_part n))

abbrev pub next_index : List String → ℤ → ℤ
next_index ads n = pos ((pos_part n + 1) % length ads)

abbrev pub request_for : Input → String → Request
request_for i ad = record {
  tenancy_id = i.tenancy_id;
  availability_domain = ad;
  shape = i.shape;
  ocpus = i.ocpus;
  memory_gb = i.memory_gb;
}

abbrev persist_error : String → String → Err → WatchStep
persist_error label ad e = stop (err (capacity_error fatal ad (wrapped label e)))

abbrev pub settled : WatchState → String → CapacityKind → WatchState
settled s ad kind = record s { last_ad = ad; status = kind; next_attempt = 0 }

-- Capacity, or a probe that cannot tell: the progress is saved, and the watcher is done.
unfoldable pub found : WatchState → String → CapacityKind → Option Err → List Effect × WatchStep
found s ad kind none =
    (saved (settled s ad kind) ∷ [], stop (ok (record { kind = kind; availability_domain = ad })))
found s ad kind (some e) =
    (saved (settled s ad kind) ∷ [], persist_error "persist watcher state" ad e)

unfoldable pub on_fatal : WatchState → String → Option Err → Option Err → List Effect × WatchStep
on_fatal s ad cause none =
    (saved (settled s ad fatal) ∷ [], stop (err (capacity_error fatal ad (inner cause))))
on_fatal s ad cause (some e) =
    (saved (settled s ad fatal) ∷ [], persist_error "persist fatal watcher state" ad e)

-- The end of the one cycle of `--once`.
unfoldable pub end_cycle : WatchState → String → Option Err → List Effect × WatchStep
end_cycle s ad none =
    (saved s ∷ [], stop (ok (record { kind = unavailable; availability_domain = "" })))
end_cycle s ad (some e) = (saved s ∷ [], persist_error "persist watcher state" ad e)

-- The progress is saved, then the watcher sleeps.
unfoldable pub wait : WatchState → String → ℤ → Option Err → Option Err → List Effect × WatchStep
wait s ad delay (some e) _ = (saved s ∷ [], persist_error "persist watcher state" ad e)
wait s ad delay none none = (saved s ∷ slept delay ∷ [], again s)
wait s ad delay none (some e) = (saved s ∷ slept delay ∷ [], stop (err (canceled_error (some e))))

abbrev is_unset : CapacityKind → Bool
is_unset (other s) = str_eq s ""
is_unset _ = false

-- The result and the error of the probe once the request's deadline is taken into account.
abbrev deadline_hit : Option Err → Bool
deadline_hit none = false
deadline_hit (some e) = is deadline_exceeded e

abbrev default_kind : Option Err → CapacityKind → CapacityKind
default_kind none k = k
default_kind (some _) k = if is_unset k then transient else k

module _ (float : Float64) (c : Config float) (i : Input) where
  -- The answers to one round.
  pub record Round : Type 0 where
    pub probe : ProbeResult
    pub error : Option Err
    -- `requestCtx.Err()`
    pub request_error : Option Err
    -- `ctx.Err()` after the probe.
    pub ctx_error : Option Err
    pub save_error : Option Err
    pub random : float.F
    pub now : ℕ
    pub sleep_error : Option Err

  abbrev pub probe_kind : Round → CapacityKind
  probe_kind r =
      if deadline_hit r.request_error then transient else default_kind r.error r.probe.kind

  abbrev pub probe_error : Round → Option Err
  probe_error r = if deadline_hit r.request_error then r.request_error else r.error

  abbrev pub delay_of : ℤ → Round → ℤ
  delay_of retry r =
      let delay = backoff float c retry r.random in
      if lt_int delay r.probe.retry_after then r.probe.retry_after else delay

  abbrev pub advanced : WatchState → String → CapacityKind → WatchState
  advanced s ad kind = record s {
    last_ad = ad;
    status = kind;
    next_ad = next_index i.availability_domains s.next_ad;
  }

  abbrev pub delayed : WatchState → Round → WatchState
  delayed s r =
      let retry = increment s.retry_count in
      record s { retry_count = retry; next_attempt = add_time r.now (delay_of retry r) }

  unfoldable pub no_capacity : ℤ → WatchState → String → Round → List Effect × WatchStep
  no_capacity start s ad r =
      if i.once && eq_int s.next_ad start
      then end_cycle (record s { next_attempt = 0 }) ad r.save_error
      else if i.once
      then ([], again s)
      else if not (eq_int s.next_ad (pos 0)) && le_int r.probe.retry_after (pos 0)
      then ([], again s)
      else wait (delayed s r) ad (delay_of (increment s.retry_count) r) r.save_error r.sleep_error

  unfoldable pub on_kind : ℤ → WatchState → String → Round → CapacityKind → List Effect × WatchStep
  on_kind start s ad r available = found s ad available r.save_error
  on_kind start s ad r probe_unavailable = found s ad probe_unavailable r.save_error
  on_kind start s ad r fatal = on_fatal s ad (probe_error r) r.save_error
  on_kind start s ad r canceled = ([], stop (err (canceled_error (probe_error r))))
  on_kind start s ad r unavailable = no_capacity start (advanced s ad unavailable) ad r
  on_kind start s ad r throttled = no_capacity start (advanced s ad throttled) ad r
  on_kind start s ad r transient = no_capacity start (advanced s ad transient) ad r
  on_kind start s ad r (other k) =
      ([], stop (err (capacity_error fatal ad (message ("unknown probe result " ^^ k)))))

  unfoldable pub round_body : ℤ → WatchState → Round → Option Err → List Effect × WatchStep
  round_body start s r (some e) = ([], stop (err (canceled_error (some e))))
  round_body start s r none =
      on_kind start s (ad_at i.availability_domains s.next_ad) r (probe_kind r)

  unfoldable pub watch_round : ℤ → WatchState → Round → List Effect × WatchStep
  watch_round start s r =
      let (es, step) = round_body start s r r.ctx_error in
      (probed (request_for i (ad_at i.availability_domains s.next_ad)) ∷ es, step)

  -- `none`: the rounds ran out.
  unfoldable pub watch_loop :
      ℤ → WatchState → List Round → List Effect × Option (Result CapacityResult)
  watch_loop start s [] = ([], none)
  watch_loop start s (r ∷ rs) =
      let (es, step) = watch_round start s r in
      elim step [
        | again t ↦ let (fs, later) = watch_loop start t rs in (es ++ fs, later)
        | stop x ↦ (es, some x)
      ]

  -- The clock at the two reads before the loop, and the answer of the first sleep.
  pub record Start : Type 0 where
    pub tested : ℕ
    pub now : ℕ
    pub sleep_error : Option Err

  abbrev out_of_range : ℤ → Bool
  out_of_range n = lt_int n (pos 0) || le_int (pos (length i.availability_domains)) n

  abbrev pub initial : WatchState
  initial = record i.resume {
    target_id = i.target_id;
    next_ad = if out_of_range i.resume.next_ad then pos 0 else i.resume.next_ad;
  }

  -- Whether a persisted delay has not passed yet.
  abbrev pub must_wait : Start → Bool
  must_wait t =
      not i.once && not (is_zero i.resume.next_attempt) && before t.tested i.resume.next_attempt

  abbrev from_start : List Round → List Effect × Option (Result CapacityResult)
  from_start rs = watch_loop initial.next_ad initial rs

  resume_sleep : Start → List Round → Option Err → List Effect × Option (Result CapacityResult)
  resume_sleep t rs (some e) =
      (slept (sub_time i.resume.next_attempt t.now) ∷ [], some (err (canceled_error (some e))))
  resume_sleep t rs none =
      let (es, x) = from_start rs in (slept (sub_time i.resume.next_attempt t.now) ∷ es, x)

  unfoldable pub watch : Bool → Start → List Round → List Effect × Option (Result CapacityResult)
  unfolding resume_sleep
  watch complete t rs = elim (validate float complete c i) [
    | some e ↦ ([], some (err (capacity_error fatal "" e)))
    | none ↦ if must_wait t then resume_sleep t rs t.sleep_error else from_start rs
  ]
