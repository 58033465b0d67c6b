-- ===== src/Oci/Reports.antt =====
-- internal/provider/oci/capacity/capacity.go: the adapter of compute capacity reports.
-- `http.ParseTime` and the delay of an error that has a `RetryAfter` method are parameters.
use ocihood.Base.{
  ℕ, String, Bool, true, false, ◌||◌, ◌*◌, Option, none, some, List, [], ◌∷◌, str_eq, if◌then◌else◌,
  leb, ◌==◌, ℤ, pos, negsuc, wrap,
}
use ocihood.Errors.{Err, is, context_canceled, deadline_exceeded, as_service}
use ocihood.Errors.Kinds.{
  CapacityKind, available, unavailable, probe_unavailable, throttled, transient, fatal, canceled,
}
use ocihood.Io.{Result, ok, err}
use ocihood.Time.{before, sub_time, second}
use ocihood.Capacity.{Request, ProbeResult}
use ocihood.Discovery.Version.{atoi}

-- What the report's request asks about: the compartment is the tenancy, for one shape. The SDK does
-- not retry it.
pub record ReportDetails : Type 0 where
  pub compartment_id : String
  pub availability_domain : String
  pub instance_shape : String
  pub ocpus : ℤ
  pub memory_in_gbs : ℤ

-- The answer: the statuses of the shapes or an error, and the header of the raw response where there
-- is one.
pub record ReportAnswer : Type 0 where
  pub statuses : Result (List String)
  pub retry_after_header : Option String
  -- `time.Now()` after the call.
  pub now : ℕ

unfoldable pub report_details : Request → ReportDetails
report_details r = record {
  compartment_id = r.tenancy_id;
  availability_domain = r.availability_domain;
  instance_shape = r.shape;
  ocpus = r.ocpus;
  memory_in_gbs = r.memory_gb;
}

abbrev only : CapacityKind → ProbeResult
only kind = record { kind = kind; retry_after = pos 0 }

module _ (parse_time : String → Option ℕ) (retry_after : Err → ℤ) where
  abbrev pub after_date : Option ℕ → ℕ → ℤ
  after_date none now = pos 0
  after_date (some date) now = if before now date then sub_time date now else pos 0

  unfoldable pub parse_retry_after : String → ℕ → ℤ
  parse_retry_after text now = elim (atoi text) [
    | some (pos seconds) ↦ wrap (pos (seconds * second))
    | some (negsuc _) ↦ after_date (parse_time text) now
    | none ↦ after_date (parse_time text) now
  ]

  unfoldable pub status_result : ℕ → Err → ProbeResult
  status_result status e =
      if status == 429
      then record { kind = throttled; retry_after = retry_after e }
      else if status == 403 || status == 404
      then only probe_unavailable
      else if leb 500 status
      then only transient
      else only fatal

  -- The error is handed on as it is.
  unfoldable pub classify : Err → ProbeResult
  unfolding status_result
  classify e =
      if is context_canceled e
      then only canceled
      else if is deadline_exceeded e
      then only transient
      else elim (as_service e) [ some (status, _) ↦ status_result status e | none ↦ only transient ]

  abbrev is_throttled : CapacityKind → Bool
  is_throttled throttled = true
  is_throttled _ = false

  with_header : ProbeResult → Option String → ℕ → ProbeResult
  unfolding parse_retry_after
  with_header r none now = r
  with_header r (some text) now =
      if is_throttled r.kind then record r { retry_after = parse_retry_after text now } else r

  unfoldable pub status_kind : List String → CapacityKind
  status_kind (s ∷ []) =
      if str_eq s "AVAILABLE"
      then available
      else if str_eq s "OUT_OF_HOST_CAPACITY"
      then unavailable
      else probe_unavailable
  status_kind _ = probe_unavailable

  abbrev answered : Result (List String) → Option String → ℕ → ProbeResult × Option Err
  answered (err e) header now = (with_header (classify e) header now, some e)
  answered (ok statuses) header now = (only (status_kind statuses), none)

  -- `report` is the SDK's call.
  unfoldable pub probe : (ReportDetails → ReportAnswer) → Request → ProbeResult × Option Err
  unfolding with_header report_details classify status_kind
  probe report r =
      let a = report (report_details r) in answered a.statuses a.retry_after_header a.now
