-- ===== src/Wiring.antt =====
-- cmd/ocihood/main.go: what the main program hands to the watcher, the orchestrator and the circuit
-- breaker, from a configuration and from what discovery resolved.
pub mod Accepts
mod Examples
use ocihood.Base.{
  ℕ, suc, ◌+◌, ◌-◌, ◌^◌, ◌%◌, String, Bool, true, false, Option, none, some, List, [], ◌∷◌, str_eq,
  if◌then◌else◌, ℤ, pos, negsuc, length, value_or, ◌^^◌,
}
use ocihood.Errors.{Err}
use ocihood.Reconcile.{Attempt, Decision}
use ocihood.Capacity
use ocihood.Capacity.{WatchState, Float64}
use ocihood.Launch
use ocihood.Discovery.{Discovered}
use ocihood.Config.{Effective}
use ocihood.Breaker
use ocihood.Breaker.{new_fault}

-- `uint32(n)`
abbrev pub uint32 : ℤ → ℤ
uint32 (pos n) = pos (n % 2 ^ 32)
uint32 (negsuc n) = pos (2 ^ 32 - 1 - n % 2 ^ 32)

abbrev pub circuit_config : Effective → Breaker.Config
circuit_config e = record {
  failures = uint32 e.breaker.failures;
  half_open_requests = uint32 e.breaker.half_open_requests;
  interval = e.breaker.interval;
  open_timeout = e.breaker.open_timeout;
}

-- `newCircuit`; `none`: the circuit is made.
unfoldable pub new_circuit_fault : Effective → String → Option Err
unfolding new_fault
new_circuit_fault e family =
    new_fault (e.account ^^ "/" ^^ e.region ^^ "/" ^^ family) (circuit_config e)

-- The loop over the domains: the watch goes on after the last one with the name that was stored.
unfoldable pub next_after : String → ℕ → ℕ → List String → ℤ → ℤ
next_after last n index [] next = next
next_after last n index (ad ∷ ads) next =
    next_after last n (suc index) ads (if str_eq ad last then pos ((index + 1) % n) else next)

abbrev pub resume_at : List String → WatchState → WatchState
resume_at ads s = record s { next_ad = next_after s.last_ad (length ads) 0 ads s.next_ad }

abbrev pub watcher_config : (float : Float64) → float.F → Effective → Capacity.Config float
watcher_config float jitter e = record {
  request_timeout = e.request_timeout;
  initial_interval = e.retry_min;
  max_interval = e.retry_max;
  jitter = jitter;
}

abbrev pub watch_input : Effective → Discovered → WatchState → Bool → Capacity.Input
watch_input e d resume once = record {
  target_id = d.target_id;
  tenancy_id = d.tenancy_id;
  shape = e.shape;
  availability_domains = d.availability_domains;
  ocpus = e.ocpus;
  memory_gb = e.memory_gb;
  resume = resume_at d.availability_domains resume;
  once = once;
}

-- `&reconcile.Attempt{}`
abbrev pub no_attempt : Attempt
no_attempt = record { id = ""; retry_token = ""; valid_until = 0 }

abbrev pub launch_input : Effective → Discovered → Decision → String → String → Launch.Input
launch_input e d decision ad ssh_key = record {
  request = record {
    target_id = d.target_id;
    account = e.account;
    compartment_id = d.compartment_id;
    availability_domain = ad;
    shape = e.shape;
    image_id = d.image.id;
    subnet_id = d.subnet.id;
    ssh_public_key = ssh_key;
    ocpus = e.ocpus;
    memory_gb = e.memory_gb;
    boot_volume_gb = e.boot_volume_gb;
    public_ip = e.public_ip;
    attempt = value_or no_attempt decision.attempt;
  };
  existing_instance_id = decision.instance_id;
  request_timeout = e.request_timeout;
  retry_min = e.retry_min;
  retry_max = e.retry_max;
}
