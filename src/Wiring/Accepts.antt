-- ===== src/Wiring/Accepts.antt =====
-- cmd/ocihood/main.go: the checks that its arguments meet in the components.
use ocihood.Base.{
  ℕ, ◌<◌, ◌^◌, String, Bool, true, false, ◌≡◌, ◌≢◌, refl, none, List, [], ◌∷◌, arith, str_eq, ℤ,
  pos, negsuc, length, ◌^^◌,
}
use ocihood.Base.Hex.{append_nonempty, prepend_nonempty}
use ocihood.Capacity.{WatchState, Float64, validate}
use ocihood.Launch.Poll.{is_ready}
use ocihood.Reconcile.{Decision}
use ocihood.Config.{Effective}
use ocihood.Config.Ranges.{In, InRange}
use ocihood.Config.Safety.{IsSound}
use ocihood.Breaker.{new_fault}
use ocihood.Discovery.{Discovered}
use ocihood.Wiring.{uint32, new_circuit_fault, watcher_config, watch_input, launch_input}

uint32-small : (hi : ℕ) (n : ℤ) → hi < 2 ^ 32 → In (pos 1) (pos hi) n → uint32 n ≡ n
uint32-small hi (pos n) small (lo, up) = ground arith
uint32-small hi (negsuc n) small (lo, up) = absurd (ground arith)

nonempty_length : (xs : List String) → xs ≢ [] → 0 < length xs
nonempty_length [] h = absurd (h refl)
nonempty_length (x ∷ xs) h = omega arith

circuit_accepted : (e : Effective) (family : String) → InRange e → new_circuit_fault e family ≡ none
unfolding new_circuit_fault new_fault
circuit_accepted e family k =
    let named =
      append_nonempty e.account ("/" ^^ e.region ^^ "/" ^^ family)
        (prepend_nonempty "/" (e.region ^^ "/" ^^ family) refl) in
    rw
      (
        uint32-small 100 e.breaker.failures (omega arith) k.0,
        uint32-small 10 e.breaker.half_open_requests (omega arith) k.1,
      )
      (ground (arith, named, k.0, k.1, k.2, k.3))

orchestrator_ready :
    (e : Effective) (d : Discovered) (decision : Decision) (ad ssh_key : String)
    → IsSound e
    → is_ready true (launch_input e d decision ad ssh_key) ≡ true
orchestrator_ready e d decision ad ssh_key sound = ground (arith, sound.in_range, sound.ordered)

watcher_accepted :
    (e : Effective) (d : Discovered) (float : Float64) (jitter : float.F) (resume : WatchState)
    (once : Bool)
    → IsSound e
    → (str_eq d.target_id "" ≡ false)
      × (str_eq d.tenancy_id "" ≡ false)
      × (d.availability_domains ≢ [])
    → (float.lt jitter float.zero ≡ false) × (float.lt float.one jitter ≡ false)
    → validate float true (watcher_config float jitter e) (watch_input e d resume once) ≡ none
unfolding validate
watcher_accepted e d float jitter resume once sound found fine =
    let some_domain = nonempty_length d.availability_domains found.2 in
    ground (arith, sound.in_range, sound.ordered, some_domain)

-- In a sound configuration the circuits, the watcher and the orchestrator are all accepted: `breaker.New`
-- takes the circuit's configuration for every family; the watcher's validation passes for every target
-- that discovery resolved with an id, a tenancy and some availability domain, provided the jitter is no
-- less than zero and no more than one; and the orchestrator is ready.
pub sound_accepted :
    (e : Effective) (d : Discovered) (float : Float64) (jitter : float.F) (resume : WatchState)
    (once : Bool) (decision : Decision) (ad ssh_key family : String)
    → IsSound e
    → (str_eq d.target_id "" ≡ false)
      × (str_eq d.tenancy_id "" ≡ false)
      × (d.availability_domains ≢ [])
    → (float.lt jitter float.zero ≡ false) × (float.lt float.one jitter ≡ false)
    → (new_circuit_fault e family ≡ none)
      × (validate float true (watcher_config float jitter e) (watch_input e d resume once) ≡ none)
      × (is_ready true (launch_input e d decision ad ssh_key) ≡ true)
sound_accepted e d float jitter resume once decision ad ssh_key family sound found fine = (
  circuit_accepted e family sound.in_range,
  watcher_accepted e d float jitter resume once sound found fine,
  orchestrator_ready e d decision ad ssh_key sound,
)
