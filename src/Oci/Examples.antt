-- ===== src/Oci/Examples.antt =====
-- Tests and witnesses of the provider's adapters.
use ocihood.Base.{
  contains, trim_space, to_lower, ℕ, String, ◌≡◌, ◌⊎◌, ◌↔◌, false, true, refl, none, some, List, [],
  ◌∷◌, ◌+◌, arith, pos, inr,
}
use ocihood.Errors.{Err, service, is, context_canceled, deadline_exceeded, as_service}
use ocihood.Errors.Kinds.{transient, ambiguous}
use ocihood.Io.{ok}
use ocihood.Reconcile
use ocihood.Reconcile.{ownership_tags, active_owned, unknown_owned, decide}
use ocihood.Reconcile.Safety.{Launches}
use ocihood.Launch.{Request, Instance}
use ocihood.Oci.{SdkInstance, terminated_state}
use ocihood.Oci.Compute.{Clients, classify, alive_ids, get, reconcile}
use ocihood.Oci.Kinds.{IsOverloaded, classify_iff}
use ocihood.Oci.Owned.{Listing, observed, reconcile_found}
use ocihood.Discovery.Version.{atoi}

abbrev ours : SdkInstance
ours = record {
  id = some "i1";
  lifecycle_state = "RUNNING";
  freeform_tags = ownership_tags "t1" "home";
}

abbrev ended : SdkInstance
ended = record ours { id = some "i2"; lifecycle_state = terminated_state }

abbrev foreign : SdkInstance
foreign = record ours { id = some "i3"; freeform_tags = [] }

abbrev overloaded : Err
overloaded = service 503 "ServiceUnavailable" "try later"

overloaded_test : IsOverloaded overloaded
unfolding as_service contains to_lower
overloaded_test = (503, "ServiceUnavailable", refl, (refl, refl, refl), inr (omega arith))

classify_iff_example : ((classify overloaded ≡ transient) ⊎ (classify overloaded ≡ ambiguous)) ↔ (
    (is context_canceled overloaded ≡ false)
    × ((is deadline_exceeded overloaded ≡ true)
        ⊎ (as_service overloaded ≡ none)
        ⊎ IsOverloaded overloaded))
classify_iff_example = classify_iff overloaded

seconds_test : atoi "120" ≡ some (pos 120)
unfolding atoi
seconds_test = refl

abbrev request : Request
request = record {
  target_id = "t1";
  account = "home";
  compartment_id = "c1";
  availability_domain = "ad-1";
  shape = "A1";
  image_id = "img";
  subnet_id = "s1";
  ssh_public_key = "key";
  ocpus = pos 4;
  memory_gb = pos 24;
  boot_volume_gb = pos 50;
  public_ip = true;
  attempt = record { id = "a1"; retry_token = "a1b2"; valid_until = 100 };
}

-- The listing has two pages, and the instance one interface with an address.
abbrev clients : Clients ℕ
clients = record {
  launch_instance = λ details calls. (ok ours, calls + 1);
  get_instance = λ id calls. (ok ours, calls + 1);
  list_instances = λ compartment page calls. (
    ok (elim page [
      | none ↦ record { items = ended ∷ foreign ∷ []; opc_next_page = some "p2" }
      | some token ↦ record { items = ours ∷ []; opc_next_page = none }
    ]),
    calls + 1,
  );
  list_vnic_attachments = λ compartment id calls. (ok (none ∷ some "v1" ∷ []), calls + 1);
  get_vnic = λ id calls. (ok (some "192.0.2.1"), calls + 1);
}

abbrev running : Instance
running = record { id = "i1"; state = "RUNNING"; public_ip = "192.0.2.1" }

reconcile_test : reconcile clients 2 request 0 ≡ some (((running, true), none), 5)
unfolding reconcile alive_ids Reconcile.is_owned to_lower trim_space get
reconcile_test = refl

reconcile_found_example :
    (xs : List SdkInstance) × (u : ℕ) × (id : String) × Listing clients request none 0 xs u
    × (alive_ids "t1" "home" xs ≡ id ∷ [])
    × (get clients "c1" id u ≡ (ok running, 5))
    × ¬ Launches (decide (observed clients request xs none 100)).kind
reconcile_found_example = reconcile_found clients request 2 0 running none 5 none 100 reconcile_test
