-- ===== src/Oci/Compute.antt =====
-- internal/provider/oci/launch/launch.go: the adapter to the launch contract. The listing of
-- `Reconcile` has at most `fuel` pages; with more it is still going. The sizes stay integers, which
-- `float32` holds exactly up to 2^24.
use ocihood.Base.{
  ℕ, zero, suc, String, Bool, true, false, not, ◌&&◌, ◌||◌, Option, none, some, List, [], ◌∷◌, ◌++◌,
  str_eq, if◌then◌else◌, leb, ◌==◌, contains, to_lower, ℤ, pos, keep, map,
}
use ocihood.Errors.{
  Err, message, launch_error, is, context_canceled, deadline_exceeded, as_service, as_network,
}
use ocihood.Errors.Kinds.{
  LaunchKind, accepted, out_of_capacity, transient, ambiguous, fatal, limit_exceeded, canceled,
}
use ocihood.Io.{Result, ok, err, Io}
use ocihood.Reconcile.{Tags, is_owned, ownership_tags}
use ocihood.Launch.{Request, Instance, LaunchResult}
use ocihood.Launch.Guarded.{no_instance, no_result}
use ocihood.Oci.{value, Response, SdkInstance, terminated_state}

-- `core.LaunchInstanceRequest`, which is sent without retries of the SDK.
pub record LaunchDetails : Type 0 where
  pub opc_retry_token : String
  pub availability_domain : String
  pub compartment_id : String
  pub shape : String
  pub ocpus : ℤ
  pub memory_in_gbs : ℤ
  pub image_id : String
  pub boot_volume_size_in_gbs : ℤ
  pub subnet_id : String
  pub assign_public_ip : Bool
  pub metadata : Tags
  pub freeform_tags : Tags

-- `computeClient` and `networkClient`.
pub record Clients (W : Type 0) : Type 0 where
  pub launch_instance : LaunchDetails → Io W SdkInstance
  pub get_instance : String → Io W SdkInstance
  pub list_instances : String → Option String → Io W (Response SdkInstance)
  -- The ids of the attached network interfaces.
  pub list_vnic_attachments : String → String → Io W (List (Option String))
  -- The public address of one.
  pub get_vnic : String → Io W (Option String)

unfoldable pub service_kind : ℕ → String → LaunchKind
service_kind status code =
    let c = to_lower code in
    if contains c "outofhostcapacity" || contains c "capacity"
    then out_of_capacity
    else if contains c "limitexceeded"
    then limit_exceeded
    else if status == 429 || leb 500 status
    then transient
    else fatal

unfoldable pub classify : Err → LaunchKind
unfolding service_kind
classify e =
    if is context_canceled e
    then canceled
    else if is deadline_exceeded e
    then ambiguous
    else elim (as_service e) [
      | some (status, code) ↦ service_kind status code
      | none ↦ elim (as_network e) [
        | some timeout ↦ if timeout then ambiguous else transient
        | none ↦ transient
      ]
    ]

unfoldable pub details : Request → LaunchDetails
details i = record {
  opc_retry_token = i.attempt.retry_token;
  availability_domain = i.availability_domain;
  compartment_id = i.compartment_id;
  shape = i.shape;
  ocpus = i.ocpus;
  memory_in_gbs = i.memory_gb;
  image_id = i.image_id;
  boot_volume_size_in_gbs = i.boot_volume_gb;
  subnet_id = i.subnet_id;
  assign_public_ip = i.public_ip;
  metadata = ("ssh_authorized_keys", i.ssh_public_key) ∷ [];
  freeform_tags = ownership_tags i.target_id i.account;
}

abbrev instance_of : SdkInstance → Instance
instance_of x = record { id = value x.id; state = x.lifecycle_state; public_ip = "" }

-- A result comes with an error, and is read before it.
launched : Result SdkInstance → LaunchResult × Option Err
unfolding classify
launched (err e) = (no_result (classify e), some e)
launched (ok x) = (record { kind = accepted; instance = instance_of x; retry_after = pos 0 }, none)

-- The ids of the instances on a page that are not terminated and carry the target's tags.
abbrev pub is_alive : String → String → SdkInstance → Bool
is_alive target_id account x =
    not (str_eq x.lifecycle_state terminated_state) && is_owned x.freeform_tags target_id account

unfoldable pub alive_ids : String → String → List SdkInstance → List String
alive_ids target_id account xs = map (λ x. value x.id) (keep (is_alive target_id account) xs)

module _ {W : Type 0} (c : Clients W) where
  unfoldable pub launch : Request → W → (LaunchResult × Option Err) × W
  unfolding launched details
  launch i w = let (r, v) = c.launch_instance (details i) w in (launched r, v)

  on_vnic : Result (Option String) × W → (W → String × W) → String × W
  on_vnic (ok (some ip), w) next = (ip, w)
  on_vnic (ok none, w) next = next w
  on_vnic (err e, w) next = next w

  -- The first public address of the attached interfaces.
  unfoldable pub public_ip_of : List (Option String) → W → String × W
  unfolding on_vnic
  public_ip_of [] w = ("", w)
  public_ip_of (none ∷ vnics) w = public_ip_of vnics w
  public_ip_of (some id ∷ vnics) w = on_vnic (c.get_vnic id w) (public_ip_of vnics)

  -- A failure to list the interfaces leaves the address empty.
  with_address : SdkInstance → Result (List (Option String)) × W → Result Instance × W
  unfolding public_ip_of
  with_address x (err e, w) = (ok (instance_of x), w)
  with_address x (ok vnics, w) =
      let (ip, v) = public_ip_of vnics w in (ok (record (instance_of x) { public_ip = ip }), v)

  got : String → String → Result SdkInstance × W → Result Instance × W
  unfolding with_address
  got compartment_id id (err e, w) = (err (launch_error (classify e) e), w)
  got compartment_id id (ok x, w) = with_address x (c.list_vnic_attachments compartment_id id w)

  unfoldable pub get : String → String → Io W Instance
  unfolding got
  get compartment_id id w = got compartment_id id (c.get_instance id w)

  -- What follows a page, with the rest of the loop as `again`.
  on_list :
      Request
      → List String
      → (Option String → List String → W → Option (Result (List String) × W))
      → Result (Response SdkInstance) × W
      → Option (Result (List String) × W)
  on_list i found again (err e, w) = some (err (launch_error (classify e) e), w)
  on_list i found again (ok r, w) =
      let found' = found ++ alive_ids i.target_id i.account r.items in
      elim r.opc_next_page [ none ↦ some (ok found', w) | some token ↦ again (some token) found' w ]

  unfoldable pub list_owned :
      Request → ℕ → Option String → List String → W → Option (Result (List String) × W)
  unfolding on_list
  list_owned i zero page found w = none
  list_owned i (suc fuel) page found w =
      on_list i found (list_owned i fuel) (c.list_instances i.compartment_id page w)

  -- The instance, whether it was found, and the error.
  abbrev pub Found : Type 0
  Found = (Instance × Bool) × Option Err

  unfoldable pub got_found : Result Instance × W → Found × W
  got_found (ok x, w) = (((x, true), none), w)
  got_found (err e, w) = (((no_instance, false), some e), w)

  abbrev pub several : Err
  several =
      launch_error fatal
        (message "multiple managed instances found while reconciling service limit")

  unfoldable pub among : String → List String → W → Found × W
  unfolding got_found
  among compartment_id [] w = (((no_instance, false), none), w)
  among compartment_id (id ∷ []) w = got_found (get compartment_id id w)
  among compartment_id (a ∷ b ∷ ids) w = (((no_instance, false), some several), w)

  unfoldable pub after_list : String → Option (Result (List String) × W) → Option (Found × W)
  unfolding among
  after_list compartment_id none = none
  after_list compartment_id (some (err e, w)) = some (((no_instance, false), some e), w)
  after_list compartment_id (some (ok ids, w)) = some (among compartment_id ids w)

  unfoldable pub reconcile : ℕ → Request → W → Option (Found × W)
  unfolding after_list list_owned
  reconcile fuel i w = after_list i.compartment_id (list_owned i fuel none [] w)
