-- ===== src/Oci/Alive.antt =====
-- internal/provider/oci: which instances count as alive, in the listing of discovery and in the
-- reconciliation of a launch.
use ocihood.Base.{
  ℕ, ◌+◌, String, ◌&&◌, ◌≡◌, ◌↔◌, refl, List, [], ◌∷◌, map, arith, keep, length, eq_iff,
}
use ocihood.Reconcile.{
  Input, Lifecycle, terminated, is_owned, active_owned, unknown_owned, is_active, is_unknown,
}
use ocihood.Oci.{SdkInstance, terminated_state}
use ocihood.Oci.Resources.{lifecycle, of_instance}
use ocihood.Oci.Compute.{is_alive, alive_ids}

pub lifecycle_iff : (s : String) → (lifecycle s ≡ terminated) ↔ (s ≡ terminated_state)
unfolding lifecycle
lifecycle_iff s = ground (arith, eq_iff s terminated_state)

abbrev one_of : Lifecycle → ℕ
one_of terminated = 0
one_of _ = 1

-- An instance counts once for the reconciliation of a launch where it counts for `Decide`.
counts_once :
    (t a : String) (x : SdkInstance)
    → length (keep (is_alive t a) (x ∷ []))
      ≡ length (keep (λ y. is_owned y.tags t a && is_active y.lifecycle) (of_instance x ∷ []))
        + length (keep (λ y. is_owned y.tags t a && is_unknown y.lifecycle) (of_instance x ∷ []))
unfolding lifecycle
counts_once t a x = ground arith

counts :
    (t a : String) (xs : List SdkInstance)
    → length (alive_ids t a xs)
      ≡ length (keep (λ y. is_owned y.tags t a && is_active y.lifecycle) (map of_instance xs))
        + length (keep (λ y. is_owned y.tags t a && is_unknown y.lifecycle) (map of_instance xs))
unfolding alive_ids
counts t a [] = refl
counts t a (x ∷ xs) = ground (arith, counts t a xs, counts_once t a x)

-- The reconciliation of a launch counts as alive, on the SDK's instances, as many as `Decide` takes for
-- active or unknown on what the adapter makes of them.
pub alive_ids-length :
    (i : Input) (xs : List SdkInstance)
    → i.instances ≡ map of_instance xs
    → length (alive_ids i.target_id i.account xs)
      ≡ length (active_owned i) + length (unknown_owned i)
alive_ids-length i xs same = rw same (counts i.target_id i.account xs)
