-- ===== src/Reconcile/Examples.antt =====
-- Tests and witnesses of the reconciliation.
use mathlib.Core.List.{Permᴰ}
use ocihood.Base.{trim_space, to_lower, ◌≡◌, refl, inl, none, [], ◌∷◌}
use ocihood.Reconcile.{
  Tags, tag, managed_tag, target_id_tag, account_tag, ownership_tags, is_owned, Attempt, Instance,
  active, terminated, Input, decide, active_owned, unknown_owned,
}
use ocihood.Reconcile.Safety.{NoneAlive, IsAlone, decide-NoneAlive, decide-satisfied}
use ocihood.Reconcile.Order.{decide-Perm}

abbrev tags : Tags
tags = (managed_tag, "true") ∷ (target_id_tag, "t1") ∷ (account_tag, "home") ∷ []

abbrev gone : Instance
gone = record { id = "i1"; lifecycle = terminated; tags = tags }

abbrev alive : Instance
alive = record { id = "i2"; lifecycle = active; tags = tags }

abbrev an_attempt : Attempt
an_attempt = record { id = "a1"; retry_token = "a1b2"; valid_until = 500 }

abbrev first_run : Input
first_run = record {
  target_id = "t1";
  account = " Home ";
  state = none;
  instances = gone ∷ [];
  now = 100;
}

abbrev running_one : Input
running_one = record first_run { instances = gone ∷ alive ∷ [] }

decide-NoneAlive_example : NoneAlive first_run
unfolding decide is_owned tag ownership_tags to_lower trim_space
decide-NoneAlive_example = decide-NoneAlive first_run (inl refl)

decide-satisfied_example :
    (x : Instance) × (active_owned running_one ≡ x ∷ [])
    × (unknown_owned running_one ≡ [])
    × ((decide running_one).instance_id ≡ x.id)
    × IsAlone "t1" " Home " running_one.instances x
unfolding decide is_owned tag ownership_tags to_lower trim_space
decide-satisfied_example = decide-satisfied running_one refl

decide-Perm_example :
    decide (record running_one { instances = alive ∷ gone ∷ [] }) ≡ decide running_one
decide-Perm_example = decide-Perm running_one (alive ∷ gone ∷ []) ∣ Permᴰ.swap refl refl ∣₁
