-- ===== src/Reconcile/Ownership.antt =====
-- internal/reconcile/reconcile.go: `OwnershipTags` and `IsOwned`.
use ocihood.Base.{String, ◌≡◌, ◌↔◌, true, arith, eq_iff}
use ocihood.Reconcile.{
  Tags, tag, managed_tag, target_id_tag, account_tag, normal_account, ownership_tags, is_owned,
}

-- An instance is owned exactly when its tags hold the three values of the contract: "true", the
-- target's id, and the trimmed account in lower case.
pub is_owned_iff :
    (tags : Tags) (target_id account : String)
    → (is_owned tags target_id account ≡ true) ↔ (
        (tag tags managed_tag ≡ "true")
        × (tag tags target_id_tag ≡ target_id)
        × (tag tags account_tag ≡ normal_account account))
unfolding is_owned
is_owned_iff tags target_id account = ground (
  arith,
  eq_iff (tag tags managed_tag) "true",
  eq_iff (tag tags target_id_tag) target_id,
  eq_iff (tag tags account_tag) (normal_account account),
)

-- The tags that one target's launch writes are recognised for a target and an account exactly when
-- the target's id is the same and the accounts agree up to surrounding space and case.
pub is_owned-ownership_tags :
    (t u a b : String)
    → (is_owned (ownership_tags t a) u b ≡ true) ↔ ((t ≡ u) × (normal_account a ≡ normal_account b))
unfolding is_owned
is_owned-ownership_tags t u a b =
    ground (arith, eq_iff t u, eq_iff (normal_account a) (normal_account b))
