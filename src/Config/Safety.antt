-- ===== src/Config/Safety.antt =====
-- internal/config/config.go: the configurations that `Resolve` and `ApplyOverrides` return.
use ocihood.Base.{
  String, false, ◌&&◌, not, ◌≡◌, ◌≢◌, refl, none, some, List, [], ◌∷◌, arith, str_eq, lt_int,
  lookup, Bool-cases, Option-cases, inl, inr, ◌^^◌,
}
use ocihood.Base.{join_path_nonempty}
use ocihood.Io.{Result, ok, Result-cases}
use ocihood.Config.{Overrides, Account, File, Effective, apply}
use ocihood.Config.Validate.{validate_settings}
use ocihood.Config.Resolve.{
  built_in, with_account, lacks_telegram, checked, resolve, account_fault, accounts_fault, validate,
  overridden, override_checked, apply_overrides,
}
use ocihood.Config.Ranges.{InRange, apply-InRange, or_else-none}

-- In range, with ordered retry delays, and with all that enabled notifications need.
pub record IsSound (e : Effective) : Type 0 where
  pub in_range : InRange e
  pub ordered : lt_int e.retry_max e.retry_min ≡ false
  pub complete : lacks_telegram e.notifications ≡ false

-- No target is named both by id and by name.
abbrev pub IsSingle : String → String → Type 0
IsSingle id name = (not (str_eq id "") && not (str_eq name "")) ≡ false

override_checked_ok :
    (e e' : Effective)
    → override_checked e ≡ ok e'
    → (e' ≡ e)
      × (lt_int e.retry_max e.retry_min ≡ false)
      × (lacks_telegram e.notifications ≡ false)
      × IsSingle e.vcn_id e.vcn_name
      × IsSingle e.subnet_id e.subnet_name
unfolding override_checked
override_checked_ok e e' h = (ground arith, ground arith, ground arith, ground arith, ground arith)

-- Overrides that are accepted leave a sound configuration sound, and one that names the network and
-- the subnet each by its id or its name, not both.
pub apply_overrides-IsSound :
    (e e' : Effective) (o : Overrides)
    → InRange e
    → apply_overrides e o ≡ ok e'
    → IsSound e' × IsSingle e'.vcn_id e'.vcn_name × IsSingle e'.subnet_id e'.subnet_name
unfolding apply_overrides
apply_overrides-IsSound e e' o sound h =
    elim (Option-cases (validate_settings "CLI overrides" o.settings)) [
      | inr (f, bad) ↦ absurd (ground arith)
      | inl fine ↦
          let k = apply-InRange "CLI overrides" o.settings e fine sound in
          let (same, ordered, complete, vcn, subnet) =
            override_checked_ok (overridden o (apply o.settings e)) e' (ground arith) in
          rw same (record { in_range = k; ordered = ordered; complete = complete }, vcn, subnet)
    ]

checked_ok :
    (name : String) (e e' : Effective)
    → checked name e ≡ ok e'
    → (e' ≡ e) × (lt_int e.retry_max e.retry_min ≡ false) × (lacks_telegram e.notifications ≡ false)
unfolding checked
checked_ok name e e' h = (ground arith, ground arith, ground arith)

module _ (user_config_dir user_home_dir : Result String) where
  account_checked :
      (f : File) (name : String) (a : Account)
      → account_fault user_config_dir user_home_dir f name a ≡ none
      → validate_settings ("account " ^^ name ^^ " overrides") a.overrides ≡ none
  unfolding account_fault
  account_checked f name a h = ground arith

  accounts_checked :
      (f : File) (xs : List (String × Account)) (name : String) (a : Account)
      → accounts_fault user_config_dir user_home_dir f xs ≡ none
      → lookup name xs ≡ some a
      → (scope : String) × (validate_settings scope a.overrides ≡ none)
  unfolding lookup
  accounts_checked f [] name a h k = absurd (ground arith)
  accounts_checked f ((n, b) ∷ xs) name a h k =
      let (one, rest) = or_else-none (account_fault user_config_dir user_home_dir f n b) _ h in
      elim (Bool-cases (str_eq n name)) [
        | inl same ↦
            let e : b ≡ a = ground arith in
            ("account " ^^ n ^^ " overrides", let fine = account_checked f n b one in rw e at fine)
        | inr other ↦ accounts_checked f xs name a rest (ground arith)
      ]

  resolved :
      (f : File) (name : String) (a : Account) (e : Effective)
      → lookup name f.accounts ≡ some a
      → resolve user_config_dir user_home_dir f name ≡ ok e
      → (home dir : String) × (checked name
            (with_account a (apply a.overrides (apply f.defaults (built_in home dir name))))
          ≡ ok e)
  unfolding resolve
  resolved f name a e found h = elim (Result-cases user_config_dir) [
    | inr (x, bad) ↦ absurd (ground arith)
    | inl (dir, at_dir) ↦ elim (Result-cases user_home_dir) [
      | inr (x, bad) ↦ absurd (ground arith)
      | inl (home, at_home) ↦ (home, dir, ground arith)
    ]
  ]

  defaults_checked :
      (f : File)
      → validate user_config_dir user_home_dir f ≡ none
      → (validate_settings "defaults" f.defaults ≡ none)
        × (accounts_fault user_config_dir user_home_dir f f.accounts ≡ none)
  unfolding validate
  defaults_checked f h = (ground arith, ground arith)

  undefined_fails :
      (f : File) (name : String) (e : Effective)
      → lookup name f.accounts ≡ none
      → resolve user_config_dir user_home_dir f name ≢ ok e
  unfolding resolve
  undefined_fails f name e missing = λ h. ground arith

  pub built_in-InRange : (home dir name : String) → InRange (built_in home dir name)
  built_in-InRange home dir name = (
    (refl, refl),
    (refl, refl),
    (refl, refl),
    (refl, refl),
    refl,
    refl,
    refl,
    refl,
    refl,
    refl,
    refl,
    join_path_nonempty dir _ (inr (join_path_nonempty "ocihood" _ (inl refl))),
    join_path_nonempty dir _ (inr (join_path_nonempty "ocihood" _ (inl refl))),
    refl,
    refl,
    refl,
  )

  -- In a file that `Validate` accepts, every account that resolves resolves to a sound configuration:
  -- its delays, sizes and breaker settings are in range, the shortest retry delay does not exceed the
  -- longest, and notifications that are enabled have a chat and the name of a token variable.
  pub resolve-IsSound :
      (f : File) (name : String) (e : Effective)
      → validate user_config_dir user_home_dir f ≡ none
      → resolve user_config_dir user_home_dir f name ≡ ok e
      → IsSound e
  resolve-IsSound f name e h k = elim (Option-cases (lookup name f.accounts)) [
    | inl missing ↦ absurd (undefined_fails f name e missing k)
    | inr (a, found) ↦
        let (defaults_fine, accounts_fine) = defaults_checked f h in
        let (scope, fine) = accounts_checked f f.accounts name a accounts_fine found in
        let (home, dir, last) = resolved f name a e found k in
        let applied = apply f.defaults (built_in home dir name) in
        let in_range = apply-InRange scope a.overrides applied fine (
          apply-InRange "defaults" f.defaults (built_in home dir name) defaults_fine
            (built_in-InRange home dir name)) in
        let (same, ordered, complete) =
          checked_ok name (with_account a (apply a.overrides applied)) e last in
        rw same (record { in_range = in_range; ordered = ordered; complete = complete })
  ]
