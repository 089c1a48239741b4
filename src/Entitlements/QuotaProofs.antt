-- ===== src/Entitlements/QuotaProofs.antt =====
-- Quota checks of src/entitlements/entitlements.service.ts, and the usage after the request.
use legacy_made_api.Prelude.{ℕ, ◌+◌, ◌≤◌, ◌≡◌, ◌∷◌, arith, Text, truthy, Option-cases, inl, inr}
use legacy_made_api.Prelude.Results.{ok}
use legacy_made_api.Schema.{Item, File, TrustedContact, Db, Session, bypassing, SubscriptionTier}
use legacy_made_api.DbService.{Cls}
use legacy_made_api.Entitlements.Types.{QuotaFeature, at_most}
use legacy_made_api.Entitlements.Config.{tier_config}
use legacy_made_api.Entitlements.Evaluate.{evaluate_quota}
use legacy_made_api.Entitlements.Usage.{count_usage, ceil_mb}
use legacy_made_api.Entitlements.Service.{
  get_tier_in_tx, get_usage_in_tx, require_quota_in_tx, require_file_size_quota_in_tx, require,
  can_use_quota_in_tx, can_upload_file_size_in_tx, evaluate_upload, with_entitlement_tx,
}
use legacy_made_api.Entitlements.UsageProofs.{
  HasPlanKey, HasItemKeys, HasOneParent, with_row, count_usage-with_row, count_usage-file,
}

-- Where the tier is known, the usage is counted in one session about one user.
pub counted_usage :
    (now : ℕ) (cls : Cls) (s : Session) (db : Db) (tier : SubscriptionTier)
    → get_tier_in_tx now cls s db ≡ ok tier
    → (s' : Session) × (u : Text) × ((feature : QuotaFeature) (db' : Db)
        → get_usage_in_tx cls feature s db' ≡ ok (count_usage s' db' u feature))
unfolding get_tier_in_tx get_usage_in_tx with_entitlement_tx
counted_usage now cls s db tier t = elim (Option-cases (truthy cls.plan_owner_id)) [
  | inr (o, e) ↦ (bypassing, o, λ feature db'. ground arith)
  | inl absent ↦ elim (Option-cases (truthy cls.user_id)) [
    | inr (v, e) ↦ (s, v, λ feature db'. ground arith)
    | inl nobody ↦ absurd (ground arith)
  ]
]

require-evaluate_quota :
    (tier : SubscriptionTier) (feature : QuotaFeature) (current n : ℕ)
    → require (evaluate_quota tier feature current) ≡ ok tt
    → (tier_config tier).quotas feature ≡ at_most n
    → current + 1 ≤ n
unfolding evaluate_quota
require-evaluate_quota tier feature current n h e = ground arith

-- If a quota check within a transaction passes for a feature whose limit is n at the tier in force,
-- then after one more row of this feature's table the usage that the same service counts is at most
-- n. Plan ids are distinct.
pub require_quota_keeps_limit :
    (now n k : ℕ) (cls : Cls) (feature : QuotaFeature) (s : Session) (i : Item) (c : TrustedContact)
    (db : Db) (tier : SubscriptionTier)
    → HasPlanKey db
    → get_tier_in_tx now cls s db ≡ ok tier
    → (tier_config tier).quotas feature ≡ at_most n
    → require_quota_in_tx now cls feature s db ≡ ok tt
    → get_usage_in_tx cls feature s (with_row feature i c db) ≡ ok k
    → k ≤ n
unfolding require_quota_in_tx can_use_quota_in_tx
require_quota_keeps_limit now n k cls feature s i c db tier d t l h u =
    let (s', v, counted) = counted_usage now cls s db tier t in
    let passed : require (evaluate_quota tier feature (count_usage s' db v feature)) ≡ ok tt =
      ground (arith, counted feature db) in
    let current = require-evaluate_quota tier feature (count_usage s' db v feature) n passed l in
    let after : k ≡ count_usage s' (with_row feature i c db) v feature =
      ground (arith, counted feature (with_row feature i c db)) in
    omega (arith, count_usage-with_row s' v feature i c db d)

require-evaluate_upload :
    (tier : SubscriptionTier) (n current file : ℕ)
    → require (evaluate_upload tier (at_most n) current file) ≡ ok tt
    → current + file ≤ n
unfolding evaluate_upload
require-evaluate_upload tier n current file h = ground arith

-- If the check of a file's size passes where the limit of storage is n megabytes, then with the
-- file stored the megabytes in use are at most n. Plan and item ids are distinct, and the file hangs
-- on one entry, wish or message.
pub require_file_size_keeps_limit :
    (now n k : ℕ) (cls : Cls) (s : Session) (f : File) (db : Db) (tier : SubscriptionTier)
    → HasPlanKey db
    → HasItemKeys db
    → HasOneParent f
    → get_tier_in_tx now cls s db ≡ ok tier
    → (tier_config tier).quotas QuotaFeature.storage_mb ≡ at_most n
    → require_file_size_quota_in_tx now cls f.size_bytes s db ≡ ok tt
    → get_usage_in_tx cls QuotaFeature.storage_mb s (record db { files = f ∷ db.files }) ≡ ok k
    → k ≤ n
unfolding require_file_size_quota_in_tx can_upload_file_size_in_tx
require_file_size_keeps_limit now n k cls s f db tier d keys one t l h u =
    let (s', v, counted) = counted_usage now cls s db tier t in
    let storage = QuotaFeature.storage_mb in
    let passed : require
          (evaluate_upload tier (at_most n) (count_usage s' db v storage) (ceil_mb f.size_bytes))
        ≡ ok tt =
      ground (arith, counted storage db) in
    let fits =
      require-evaluate_upload tier n (count_usage s' db v storage) (ceil_mb f.size_bytes) passed in
    let after : k ≡ count_usage s' (record db { files = f ∷ db.files }) v storage =
      ground (arith, counted storage (record db { files = f ∷ db.files })) in
    omega (arith, count_usage-file s' v f db d keys one)
