-- ===== src/Entitlements/Service.antt =====
-- The checks of src/entitlements/entitlements.service.ts that read the database: whose subscription
-- counts, its tier, access to a pillar, quotas, the upload of a file, and the guard's combined
-- check. `now` is what `Date.now()` returns. None of them writes, so their bodies return a result
-- beside the database that they were given.
use legacy_made_api.Prelude.{
  ℕ, ◌+◌, Bool, true, false, ◌&&◌, Option, none, some, Text, truthy, leb, ◌==◌, if◌then◌else◌,
}
use legacy_made_api.Prelude.Results.{ok, err, ◌>>=◌, or_throw}
use legacy_made_api.Prelude.Tables.{find}
use legacy_made_api.Schema.{
  Db, Session, bypassing, is_current_user, Subscription, SubscriptionTier, free,
}
use legacy_made_api.Errors.{Result, internal, entitlement}
use legacy_made_api.DbService.{Cls, Tx, Method, rls, bypass_rls}
use legacy_made_api.Entitlements.Types.{
  Pillar, QuotaFeature, Limit, unlimited, at_most, EntitlementResult, allow, deny, quota_exceeded,
  Feature,
}
use legacy_made_api.Entitlements.Config.{tier_config, upgrade_path}
use legacy_made_api.Entitlements.Evaluate.{
  evaluate_pillar_access, evaluate_view_pillar_access, evaluate_quota, is_subscription_expired,
}
use legacy_made_api.Entitlements.Usage.{count_usage, ceil_mb}

-- `getEntitlementUserId`
unfoldable pub get_entitlement_user_id : Cls → Result Text
get_entitlement_user_id cls = elim (truthy cls.plan_owner_id) [
  | some o ↦ ok o
  | none ↦ or_throw (truthy cls.user_id) internal
]

-- `isCheckingPlanOwner`
unfoldable pub is_checking_plan_owner : Cls → Bool
is_checking_plan_owner cls = elim (truthy cls.plan_owner_id) [ some _ ↦ true | none ↦ false ]

-- `withEntitlementTx`: the session in which the queries run, and the user whom they are about
unfoldable pub with_entitlement_tx :
    {A : Type 0} → Cls → Session → (Session → Text → Db → Result A) → Db → Result A
unfolding get_entitlement_user_id is_checking_plan_owner
with_entitlement_tx cls s f db = get_entitlement_user_id cls >>= λ u.
    if is_checking_plan_owner cls then f bypassing u db else f s u db

unfoldable pub get_subscription : Session → Text → Db → Option Subscription
get_subscription s u db =
    find (λ (r : Subscription). is_current_user s r.user_id && r.user_id == u) db.subscriptions

-- The tier in force at `now`.
unfoldable pub current_tier : ℕ → Option Subscription → SubscriptionTier
current_tier now none = free
current_tier now (some r) =
    if is_subscription_expired now r.tier r.current_period_end r.status then free else r.tier

unfoldable pub get_tier_in_tx : ℕ → Cls → Session → Db → Result SubscriptionTier
get_tier_in_tx now cls s db =
    with_entitlement_tx cls s (λ s' u db'. ok (current_tier now (get_subscription s' u db'))) db

-- A transaction that only reads.
abbrev pub reading : {A : Type 0} → (Session → Db → Result A) → Session → Tx A
reading f s db = f s db >>= λ a. ok (a, db)

-- The transaction of a check: bypassing for a plan owner, else with the user of the request.
unfoldable pub in_entitlement_tx : {A : Type 0} → Cls → (Session → Db → Result A) → Method A
unfolding is_checking_plan_owner
in_entitlement_tx cls f db =
    if is_checking_plan_owner cls then bypass_rls (reading f) db else rls cls (reading f) db

unfoldable get_tier : ℕ → Cls → Method SubscriptionTier
get_tier now cls = rls cls (reading (get_tier_in_tx now cls))

unfoldable can_access_pillar_in_tx : ℕ → Cls → Pillar → Session → Db → Result EntitlementResult
can_access_pillar_in_tx now cls p s db =
    get_tier_in_tx now cls s db >>= λ tier. ok (evaluate_pillar_access tier p)

unfoldable can_view_pillar_in_tx : ℕ → Cls → Pillar → Session → Db → Result EntitlementResult
can_view_pillar_in_tx now cls p s db =
    get_tier_in_tx now cls s db >>= λ tier. ok (evaluate_view_pillar_access tier p)

unfoldable pub get_usage_in_tx : Cls → QuotaFeature → Session → Db → Result ℕ
get_usage_in_tx cls feature s db =
    with_entitlement_tx cls s (λ s' u db'. ok (count_usage s' db' u feature)) db

-- `limit === -1`
abbrev pub is_unlimited : Limit → Bool
is_unlimited unlimited = true
is_unlimited (at_most _) = false

unfoldable pub can_use_quota_in_tx :
    ℕ → Cls → QuotaFeature → Session → Db → Result EntitlementResult
can_use_quota_in_tx now cls feature s db = get_tier_in_tx now cls s db >>= λ tier.
    if is_unlimited ((tier_config tier).quotas feature)
    then ok allow
    else (get_usage_in_tx cls feature s db >>= λ current. ok (evaluate_quota tier feature current))

-- The result of `canUploadFileSizeInTx` for a file of `file_mb` where `current_mb` are in use.
unfoldable pub evaluate_upload : SubscriptionTier → Limit → ℕ → ℕ → EntitlementResult
evaluate_upload tier unlimited current_mb file_mb = allow
evaluate_upload tier (at_most limit_mb) current_mb file_mb =
    if leb (current_mb + file_mb) limit_mb
    then allow
    else deny quota_exceeded (record {
      feature = Feature.quota QuotaFeature.storage_mb;
      tier = tier;
      limit = some limit_mb;
      current = some current_mb;
      requested = some file_mb;
      upgrade_required = true;
      suggested_tier = upgrade_path tier;
    })

unfoldable pub can_upload_file_size_in_tx : ℕ → Cls → ℕ → Session → Db → Result EntitlementResult
can_upload_file_size_in_tx now cls size_bytes s db = get_tier_in_tx now cls s db >>= λ tier.
    let limit = (tier_config tier).quotas QuotaFeature.storage_mb in
    if is_unlimited limit
    then ok allow
    else (get_usage_in_tx cls QuotaFeature.storage_mb s db >>= λ current_mb.
        ok (evaluate_upload tier limit current_mb (ceil_mb size_bytes)))

-- `if (!result.allowed) throw new EntitlementException(result)`
abbrev pub require : EntitlementResult → Result (Unit {0})
require r = if r.allowed then ok tt else err (entitlement r)

unfoldable pub require_pillar_access : ℕ → Cls → Pillar → Method (Unit {0})
unfolding in_entitlement_tx can_access_pillar_in_tx
require_pillar_access now cls p =
    in_entitlement_tx cls (λ s db. can_access_pillar_in_tx now cls p s db >>= require)

unfoldable pub require_view_pillar_access : ℕ → Cls → Pillar → Method (Unit {0})
unfolding in_entitlement_tx can_view_pillar_in_tx
require_view_pillar_access now cls p =
    in_entitlement_tx cls (λ s db. can_view_pillar_in_tx now cls p s db >>= require)

unfoldable pub require_quota : ℕ → Cls → QuotaFeature → Method (Unit {0})
unfolding in_entitlement_tx can_use_quota_in_tx
require_quota now cls feature =
    in_entitlement_tx cls (λ s db. can_use_quota_in_tx now cls feature s db >>= require)

unfoldable pub require_quota_in_tx : ℕ → Cls → QuotaFeature → Session → Db → Result (Unit {0})
unfolding can_use_quota_in_tx
require_quota_in_tx now cls feature s db = can_use_quota_in_tx now cls feature s db >>= require

unfoldable pub require_file_size_quota_in_tx : ℕ → Cls → ℕ → Session → Db → Result (Unit {0})
unfolding can_upload_file_size_in_tx
require_file_size_quota_in_tx now cls size_bytes s db =
    can_upload_file_size_in_tx now cls size_bytes s db >>= require

unfoldable pub require_pillar_access_in_tx : ℕ → Cls → Pillar → Session → Db → Result (Unit {0})
unfolding can_access_pillar_in_tx
require_pillar_access_in_tx now cls p s db = can_access_pillar_in_tx now cls p s db >>= require

unfoldable pub require_view_pillar_access_in_tx :
    ℕ → Cls → Pillar → Session → Db → Result (Unit {0})
unfolding can_view_pillar_in_tx
require_view_pillar_access_in_tx now cls p s db = can_view_pillar_in_tx now cls p s db >>= require
