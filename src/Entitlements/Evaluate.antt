-- ===== src/Entitlements/Evaluate.antt =====
-- The pure checks of a tier against its configuration: `evaluatePillarAccess`,
-- `evaluateViewPillarAccess`, `evaluateQuota` and `isSubscriptionExpired` of
-- src/entitlements/entitlements.service.ts.
use legacy_made_api.Prelude.{
  ℕ, ◌+◌, Bool, true, false, ◌||◌, Option, none, some, List, if◌then◌else◌, ltb,
}
use legacy_made_api.Prelude.Tables.{any}
use legacy_made_api.Schema.{SubscriptionTier, SubscriptionStatus}
use legacy_made_api.Entitlements.Types.{
  Pillar, pillar_eq, QuotaFeature, Limit, unlimited, at_most, feature_locked, quota_exceeded,
  Feature, EntitlementResult, allow, deny,
}
use legacy_made_api.Entitlements.Config.{
  tier_config, upgrade_path, is_non_expiring, subscription_grace_period_ms,
}

-- `pillars.includes(pillar)`
abbrev includes : List Pillar → Pillar → Bool
includes pillars p = any (pillar_eq p) pillars

locked : SubscriptionTier → Pillar → EntitlementResult
locked tier p = deny feature_locked (record {
  feature = Feature.pillar p;
  tier = tier;
  limit = none;
  current = none;
  requested = none;
  upgrade_required = true;
  suggested_tier = upgrade_path tier;
})

unfoldable pub evaluate_pillar_access : SubscriptionTier → Pillar → EntitlementResult
unfolding locked
evaluate_pillar_access tier p =
    if includes (tier_config tier).pillars p then allow else locked tier p

unfoldable pub evaluate_view_pillar_access : SubscriptionTier → Pillar → EntitlementResult
unfolding locked
evaluate_view_pillar_access tier p =
    if includes (tier_config tier).pillars p || includes (tier_config tier).view_only_pillars p
    then allow
    else locked tier p

evaluate_limit : SubscriptionTier → QuotaFeature → Limit → ℕ → EntitlementResult
evaluate_limit tier feature unlimited current = allow
evaluate_limit tier feature (at_most limit) current =
    if ltb current limit
    then allow
    else deny quota_exceeded (record {
      feature = Feature.quota feature;
      tier = tier;
      limit = some limit;
      current = some current;
      requested = none;
      upgrade_required = true;
      suggested_tier = upgrade_path tier;
    })

unfoldable pub evaluate_quota : SubscriptionTier → QuotaFeature → ℕ → EntitlementResult
unfolding evaluate_limit
evaluate_quota tier feature current =
    evaluate_limit tier feature ((tier_config tier).quotas feature) current

-- `isSubscriptionExpired` at the time `now`, for a tier that may expire.
expired_at : ℕ → Option ℕ → Option SubscriptionStatus → Bool
expired_at now current_period_end (some SubscriptionStatus.expired) = true
expired_at now none status = false
expired_at now (some end) (some SubscriptionStatus.in_grace_period) = ltb end now
expired_at now (some end) status = ltb (end + subscription_grace_period_ms) now

unfoldable pub is_subscription_expired :
    ℕ → SubscriptionTier → Option ℕ → Option SubscriptionStatus → Bool
unfolding expired_at
is_subscription_expired now tier current_period_end status =
    if is_non_expiring tier then false else expired_at now current_period_end status
