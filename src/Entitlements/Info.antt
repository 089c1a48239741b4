-- ===== src/Entitlements/Info.antt =====
-- `getEntitlementInfo` and `updateTier` of src/entitlements/entitlements.service.ts. The names and the
-- descriptions of tiers and quotas are left out.
use legacy_made_api.Prelude.{
  ℕ, ◌≡◌, refl, Bool, true, false, ◌&&◌, not, Option, none, some, List, [], ◌∷◌, map, Text, arith,
  truthy, ◌==◌, if◌then◌else◌, Option-cases, inl, inr,
}
use legacy_made_api.Prelude.Results.{ok, err}
use legacy_made_api.Prelude.Tables.{All, update}
use legacy_made_api.Schema.{
  Db, Session, as_user, bypassing, Subscription, SubscriptionTier, SubscriptionStatus, is_lifetime,
}
use legacy_made_api.DbService.{Cls, Tx, Method, rls, bypass_rls}
use legacy_made_api.DbService.Keeps.{rls-signed_in}
use legacy_made_api.Entitlements.Types.{Pillar, QuotaFeature, Limit}
use legacy_made_api.Entitlements.Config.{tier_config}
use legacy_made_api.Entitlements.Usage.{count_usage}
use legacy_made_api.Entitlements.Service.{
  get_entitlement_user_id, is_checking_plan_owner, with_entitlement_tx, get_subscription,
  current_tier, get_tier_in_tx, get_usage_in_tx, is_unlimited,
}
use legacy_made_api.Entitlements.Status.{QuotaStatus, remaining_of, get_quota_status_in_tx}

pub record QuotaInfo : Type 0 where
  pub feature : QuotaFeature
  pub limit : Limit
  pub current : ℕ
  pub is_unlimited : Bool

pub record EntitlementInfo : Type 0 where
  pub tier : SubscriptionTier
  pub pillars : List Pillar
  pub view_only_pillars : List Pillar
  pub quotas : List QuotaInfo
  pub status : Option SubscriptionStatus
  pub current_period_end : Option ℕ
  pub is_cancellation_pending : Bool

-- `Object.keys(config.quotas)`
abbrev pub quota_features : List QuotaFeature
quota_features =
    QuotaFeature.entries ∷ QuotaFeature.wishes ∷ QuotaFeature.trusted_contacts
    ∷ QuotaFeature.family_profiles ∷ QuotaFeature.legacy_messages ∷ QuotaFeature.storage_mb ∷ []

abbrev pub quota_info : SubscriptionTier → Session → Text → Db → QuotaFeature → QuotaInfo
quota_info tier s u db feature =
    let limit = (tier_config tier).quotas feature in
    record {
      feature = feature;
      limit = limit;
      current = count_usage s db u feature;
      is_unlimited = is_unlimited limit;
    }

abbrev pub status_of : Option Subscription → Option SubscriptionStatus
status_of none = none
status_of (some r) = r.status

abbrev pub period_end_of : Option Subscription → Option ℕ
period_end_of none = none
period_end_of (some r) = r.current_period_end

-- `subscription?.unsubscribeDetectedAt != null`
abbrev pub is_cancelled : Option Subscription → Bool
is_cancelled none = false
is_cancelled (some r) = elim r.unsubscribe_detected_at [ none ↦ false | some _ ↦ true ]

-- `buildInfo`
unfoldable pub build_info : ℕ → Text → Session → Db → EntitlementInfo
build_info now u s db =
    let subscription = get_subscription s u db in
    let tier = current_tier now subscription in
    record {
      tier = tier;
      pillars = (tier_config tier).pillars;
      view_only_pillars = (tier_config tier).view_only_pillars;
      quotas = map (quota_info tier s u db) quota_features;
      status = status_of subscription;
      current_period_end = period_end_of subscription;
      is_cancellation_pending = is_cancelled subscription;
    }

unfoldable pub build_info_tx : ℕ → Text → Session → Tx EntitlementInfo
build_info_tx now u s db = ok (build_info now u s db, db)

-- `getEntitlementInfo`
unfoldable pub get_entitlement_info : ℕ → Cls → Method EntitlementInfo
get_entitlement_info now cls db = elim (get_entitlement_user_id cls) [
  | err e ↦ (err e, db)
  | ok u ↦
      if is_checking_plan_owner cls
      then bypass_rls (build_info_tx now u) db
      else rls cls (build_info_tx now u) db
]

abbrev pub set_tier : SubscriptionTier → Subscription → Subscription
set_tier tier r = record r { tier = tier }

-- `updateTier`
unfoldable pub update_tier : Text → SubscriptionTier → Db → Db
update_tier u tier db = record db {
  subscriptions =
      update (λ (r : Subscription). r.user_id == u && not (is_lifetime r.tier)) (set_tier tier)
        db.subscriptions;
}

-- What `getQuotaStatus` says where the info says this of a quota.
abbrev pub status_of_info : QuotaInfo → QuotaStatus
status_of_info q = record {
  limit = q.limit;
  current = q.current;
  remaining = remaining_of q.limit q.current;
  is_unlimited = q.is_unlimited;
}

module _ (now : ℕ) (cls : Cls) (s s' : Session) (u : Text) (db : Db) where
  statuses :
      get_tier_in_tx now cls s db ≡ ok (current_tier now (get_subscription s' u db))
      → ((q : QuotaFeature) → get_usage_in_tx cls q s db ≡ ok (count_usage s' db u q))
      → (features : List QuotaFeature)
      → All
          (λ q. get_quota_status_in_tx now cls q.feature s db ≡ ok (status_of_info q))
          (map (quota_info (current_tier now (get_subscription s' u db)) s' u db) features)
  unfolding get_quota_status_in_tx
  statuses h k [] = tt
  statuses h k (q ∷ features) = (rw (h, k q) refl, statuses h k features)

-- To a signed-in user, also in the context of another owner's plan, `getEntitlementInfo` returns the
-- tier that the checks of the same request go by, and for every quota what `getQuotaStatus` counts.
pub get_entitlement_info-agrees :
    (now : ℕ) (cls : Cls) (v : Text) (db : Db)
    → truthy cls.user_id ≡ some v
    → (info : EntitlementInfo) × (get_entitlement_info now cls db ≡ (ok info, db))
      × (get_tier_in_tx now cls (as_user v) db ≡ ok info.tier)
      × All
          (λ q. get_quota_status_in_tx now cls q.feature (as_user v) db ≡ ok (status_of_info q))
          info.quotas
unfolding get_entitlement_user_id is_checking_plan_owner with_entitlement_tx get_tier_in_tx
    get_usage_in_tx build_info build_info_tx get_entitlement_info
get_entitlement_info-agrees now cls v db signed_in =
    elim (Option-cases (truthy cls.plan_owner_id)) [
      | inl mine ↦
          let tier : get_tier_in_tx now cls (as_user v) db
              ≡ ok (current_tier now (get_subscription (as_user v) v db)) =
            ground (arith, mine, signed_in) in
          (
            build_info now v (as_user v) db,
            let own : is_checking_plan_owner cls ≡ false = rw (is_checking_plan_owner, mine) refl in
                rw (get_entitlement_info, get_entitlement_user_id, mine, signed_in, own)
                  (rls-signed_in cls (build_info_tx now v) v db signed_in),
            tier,
            statuses now cls (as_user v) (as_user v) v db tier
                (λ q. ground (arith, mine, signed_in)) quota_features,
          )
      | inr (o, owner) ↦
          let tier : get_tier_in_tx now cls (as_user v) db
              ≡ ok (current_tier now (get_subscription bypassing o db)) =
            ground (arith, owner) in
          (
            build_info now o bypassing db,
            let other : is_checking_plan_owner cls ≡ true =
                  rw (is_checking_plan_owner, owner) refl in
                rw (get_entitlement_info, get_entitlement_user_id, owner, other) refl,
            tier,
            statuses now cls (as_user v) bypassing o db tier (λ q. ground (arith, owner))
                quota_features,
          )
    ]
