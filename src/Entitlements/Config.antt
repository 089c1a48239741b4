-- ===== src/Entitlements/Config.antt =====
-- src/entitlements/entitlements.config.ts: what each tier may do.
use legacy_made_api.Prelude.{ℕ, ◌*◌, Bool, true, false, Option, none, some, List, [], ◌∷◌}
use legacy_made_api.Schema.{SubscriptionTier, free, individual, family, lifetime}
use legacy_made_api.Entitlements.Types.{Pillar, QuotaFeature, Limit, unlimited, at_most, TierConfig}

-- 24 hours
abbrev pub subscription_grace_period_ms : ℕ
subscription_grace_period_ms = 24 * 60 * 60 * 1000

-- `NON_EXPIRING_TIERS.includes(tier)`
abbrev pub is_non_expiring : SubscriptionTier → Bool
is_non_expiring free = true
is_non_expiring lifetime = true
is_non_expiring _ = false

abbrev all_pillars : List Pillar
all_pillars = Pillar.important_info ∷ Pillar.wishes ∷ Pillar.messages ∷ Pillar.family_access ∷ []

abbrev free_quotas : QuotaFeature → Limit
free_quotas QuotaFeature.entries = at_most 5
free_quotas QuotaFeature.wishes = at_most 0
free_quotas QuotaFeature.trusted_contacts = at_most 0
free_quotas QuotaFeature.family_profiles = at_most 0
free_quotas QuotaFeature.legacy_messages = at_most 0
free_quotas QuotaFeature.storage_mb = at_most 0

abbrev individual_quotas : QuotaFeature → Limit
individual_quotas QuotaFeature.entries = unlimited
individual_quotas QuotaFeature.wishes = unlimited
individual_quotas QuotaFeature.trusted_contacts = at_most 1
individual_quotas QuotaFeature.family_profiles = at_most 0
individual_quotas QuotaFeature.legacy_messages = unlimited
individual_quotas QuotaFeature.storage_mb = at_most 500

-- The quotas of `family` and of `lifetime`, which are the same.
abbrev family_quotas : QuotaFeature → Limit
family_quotas QuotaFeature.entries = unlimited
family_quotas QuotaFeature.wishes = unlimited
family_quotas QuotaFeature.trusted_contacts = unlimited
family_quotas QuotaFeature.family_profiles = at_most 4
family_quotas QuotaFeature.legacy_messages = unlimited
family_quotas QuotaFeature.storage_mb = at_most 2000

abbrev full_access : (QuotaFeature → Limit) → TierConfig
full_access q = record { pillars = all_pillars; view_only_pillars = []; quotas = q }

abbrev pub tier_config : SubscriptionTier → TierConfig
tier_config free = record {
  pillars = Pillar.important_info ∷ [];
  view_only_pillars = Pillar.wishes ∷ Pillar.messages ∷ Pillar.family_access ∷ [];
  quotas = free_quotas;
}
tier_config individual = full_access individual_quotas
tier_config family = full_access family_quotas
tier_config lifetime = full_access family_quotas

abbrev pub upgrade_path : SubscriptionTier → Option SubscriptionTier
upgrade_path free = some individual
upgrade_path individual = some family
upgrade_path family = none
upgrade_path lifetime = none
