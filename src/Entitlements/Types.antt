-- ===== src/Entitlements/Types.antt =====
-- src/entitlements/entitlements.types.ts: pillars, quota features and the result of a check. The
-- messages for the reader are left out.
use legacy_made_api.Prelude.{ℕ, Bool, true, false, Option, none, some, List}
use legacy_made_api.Schema.{SubscriptionTier}

pub data Pillar : Type 0 where
  important_info wishes messages family_access : Pillar

pub data QuotaFeature : Type 0 where
  entries wishes trusted_contacts family_profiles legacy_messages storage_mb : QuotaFeature

-- A quota of the configuration: `unlimited` is its -1.
pub data Limit : Type 0 where
  unlimited : Limit
  at_most : ℕ → Limit

pub record TierConfig : Type 0 where
  pub pillars : List Pillar
  pub view_only_pillars : List Pillar
  pub quotas : QuotaFeature → Limit

pub data Reason : Type 0 where
  feature_locked quota_exceeded : Reason

pub data Feature : Type 0 where
  pillar : Pillar → Feature
  quota : QuotaFeature → Feature

pub record Details : Type 0 where
  pub feature : Feature
  pub tier : SubscriptionTier
  pub limit : Option ℕ
  pub current : Option ℕ
  pub requested : Option ℕ
  pub upgrade_required : Bool
  pub suggested_tier : Option SubscriptionTier

pub record EntitlementResult : Type 0 where
  pub allowed : Bool
  pub reason : Option Reason
  pub details : Option Details

-- `{ allowed: true }`
abbrev pub allow : EntitlementResult
allow = record { allowed = true; reason = none; details = none }

abbrev pub deny : Reason → Details → EntitlementResult
deny r d = record { allowed = false; reason = some r; details = some d }

-- `===` on pillars
abbrev pub pillar_eq : Pillar → Pillar → Bool
pillar_eq Pillar.important_info Pillar.important_info = true
pillar_eq Pillar.wishes Pillar.wishes = true
pillar_eq Pillar.messages Pillar.messages = true
pillar_eq Pillar.family_access Pillar.family_access = true
pillar_eq _ _ = false
