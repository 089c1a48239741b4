-- ===== src/Schema/Enums.antt =====
-- The values of the enumerated columns, from the comments of src/schema.ts and from
-- src/entitlements/entitlements.types.ts and src/lib/types/cls.ts.
use legacy_made_api.Prelude.{Bool, true, false}

pub data SubscriptionTier : Type 0 where
  free individual family lifetime : SubscriptionTier

pub data SubscriptionStatus : Type 0 where
  active in_grace_period expired : SubscriptionStatus

pub data AccessLevel : Type 0 where
  full_edit full_view limited_view : AccessLevel

pub data AccessTiming : Type 0 where
  immediate upon_passing : AccessTiming

pub data AccessStatus : Type 0 where
  pending accepted declined revoked_by_owner revoked_by_contact : AccessStatus

-- files.upload_status
pub data UploadStatus : Type 0 where
  pending uploading complete failed : UploadStatus

-- files.access_level
pub data FileAccess : Type 0 where
  private shareable : FileAccess

pub data PlanAccessRole : Type 0 where
  owner trusted_contact : PlanAccessRole

-- user_keys.key_type
pub data KeyType : Type 0 where
  device recovery : KeyType

-- encrypted_deks.dek_type
pub data DekType : Type 0 where
  device recovery contact escrow : DekType

-- device_linking_sessions.status
pub data LinkStatus : Type 0 where
  pending claimed completed expired : LinkStatus

pub data KeyRecoveryEventType : Type 0 where
  recovery_key_registered recovery_key_deregistered : KeyRecoveryEventType
  escrow_revoked : KeyRecoveryEventType
  escrow_recovery_initiated escrow_recovery_completed escrow_recovery_failed : KeyRecoveryEventType

abbrev pub is_lifetime : SubscriptionTier → Bool
is_lifetime SubscriptionTier.lifetime = true
is_lifetime _ = false

abbrev pub is_device_key : KeyType → Bool
is_device_key KeyType.device = true
is_device_key _ = false

abbrev pub dek_type_eq : DekType → DekType → Bool
dek_type_eq DekType.device DekType.device = true
dek_type_eq DekType.recovery DekType.recovery = true
dek_type_eq DekType.contact DekType.contact = true
dek_type_eq DekType.escrow DekType.escrow = true
dek_type_eq _ _ = false

abbrev pub link_status_eq : LinkStatus → LinkStatus → Bool
link_status_eq LinkStatus.pending LinkStatus.pending = true
link_status_eq LinkStatus.claimed LinkStatus.claimed = true
link_status_eq LinkStatus.completed LinkStatus.completed = true
link_status_eq LinkStatus.expired LinkStatus.expired = true
link_status_eq _ _ = false

abbrev pub access_status_eq : AccessStatus → AccessStatus → Bool
access_status_eq AccessStatus.pending AccessStatus.pending = true
access_status_eq AccessStatus.accepted AccessStatus.accepted = true
access_status_eq AccessStatus.declined AccessStatus.declined = true
access_status_eq AccessStatus.revoked_by_owner AccessStatus.revoked_by_owner = true
access_status_eq AccessStatus.revoked_by_contact AccessStatus.revoked_by_contact = true
access_status_eq _ _ = false

abbrev pub is_immediate : AccessTiming → Bool
is_immediate AccessTiming.immediate = true
is_immediate AccessTiming.upon_passing = false

abbrev pub is_complete : UploadStatus → Bool
is_complete UploadStatus.complete = true
is_complete _ = false

abbrev pub is_shareable : FileAccess → Bool
is_shareable FileAccess.shareable = true
is_shareable FileAccess.private = false

-- IN (…) on access levels
abbrev pub AccessLevels : Type 0
AccessLevels = AccessLevel → Bool

abbrev pub only_edit : AccessLevels
only_edit AccessLevel.full_edit = true
only_edit _ = false

abbrev pub edit_or_full_view : AccessLevels
edit_or_full_view AccessLevel.limited_view = false
edit_or_full_view _ = true

abbrev pub every_level : AccessLevels
every_level _ = true
