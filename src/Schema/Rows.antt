-- ===== src/Schema/Rows.antt =====
-- The rows of src/schema.ts and the database. Times are milliseconds since the epoch. The columns
-- created_at and updated_at, where nothing modelled reads them, and the other columns that no modelled
-- service reads are left out; the primary key of a table is kept where a service reads it.
use legacy_made_api.Prelude.{ℕ, Bool, Option, List, Text}
use legacy_made_api.Prelude.Order.{ℤ}
use legacy_made_api.Preferences.Schemas.{PartialReminders}
use legacy_made_api.Schema.Enums.{
  SubscriptionTier, SubscriptionStatus, AccessLevel, AccessTiming, AccessStatus, PlanAccessRole,
  KeyType, DekType, LinkStatus, KeyRecoveryEventType, UploadStatus, FileAccess,
}

pub record User : Type 0 where
  pub id : Text
  pub email : Option Text
  pub first_name : Option Text
  pub last_name : Option Text

pub record Subscription : Type 0 where
  pub id : Text
  pub user_id : Text
  pub tier : SubscriptionTier
  pub status : Option SubscriptionStatus
  pub rc_original_transaction_id : Option Text
  pub rc_product_id : Option Text
  pub rc_store : Option Text
  pub unsubscribe_detected_at : Option ℕ
  pub current_period_end : Option ℕ

pub record Plan : Type 0 where
  pub id : Text
  pub user_id : Text
  pub e2ee_enabled : Bool

-- A JSON value in a field of an object: null, an object with fields of its own, or another value.
mutual
  pub data Json : Type 0 where
    json_null : Json
    json_value : Text → Json
    json_object : JsonFields → Json

  pub data JsonFields : Type 0 where
    no_fields : JsonFields
    json_field : Text → Json → JsonFields → JsonFields

-- A JSON column: an object, whose fields have different names, or anything else. An array is an object
-- whose fields are its indices.
pub data Metadata : Type 0 where
  object : List (Text × Json) → Metadata
  no_object : Json → Metadata

-- A row of entries, of wishes or of messages; wishes have no completion_status.
pub record Item : Type 0 where
  pub id : Text
  pub plan_id : Text
  pub task_key : Text
  pub title : Option Text
  pub notes : Option Text
  pub sort_order : ℤ
  pub completion_status : Option Text
  pub metadata : Metadata
  pub metadata_schema : Option Text
  pub modified_by : Option Text

pub record File : Type 0 where
  pub id : Text
  pub entry_id : Option Text
  pub wish_id : Option Text
  pub message_id : Option Text
  pub parent_file_id : Option Text
  pub role : Text
  pub filename : Text
  pub mime_type : Text
  pub size_bytes : ℕ
  pub storage_key : Text
  pub upload_status : UploadStatus
  pub is_encrypted : Bool
  pub access_level : FileAccess
  pub share_token : Option Text
  pub share_expires_at : Option ℕ
  pub created_at : ℕ

pub record TrustedContact : Type 0 where
  pub id : Text
  pub plan_id : Text
  pub email : Text
  pub first_name : Text
  pub last_name : Text
  pub relationship : Option Text
  pub access_level : AccessLevel
  pub access_timing : AccessTiming
  pub access_status : AccessStatus
  pub clerk_user_id : Option Text
  pub accepted_at : Option ℕ
  pub declined_at : Option ℕ
  pub revoked_at : Option ℕ
  pub notes : Option Text

pub record UserKey : Type 0 where
  pub user_id : Text
  pub public_key : Text
  pub key_version : ℕ
  pub key_type : KeyType
  pub device_label : Option Text
  pub is_active : Bool
  pub deactivated_at : Option ℕ

pub record EncryptedDek : Type 0 where
  pub plan_id : Text
  pub owner_id : Text
  pub recipient_id : Text
  pub dek_type : DekType
  pub encrypted_dek : Text
  pub key_version : ℕ

-- key_recovery_events.details, a constructor for each object that the service writes.
pub data RecoveryDetails : Type 0 where
  no_details : RecoveryDetails
  key_registered : ℕ → Option Text → RecoveryDetails
  rotated_out : Text → RecoveryDetails
  rotated_in : Text → List ℕ → RecoveryDetails
  deregistered : Text → Option ℕ → RecoveryDetails
  plan_only : Text → RecoveryDetails
  new_public_key : Text → RecoveryDetails
  failure : RecoveryDetails

pub record KeyRecoveryEvent : Type 0 where
  pub user_id : Text
  pub event_type : KeyRecoveryEventType
  pub ip_address : Option Text
  pub user_agent : Option Text
  pub details : RecoveryDetails

pub record LinkingSession : Type 0 where
  pub id : Text
  pub user_id : Text
  pub session_code : Text
  pub payload : Option Text
  pub status : LinkStatus
  pub expires_at : ℕ

pub data EventOutcome : Type 0 where
  handled skipped : EventOutcome

pub record ProcessedEvent : Type 0 where
  pub event_id : Text
  pub received_at : ℕ
  pub outcome : EventOutcome

pub data Action : Type 0 where
  created updated deleted : Action

pub data ResourceType : Type 0 where
  entry wish message contact : ResourceType

-- plan_activity_log.details, a constructor for each object that the services write.
pub data ActivityDetails : Type 0 where
  no_activity_details reinvited : ActivityDetails
  status_change : AccessStatus → ActivityDetails
  status_change_dek : AccessStatus → Bool → ActivityDetails
  contact_deleted : Text → AccessStatus → Bool → ActivityDetails

pub record Activity : Type 0 where
  pub plan_id : Text
  pub actor_user_id : Text
  pub actor_type : PlanAccessRole
  pub action : Action
  pub resource_type : ResourceType
  pub resource_id : Text
  pub details : ActivityDetails

pub record PushToken : Type 0 where
  pub user_id : Text
  pub token : Text
  pub platform : Option Text

-- A row of user_preferences; `none` is an object of notifications without reminders.
pub record UserPreference : Type 0 where
  pub user_id : Text
  pub timezone : Text
  pub notifications : Option PartialReminders
  pub updated_at : ℕ

-- A row of notification_log. Its type and its channel are always 'reminder' and 'push'.
pub record NotificationLogEntry : Type 0 where
  pub user_id : Text
  pub sent_at : ℕ

-- A row of progress; the JSON of data is only stored.
pub record Progress : Type 0 where
  pub plan_id : Text
  pub key : Text
  pub data_json : Text

pub record Db : Type 0 where
  pub users : List User
  pub subscriptions : List Subscription
  pub plans : List Plan
  pub entries : List Item
  pub wishes : List Item
  pub messages : List Item
  pub progress : List Progress
  pub files : List File
  pub trusted_contacts : List TrustedContact
  pub user_keys : List UserKey
  pub encrypted_deks : List EncryptedDek
  pub key_recovery_events : List KeyRecoveryEvent
  pub device_linking_sessions : List LinkingSession
  pub processed_revenuecat_events : List ProcessedEvent
  pub plan_activity_log : List Activity
  pub push_tokens : List PushToken
  pub user_preferences : List UserPreference
  pub notification_log : List NotificationLogEntry
