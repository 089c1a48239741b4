-- ===== src/Tests.antt =====
-- The database that the examples run on.
mod Billing
mod Quotas
mod Linking
mod Keys
mod Rotation
mod Sharing
mod Files
mod Own
mod Items
mod Cache
mod Reminders
use legacy_made_api.Prelude.{◌+◌, ℕ, false, none, some, [], ◌∷◌, Text}
use legacy_made_api.Prelude.Order.{pos}
use legacy_made_api.Schema.{
  object, UploadStatus, FileAccess, User, Plan, Item, File, Subscription, SubscriptionTier,
  SubscriptionStatus, EncryptedDek, DekType, Db,
}
use legacy_made_api.DbService.{Cls}

abbrev pub alice : Text
alice = 1

abbrev pub bob : Text
bob = 2

abbrev pub plan_of_alice : Text
plan_of_alice = 10

abbrev pub secret : Text
secret = 77

abbrev user : Text → User
user id = record { id = id; email = some (id + 100); first_name = none; last_name = none }

abbrev pub subscription : Text → SubscriptionTier → ℕ → Subscription
subscription user_id tier end = record {
  id = user_id;
  user_id = user_id;
  tier = tier;
  status = some SubscriptionStatus.active;
  rc_original_transaction_id = some 5;
  rc_product_id = some 6;
  rc_store = some 7;
  unsubscribe_detected_at = none;
  current_period_end = some end;
}

abbrev pub escrow_copy : EncryptedDek
escrow_copy = record {
  plan_id = plan_of_alice;
  owner_id = alice;
  recipient_id = alice;
  dek_type = DekType.escrow;
  encrypted_dek = 42;
  key_version = 0;
}

-- An entry in the plan of the first user.
abbrev pub entry : Text → Item
entry id = record {
  id = id;
  plan_id = plan_of_alice;
  task_key = 1;
  title = none;
  notes = none;
  sort_order = pos 0;
  completion_status = none;
  metadata = object [];
  metadata_schema = none;
  modified_by = none;
}

-- A file of the entry 20.
abbrev pub photo : Text → ℕ → File
photo id size_bytes = record {
  id = id;
  entry_id = some 20;
  wish_id = none;
  message_id = none;
  parent_file_id = none;
  role = 1;
  filename = 2;
  mime_type = 3;
  size_bytes = size_bytes;
  storage_key = id;
  upload_status = UploadStatus.complete;
  is_encrypted = false;
  access_level = FileAccess.private;
  share_token = none;
  share_expires_at = none;
  created_at = id;
}

-- Two users; the plan, an entry, a file and an escrow copy are those of the first.
abbrev pub database : Db
database = record {
  users = user alice ∷ user bob ∷ [];
  subscriptions =
      subscription alice SubscriptionTier.individual 1000
      ∷ subscription bob SubscriptionTier.lifetime 1000
      ∷ [];
  plans = record { id = plan_of_alice; user_id = alice; e2ee_enabled = false } ∷ [];
  entries = entry 20 ∷ [];
  wishes = [];
  messages = [];
  progress = [];
  files = photo 30 2000000 ∷ [];
  trusted_contacts = [];
  user_keys = [];
  encrypted_deks = escrow_copy ∷ [];
  key_recovery_events = [];
  device_linking_sessions = [];
  processed_revenuecat_events = [];
  plan_activity_log = [];
  push_tokens = [];
  user_preferences = [];
  notification_log = [];
}

-- A request of a user, without a plan of another owner.
abbrev pub request : Text → Cls
request u = record {
  user_id = some u;
  plan_access_role = none;
  plan_access_level = none;
  plan_owner_id = none;
  ip_address = none;
  user_agent = none;
}
