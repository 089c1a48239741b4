-- ===== src/Tests/Reminders.antt =====
-- Examples for src/preferences and src/push-notifications, and for what a user is told of quotas.
use legacy_made_api.Prelude.{
  ℕ, ◌+◌, ◌/◌, ◌≡◌, ◌≢◌, ◌↔◌, refl, true, false, none, some, [], ◌∷◌, Text, ◌==◌, arith,
}
use Prim.Native.Nat.{◌%◌}
use legacy_made_api.Prelude.Results.{ok}
use legacy_made_api.Prelude.Tables.{any, All}
use legacy_made_api.Schema.{UserPreference, PushToken, Db, as_user}
use legacy_made_api.Entitlements.Service.{get_tier_in_tx}
use legacy_made_api.Entitlements.Status.{get_quota_status_in_tx}
use legacy_made_api.Entitlements.Info.{
  EntitlementInfo, get_entitlement_info, status_of_info, get_entitlement_info-agrees,
}
use legacy_made_api.Preferences.Schemas.{PartialReminders, Frequency, TimeOfDay, default_reminders}
use legacy_made_api.Preferences.Service.{
  Preferences, get_preferences, update_notifications, upsert_timezone,
}
use legacy_made_api.Preferences.Eligible.{
  preferred_minutes, last_sent, is_due, is_enabled, is_eligible, get_eligible_reminder_users,
}
use legacy_made_api.Preferences.Window.{is_eligible-at_run}
use legacy_made_api.Preferences.Patching.{IsPatched, update_then_get}
use legacy_made_api.PushNotifications.Tokens.{RegisterTokenDto, register_token}
use legacy_made_api.PushNotifications.Sending.{Expo, PushConfig, accepted}
use legacy_made_api.PushNotifications.Reminders.{send_reminders}
use legacy_made_api.PushNotifications.Spacing.{IsSpaced, send_reminders-IsSpaced}
use legacy_made_api.PushNotifications.Unreminded.{timezone_first_is_unreminded}
use legacy_made_api.Tests.{alice, database, request}

-- It is eight o'clock everywhere.
abbrev eight : Text → ℕ → ℕ
eight zone now = 480

-- Reminders at a quarter past eight.
abbrev quarter_past : PartialReminders
quarter_past = record {
  enabled = some true;
  frequency = some Frequency.weekly;
  time_of_day = some TimeOfDay.custom;
  custom_time = some (some (record { hours = 8; minutes = 15 }));
  enabled_at = none;
}

-- Reminders at eight.
abbrev mornings : PartialReminders
mornings = record quarter_past { time_of_day = some TimeOfDay.morning }

abbrev preference : PartialReminders → UserPreference
preference r = record { user_id = alice; timezone = 1; notifications = some r; updated_at = 0 }

abbrev device : PushToken
device = record { user_id = alice; token = 9; platform = none }

abbrev reminded_db : Db
reminded_db = record database {
  push_tokens = device ∷ [];
  user_preferences = preference mornings ∷ [];
}

-- Alice was reminded before, eleven days before the run.
abbrev once_reminded_db : Db
once_reminded_db = record reminded_db {
  notification_log = record { user_id = alice; sent_at = 4000000000 } ∷ [];
}

abbrev send_times : Text → ℕ
send_times _ = 5000000100

abbrev expo : Expo
expo = record {
  is_expo_push_token = λ _. true;
  chunk_push_notifications = λ tokens. tokens ∷ [];
  send_push_notifications = λ _. ok (accepted ∷ []);
}

abbrev production : PushConfig
production = record { is_production = true; allowlist = [] }

abbrev dto : RegisterTokenDto
dto = record { token = 9; platform = none }

is_eligible-at_run_example :
    (is_eligible eight 5000000000 [] (preference quarter_past) ≡ ok true) ↔ (
      (is_enabled quarter_past ≡ true)
      × (preferred_minutes quarter_past % 30 ≢ 15)
      × (◌≡◌ {A = ℕ} 16 (((preferred_minutes quarter_past + 14) / 30) % 48))
      × (is_due 5000000000 quarter_past 0 (last_sent alice []) ≡ ok true))
is_eligible-at_run_example =
    is_eligible-at_run eight 16 5000000000 [] (preference quarter_past) quarter_past (omega arith)
      (omega arith) refl refl

send_reminders-IsSpaced_example :
    IsSpaced
      (send_reminders expo production eight 5000000000 send_times once_reminded_db).notification_log
send_reminders-IsSpaced_example =
    send_reminders-IsSpaced expo production eight 5000000000 send_times once_reminded_db
      (λ u. omega arith) (refl, tt) (tt, tt)

update_then_get_example :
    (old new : Preferences) × (db' : Db) × (get_preferences (request alice) reminded_db
      ≡ (ok old, reminded_db))
    × (update_notifications 100 (some quarter_past) (request alice) reminded_db ≡ (ok new, db'))
    × (get_preferences (request alice) db' ≡ (ok new, db'))
    × IsPatched old.notifications (some quarter_past) new.notifications
update_then_get_example =
    update_then_get 100 (some quarter_past) (request alice) alice reminded_db refl refl

-- After the first opening of the app and the registration of a token.
abbrev opened : Db
opened =
    (register_token 200 dto (request alice) (upsert_timezone 100 7 (request alice) database).1).1

timezone_first_is_unreminded_example :
    ((get_preferences (request alice) opened).0
      ≡ ok (record {
        user_id = alice;
        timezone = 7;
        notifications = default_reminders;
        updated_at = some 100;
      }))
    × (any (λ (r : UserPreference). r.user_id == alice) [] ≡ false)
unfolding get_eligible_reminder_users register_token upsert_timezone
    legacy_made_api.Preferences.Service.ensure_preferences_exist
timezone_first_is_unreminded_example =
    timezone_first_is_unreminded (request alice) alice refl 100 200 5000000000 7 dto eight database
      opened opened [] refl refl refl refl

get_entitlement_info-agrees_example :
    (info : EntitlementInfo) × (get_entitlement_info 100 (request alice) database
      ≡ (ok info, database))
    × (get_tier_in_tx 100 (request alice) (as_user alice) database ≡ ok info.tier)
    × All
        (λ q.
          get_quota_status_in_tx 100 (request alice) q.feature (as_user alice) database
          ≡ ok (status_of_info q))
        info.quotas
get_entitlement_info-agrees_example =
    get_entitlement_info-agrees 100 (request alice) alice database refl
