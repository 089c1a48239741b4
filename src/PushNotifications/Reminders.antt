-- ===== src/PushNotifications/Reminders.antt =====
-- `ReminderSchedulerService` (src/push-notifications/reminder-scheduler.service.ts). The rows that a
-- transaction has not committed are not seen by the sending, which has transactions of its own and
-- whose removals of tokens stay where the reminder is rolled back.
use legacy_made_api.Prelude.{ℕ, List, [], ◌∷◌, Text, if◌then◌else◌}
use legacy_made_api.Prelude.Results.{ok, err}
use legacy_made_api.Schema.{UserPreference, NotificationLogEntry, Db}
use legacy_made_api.Errors.{foreign_key_violation}
use legacy_made_api.DbService.{Method}
use legacy_made_api.Encryption.Statements.{user_exists}
use legacy_made_api.Preferences.Eligible.{get_eligible_reminder_users}
use legacy_made_api.PushNotifications.Sending.{Expo, PushConfig, send_to_user}

abbrev pub log_entry : Text → ℕ → NotificationLogEntry
log_entry u now = record { user_id = u; sent_at = now }

abbrev pub logged : Text → ℕ → Db → Db
logged u now db = record db { notification_log = log_entry u now ∷ db.notification_log }

module _ (expo : Expo) (config : PushConfig) where
  -- the transaction behind its INSERT: it commits if the sending returns
  unfoldable pub send_reminder : ℕ → Text → Method (Unit {0})
  send_reminder now u db =
      let (sent, db') = send_to_user expo config u db in
      elim sent [ err e ↦ (err e, db') | ok _ ↦ (ok tt, logged u now db') ]

  -- `sendReminderInTransaction`
  unfoldable pub send_reminder_in_transaction : ℕ → Text → Method (Unit {0})
  unfolding send_reminder
  send_reminder_in_transaction now u db =
      if user_exists u db then send_reminder now u db else (err foreign_key_violation, db)

  -- `for (const user of users)`, with the errors only logged; `times` says when the transaction of
  -- each user begins
  unfoldable pub remind_all : (Text → ℕ) → List UserPreference → Db → Db
  unfolding send_reminder_in_transaction
  remind_all times [] db = db
  remind_all times (row ∷ rows) db =
      remind_all times rows (send_reminder_in_transaction (times row.user_id) row.user_id db).1

  -- `sendReminders`, the job of every 30 minutes; where the query fails it ends
  unfoldable pub send_reminders : (Text → ℕ → ℕ) → ℕ → (Text → ℕ) → Db → Db
  unfolding remind_all
  send_reminders local_minutes now times db =
      let (users, db') = get_eligible_reminder_users local_minutes now db in
      elim users [ err _ ↦ db' | ok rows ↦ remind_all times rows db' ]
