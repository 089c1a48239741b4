-- ===== src/Preferences/Service.antt =====
-- `getPreferences`, `updateNotifications`, `upsertTimezone` and `ensurePreferencesExist` of
-- src/preferences/preferences.service.ts. `now` is `new Date()`.
use legacy_made_api.Prelude.{
  ℕ, Bool, true, false, ◌&&◌, not, Option, none, some, ◌∷◌, Text, ◌==◌, if◌then◌else◌,
}
use legacy_made_api.Prelude.Results.{ok, ◌>>=◌, ◌>>◌, throw_if}
use legacy_made_api.Prelude.Tables.{any, find, update}
use legacy_made_api.Schema.{UserPreference, Db, Session, is_current_user}
use legacy_made_api.Errors.{Result, foreign_key_violation, rls_violation, unique_violation}
use legacy_made_api.DbService.{Cls, Tx, Method, rls, bypass_rls, with_user_id}
use legacy_made_api.Encryption.Statements.{user_exists}
use legacy_made_api.Preferences.Schemas.{
  Stamp, iso, other_text, PartialReminders, Reminders, overridden, default_reminders,
  parse_notifications, as_stored,
}

-- `'UTC'`, the default of the column
abbrev pub utc : Text
utc = 1

-- The answer of the service: a row with its notifications parsed.
pub record Preferences : Type 0 where
  pub user_id : Text
  pub timezone : Text
  pub notifications : Reminders
  pub updated_at : Option ℕ

abbrev pub to_preferences : UserPreference → Preferences
to_preferences r = record {
  user_id = r.user_id;
  timezone = r.timezone;
  notifications = parse_notifications r.notifications;
  updated_at = some r.updated_at;
}

-- WHERE user_id = …, as far as the policies go; they are the same for every command
abbrev pub is_preference_of : Session → Text → UserPreference → Bool
is_preference_of s u r = is_current_user s r.user_id && r.user_id == u

unfoldable pub find_preference : Session → Text → Db → Option UserPreference
find_preference s u db = find (is_preference_of s u) db.user_preferences

abbrev pub preferences_or_default : Text → Option UserPreference → Preferences
preferences_or_default u (some row) = to_preferences row
preferences_or_default u none = record {
  user_id = u;
  timezone = utc;
  notifications = default_reminders;
  updated_at = none;
}

unfoldable pub get_preferences_tx : Text → Session → Tx Preferences
get_preferences_tx u s db = ok (preferences_or_default u (find_preference s u db), db)

-- `getPreferences`
unfoldable pub get_preferences : Cls → Method Preferences
get_preferences cls = with_user_id cls (λ u. rls cls (get_preferences_tx u))

-- `existing?.notifications ?? {}`
abbrev pub notifications_of : Option UserPreference → Option PartialReminders
notifications_of none = none
notifications_of (some row) = row.notifications

-- `!reminders.enabled_at`
abbrev pub is_unset : Option Stamp → Bool
is_unset none = true
is_unset (some (iso _)) = false
is_unset (some (other_text t)) = t == 0

-- `incoming.reminders?.enabled === false`
abbrev pub disables : Option PartialReminders → Bool
disables none = false
disables (some r) = elim r.enabled [ none ↦ false | some e ↦ not e ]

-- The life of `enabled_at`.
abbrev pub with_enabled_at : ℕ → Bool → Reminders → Reminders
with_enabled_at now disabling r =
    if disabling
    then record r { enabled_at = none }
    else if r.enabled && is_unset r.enabled_at
    then record r { enabled_at = some (iso now) }
    else r

abbrev pub with_incoming : Reminders → Option PartialReminders → Reminders
with_incoming existing none = existing
with_incoming existing (some incoming) = overridden existing incoming

-- The reminders that an update stores; `merged` parses them once more.
unfoldable pub merged_reminders : ℕ → Option PartialReminders → Option PartialReminders → Reminders
merged_reminders now existing incoming =
    let merged = with_incoming (parse_notifications existing) incoming in
    parse_notifications (some (as_stored (with_enabled_at now (disables incoming) merged)))

-- INSERT INTO user_preferences
unfoldable pub insert_preference : UserPreference → Session → Db → Result Db
insert_preference r s db =
    throw_if (not (is_current_user s r.user_id)) rls_violation
    >> throw_if (any (λ (q : UserPreference). q.user_id == r.user_id) db.user_preferences)
        unique_violation
    >> throw_if (not (user_exists r.user_id db)) foreign_key_violation
    >> ok (record db { user_preferences = r ∷ db.user_preferences })

abbrev pub set_notifications : ℕ → Reminders → UserPreference → UserPreference
set_notifications now r row = record row { notifications = some (as_stored r); updated_at = now }

abbrev pub new_preference : ℕ → Text → Text → Option PartialReminders → UserPreference
new_preference now u timezone notifications = record {
  user_id = u;
  timezone = timezone;
  notifications = notifications;
  updated_at = now;
}

-- The statement behind `if (existing)`, or the one after it.
unfoldable pub store_notifications :
    ℕ → Text → Reminders → Option UserPreference → Session → Tx Preferences
unfolding insert_preference
store_notifications now u r (some row) s db = ok (
  to_preferences (set_notifications now r row),
  record db {
    user_preferences = update (is_preference_of s u) (set_notifications now r) db.user_preferences;
  },
)
store_notifications now u r none s db =
    let row = new_preference now u utc (some (as_stored r)) in
    insert_preference row s db >>= λ db'. ok (to_preferences row, db')

unfoldable pub update_notifications_tx :
    ℕ → Text → Option PartialReminders → Session → Tx Preferences
unfolding find_preference merged_reminders store_notifications
update_notifications_tx now u incoming s db =
    let existing = find_preference s u db in
    store_notifications now u (merged_reminders now (notifications_of existing) incoming) existing s
      db

-- `updateNotifications`
unfoldable pub update_notifications : ℕ → Option PartialReminders → Cls → Method Preferences
unfolding update_notifications_tx
update_notifications now incoming cls =
    with_user_id cls (λ u. rls cls (update_notifications_tx now u incoming))

abbrev pub set_timezone : ℕ → Text → UserPreference → UserPreference
set_timezone now timezone row = record row { timezone = timezone; updated_at = now }

-- INSERT … ON CONFLICT (user_id) DO UPDATE; the row with the user's id is one that the policies let
-- the user change
unfoldable pub upsert_timezone_tx : ℕ → Text → Text → Session → Tx Preferences
unfolding find_preference insert_preference
upsert_timezone_tx now timezone u s db = elim (find_preference s u db) [
  | some row ↦ ok (
    to_preferences (set_timezone now timezone row),
    record db {
      user_preferences =
          update (is_preference_of s u) (set_timezone now timezone) db.user_preferences;
    },
  )
  | none ↦
      let row = new_preference now u timezone none in
      insert_preference row s db >>= λ db'. ok (to_preferences row, db')
]

-- `upsertTimezone`
unfoldable pub upsert_timezone : ℕ → Text → Cls → Method Preferences
unfolding upsert_timezone_tx
upsert_timezone now timezone cls =
    with_user_id cls (λ u. rls cls (upsert_timezone_tx now timezone u))

unfoldable pub ensure_preferences_tx : ℕ → Text → Session → Tx (Unit {0})
unfolding insert_preference
ensure_preferences_tx now u s db =
    if any (λ (q : UserPreference). q.user_id == u) db.user_preferences
    then ok (tt, db)
    else (insert_preference (new_preference now u utc (some (as_stored default_reminders))) s db
        >>= λ db'. ok (tt, db'))

-- `ensurePreferencesExist`
unfoldable pub ensure_preferences_exist : ℕ → Text → Method (Unit {0})
unfolding ensure_preferences_tx
ensure_preferences_exist now u = bypass_rls (ensure_preferences_tx now u)
