-- ===== src/Preferences/Patching.antt =====
-- What an update of the notifications leaves (src/preferences/preferences.service.ts).
use legacy_made_api.Prelude.{
  ℕ, ◌≡◌, refl, ap, ◌∙◌, Bool, true, false, ◌&&◌, Option, none, some, List, [], ◌∷◌, arith, Text,
  truthy, ◌==◌, if◌then◌else◌, Bool-cases, inl, inr,
}
use legacy_made_api.Prelude.Results.{ok}
use legacy_made_api.Prelude.Tables.{any, find, update}
use legacy_made_api.TableLaws.{find-update, find_sound}
use legacy_made_api.Schema.{UserPreference, Db, as_user}
use legacy_made_api.DbService.{Cls, transaction}
use legacy_made_api.DbService.Keeps.{with_user_id-rls}
use legacy_made_api.Encryption.Statements.{user_exists}
use legacy_made_api.Preferences.Schemas.{
  Reminders, PartialReminders, parse_notifications, as_stored,
}
use legacy_made_api.Preferences.Service.{
  Preferences, to_preferences, preferences_or_default, is_preference_of, find_preference,
  get_preferences, get_preferences_tx, notifications_of, with_incoming, merged_reminders, is_unset,
  disables, with_enabled_at, set_notifications, update_notifications, update_notifications_tx,
  store_notifications, insert_preference, new_preference, utc,
}

module _ (cls : Cls) (u : Text) (signed_in : truthy cls.user_id ≡ some u) where
  -- `getPreferences` shows the row of the user, or the defaults.
  pub get_preferences-eq :
      (db : Db)
      → get_preferences cls db ≡ (
        ok (preferences_or_default u (find (is_preference_of (as_user u) u) db.user_preferences)),
        db,
      )
  unfolding get_preferences get_preferences_tx find_preference
  get_preferences-eq db = with_user_id-rls cls get_preferences_tx u db signed_in

  pub get_preferences-of :
      (db : Db) (o : Option UserPreference)
      → find (is_preference_of (as_user u) u) db.user_preferences ≡ o
      → get_preferences cls db ≡ (ok (preferences_or_default u o), db)
  get_preferences-of db o h =
      get_preferences-eq db ∙ ap (λ r. (ok (preferences_or_default u r), db)) h

  update_notifications-of :
      (now : ℕ) (incoming : Option PartialReminders) (db db' : Db) (new : Preferences)
      → update_notifications_tx now u incoming (as_user u) db ≡ ok (new, db')
      → update_notifications now incoming cls db ≡ (ok new, db')
  unfolding update_notifications
  update_notifications-of now incoming db db' new h =
      with_user_id-rls cls (λ v. update_notifications_tx now v incoming) u db signed_in
      ∙ rw (transaction, h) refl

-- All but `enabled_at` is what a patch makes of the old reminders; `enabled_at` is there where
-- reminders are enabled, and null where the patch disables them.
pub record IsPatched (old : Reminders) (incoming : Option PartialReminders) (new : Reminders)
    : Type 0 where
  pub patched :
      record new { enabled_at = none } ≡ record (with_incoming old incoming) { enabled_at = none }
  pub present : (new.enabled && is_unset new.enabled_at) ≡ false
  pub cleared : (if disables incoming then new.enabled_at else none) ≡ none

life-IsPatched :
    (now : ℕ) (old : Reminders) (incoming : Option PartialReminders) (off : Bool)
    → disables incoming ≡ off
    → (off && (with_incoming old incoming).enabled) ≡ false
    → IsPatched old incoming (with_enabled_at now off (with_incoming old incoming))
life-IsPatched now old incoming true e h = record {
  patched = refl;
  present = ground (arith, h);
  cleared = rw e refl;
}
life-IsPatched now old incoming false e h =
    let r = with_incoming old incoming in
    elim (Bool-cases (r.enabled && is_unset r.enabled_at)) [
      | inl starts ↦
          rw starts (record { patched = refl; present = ground arith; cleared = rw e refl })
      | inr runs ↦ rw runs (record { patched = refl; present = runs; cleared = rw e refl })
    ]

disabled_by_patch :
    (old : Reminders) (incoming : Option PartialReminders)
    → (disables incoming && (with_incoming old incoming).enabled) ≡ false
disabled_by_patch old none = refl
disabled_by_patch old (some r) = ground arith

merged_reminders-IsPatched :
    (now : ℕ) (old incoming : Option PartialReminders)
    → IsPatched (parse_notifications old) incoming (merged_reminders now old incoming)
unfolding merged_reminders
merged_reminders-IsPatched now old incoming =
    life-IsPatched now (parse_notifications old) incoming (disables incoming) refl
      (disabled_by_patch (parse_notifications old) incoming)

own_row :
    (u : Text) (rows : List UserPreference) (row : UserPreference)
    → find (is_preference_of (as_user u) u) rows ≡ some row
    → is_preference_of (as_user u) u row ≡ true
own_row u rows row h = find_sound (is_preference_of (as_user u) u) rows h

no_own_row :
    (u : Text) (rows : List UserPreference)
    → find (is_preference_of (as_user u) u) rows ≡ none
    → any (λ (q : UserPreference). q.user_id == u) rows ≡ false
no_own_row u [] h = refl
no_own_row u (row ∷ rows) h = ground (arith, no_own_row u rows)

-- What `updateNotifications` answers to a signed-in user in the database is what `getPreferences`
-- answers next. Its notifications are those that `getPreferences` answered before with the patch on
-- them, but for `enabled_at`: this is there if reminders are enabled, and null if the patch disables
-- them.
pub update_then_get :
    (now : ℕ) (incoming : Option PartialReminders) (cls : Cls) (u : Text) (db : Db)
    → truthy cls.user_id ≡ some u
    → user_exists u db ≡ true
    → (old new : Preferences) × (db' : Db) × (get_preferences cls db ≡ (ok old, db))
      × (update_notifications now incoming cls db ≡ (ok new, db'))
      × (get_preferences cls db' ≡ (ok new, db'))
      × IsPatched old.notifications incoming new.notifications
unfolding update_notifications update_notifications_tx find_preference store_notifications
    insert_preference
update_then_get now incoming cls u db signed_in user =
    by_row (find (is_preference_of (as_user u) u) db.user_preferences) refl
  where
    by_row :
        (o : Option UserPreference)
        → find (is_preference_of (as_user u) u) db.user_preferences ≡ o
        → (old new : Preferences) × (db' : Db) × (get_preferences cls db ≡ (ok old, db))
          × (update_notifications now incoming cls db ≡ (ok new, db'))
          × (get_preferences cls db' ≡ (ok new, db'))
          × IsPatched old.notifications incoming new.notifications
    by_row (some row) e =
        let r = merged_reminders now row.notifications incoming in
        let row' = set_notifications now r row in
        let own = is_preference_of (as_user u) u in
        let db' = record db {
          user_preferences = update own (set_notifications now r) db.user_preferences;
        } in
        let stored : update_notifications_tx now u incoming (as_user u) db
            ≡ ok (to_preferences row', db') =
          ap
            (λ o.
              store_notifications now u (merged_reminders now (notifications_of o) incoming) o
                (as_user u) db)
            e in
        let mine = own_row u db.user_preferences row e in
        let found : find own db'.user_preferences ≡ some row' =
          find-update own own (set_notifications now r) (λ x. refl) db.user_preferences
          ∙ rw (e, mine) refl in
        (
          to_preferences row,
          to_preferences row',
          db',
          get_preferences-of cls u signed_in db (some row) e,
          update_notifications-of cls u signed_in now incoming db db' (to_preferences row') stored,
          get_preferences-of cls u signed_in db' (some row') found,
          merged_reminders-IsPatched now row.notifications incoming,
        )
    by_row none e =
        let r = merged_reminders now none incoming in
        let row' = new_preference now u utc (some (as_stored r)) in
        let db' = record db { user_preferences = row' ∷ db.user_preferences } in
        let self : u == u ≡ true = ground arith in
        let absent = no_own_row u db.user_preferences e in
        let stored : update_notifications_tx now u incoming (as_user u) db
            ≡ ok (to_preferences row', db') =
          ap
            (λ o.
              store_notifications now u (merged_reminders now (notifications_of o) incoming) o
                (as_user u) db)
            e
          ∙ rw (store_notifications, insert_preference, self, absent, user) refl in
        (
          preferences_or_default u none,
          to_preferences row',
          db',
          get_preferences-of cls u signed_in db none e,
          update_notifications-of cls u signed_in now incoming db db' (to_preferences row') stored,
          get_preferences-of cls u signed_in db' (some row') (rw self refl),
          merged_reminders-IsPatched now none incoming,
        )
