-- ===== src/PushNotifications/Unreminded.antt =====
-- Users whose row of preferences was made by `upsertTimezone`
-- (src/preferences/preferences.service.ts), which the app calls when it is opened, before a token is
-- registered (src/push-notifications/push-notifications.service.ts).
use legacy_made_api.Prelude.{
  ℕ, ◌≡◌, refl, ap, sym, ◌∙◌, true, false, none, some, List, [], ◌∷◌, arith, Text, truthy, ◌==◌,
}
use mathlib.Core.Path.{subst}
use legacy_made_api.Prelude.Results.{ok, err, >>=-returned}
use legacy_made_api.Prelude.Tables.{any, find}
use legacy_made_api.Errors.{Result}
use legacy_made_api.Schema.{
  PushToken, Session, UserPreference, NotificationLogEntry, Db, as_user, bypassing,
}
use legacy_made_api.DbService.{Cls, rls, transaction, with_user_id}
use legacy_made_api.DbService.Keeps.{with_user_id-rls, transaction-ok}
use legacy_made_api.PushNotifications.Tokens.{
  RegisterTokenDto, upsert_token_tx, ensured, register_for, register_token,
}
use legacy_made_api.Encryption.Statements.{user_exists}
use legacy_made_api.Preferences.Schemas.{default_reminders}
use legacy_made_api.Preferences.Service.{
  to_preferences, new_preference, is_preference_of, find_preference, get_preferences,
  upsert_timezone, upsert_timezone_tx, insert_preference, ensure_preferences_exist,
  ensure_preferences_tx,
}
use legacy_made_api.Preferences.Patching.{get_preferences-of}
use legacy_made_api.Preferences.Eligible.{
  is_eligible, eligible_rows, eligible_tx, get_eligible_reminder_users,
}

register_token-register_for :
    (cls : Cls) (u : Text) (now : ℕ) (dto : RegisterTokenDto) (db : Db)
    → truthy cls.user_id ≡ some u
    → register_token now dto cls db ≡ register_for now dto cls u db
unfolding register_token
register_token-register_for cls u now dto db signed_in = rw (signed_in, with_user_id) refl

-- The users that the query selects have rows that are selected.
eligible_rows-any :
    (local_minutes : Text → ℕ → ℕ) (now : ℕ) (log : List NotificationLogEntry) (u : Text)
    (rows found : List UserPreference)
    → any (λ (r : UserPreference). r.user_id == u) rows ≡ false
    → eligible_rows local_minutes now log rows ≡ ok found
    → any (λ (r : UserPreference). r.user_id == u) found ≡ false
unfolding eligible_rows
eligible_rows-any local_minutes now log u [] found h e =
    subst (λ (f : List UserPreference). any (λ (r : UserPreference). r.user_id == u) f ≡ false)
      (let same : [] ≡ found = cc in same) refl
eligible_rows-any local_minutes now log u (row ∷ rows) found h e =
    let (due, e', k) = >>=-returned (is_eligible local_minutes now log row) _ e in
    let (rest, e'', k') = >>=-returned (eligible_rows local_minutes now log rows) _ k in
    let others = eligible_rows-any local_minutes now log u rows rest (ground (arith, h)) e'' in
    ground (arith, h, others, k')

-- The policy and the user's id select the same row.
no_preference :
    (u : Text) (rows : List UserPreference)
    → any (λ (r : UserPreference). r.user_id == u) rows ≡ false
    → find (is_preference_of (as_user u) u) rows ≡ none
no_preference u [] h = refl
no_preference u (row ∷ rows) h = ground (arith, h, no_preference u rows)

row_there :
    (u : Text) (rows : List UserPreference)
    → find (is_preference_of (as_user u) u) rows ≡ none
    → any (λ (r : UserPreference). r.user_id == u) rows ≡ false
row_there u [] h = refl
row_there u (row ∷ rows) h = ground (arith, row_there u rows)

upsert_token-preferences :
    (u : Text) (dto : RegisterTokenDto) (s : Session) (db db' : Db) (t : PushToken)
    → upsert_token_tx u dto s db ≡ ok (t, db')
    → db'.user_preferences ≡ db.user_preferences
unfolding upsert_token_tx
upsert_token-preferences u dto s db db' t h = ground arith

ensured-same :
    (now : ℕ) (u : Text) (t : PushToken) (db : Db)
    → any (λ (r : UserPreference). r.user_id == u) db.user_preferences ≡ true
    → ensured now u t db ≡ (ok t, db)
unfolding ensured ensure_preferences_exist ensure_preferences_tx
ensured-same now u t db h =
    let done : ensure_preferences_exist now u db ≡ (ok tt, db) =
      rw (ensure_preferences_exist, transaction, h) refl in
    rw (ensured, ap (λ r. r.0) done, ap (λ r. r.1) done) refl

module _ (cls : Cls) (u : Text) (signed_in : truthy cls.user_id ≡ some u) where
  register_token-preferences :
      (now : ℕ) (dto : RegisterTokenDto) (db : Db)
      → any (λ (r : UserPreference). r.user_id == u) db.user_preferences ≡ true
      → (register_token now dto cls db).1.user_preferences ≡ db.user_preferences
  unfolding register_for
  register_token-preferences now dto db there =
      by_result (upsert_token_tx u dto (as_user u) db) refl
    where
      by_result :
          (r : Result (PushToken × Db))
          → upsert_token_tx u dto (as_user u) db ≡ r
          → (register_token now dto cls db).1.user_preferences ≡ db.user_preferences
      by_result (err e) q =
          let step : rls cls (upsert_token_tx u dto) db ≡ (err e, db) =
            rw (rls, signed_in, transaction, q) refl in
          rw
            (
              register_token-register_for cls u now dto db signed_in,
              register_for,
              ap (λ r. r.0) step,
              ap (λ r. r.1) step,
            )
            refl
      by_result (ok (t, db')) q =
          let step : rls cls (upsert_token_tx u dto) db ≡ (ok t, db') =
            rw (rls, signed_in, transaction, q) refl in
          let same = upsert_token-preferences u dto (as_user u) db db' t q in
          let there' : any (λ (r : UserPreference). r.user_id == u) db'.user_preferences ≡ true =
            ap (any (λ (r : UserPreference). r.user_id == u)) same ∙ there in
          let done = ensured-same now u t db' there' in
          rw
            (
              register_token-register_for cls u now dto db signed_in,
              register_for,
              ap (λ r. r.0) step,
              ap (λ r. r.1) step,
              done,
            )
            same

  upsert_timezone-new :
      (now : ℕ) (timezone : Text) (db : Db)
      → user_exists u db ≡ true
      → any (λ (r : UserPreference). r.user_id == u) db.user_preferences ≡ false
      → (upsert_timezone now timezone cls db).1
        ≡ record db { user_preferences = new_preference now u timezone none ∷ db.user_preferences }
  unfolding upsert_timezone find_preference insert_preference upsert_timezone_tx
  upsert_timezone-new now timezone db user absent =
      let fresh = no_preference u db.user_preferences absent in
      let self : u == u ≡ true = ground arith in
      let stored : upsert_timezone_tx now timezone u (as_user u) db
          ≡ ok (
            to_preferences (new_preference now u timezone none),
            record db {
              user_preferences = new_preference now u timezone none ∷ db.user_preferences;
            },
          ) =
        rw (upsert_timezone_tx, find_preference, fresh, insert_preference, self, absent, user)
          refl in
      rw
        (with_user_id-rls cls (upsert_timezone_tx now timezone) u db signed_in, transaction, stored)
        refl

  -- A user whose row is made by `upsertTimezone`, and who then registers a token, is told by
  -- `getPreferences` that reminders are enabled, with all defaults, and yet a run of the query for
  -- reminders on the database that this leaves does not select the user, at whatever time it comes.
  -- Before, the user is in the database and has no row of preferences.
  pub timezone_first_is_unreminded :
      (now later run : ℕ) (timezone : Text) (dto : RegisterTokenDto) (local_minutes : Text → ℕ → ℕ)
      (db db' db'' : Db) (found : List UserPreference)
      → user_exists u db ≡ true
      → any (λ (r : UserPreference). r.user_id == u) db.user_preferences ≡ false
      → (register_token later dto cls (upsert_timezone now timezone cls db).1).1 ≡ db'
      → get_eligible_reminder_users local_minutes run db' ≡ (ok found, db'')
      → ((get_preferences cls db').0
          ≡ ok (record {
            user_id = u;
            timezone = timezone;
            notifications = default_reminders;
            updated_at = some now;
          }))
        × (any (λ (r : UserPreference). r.user_id == u) found ≡ false)
  unfolding get_eligible_reminder_users eligible_tx eligible_rows is_eligible
  timezone_first_is_unreminded now later run timezone dto local_minutes db db' db'' found user
        absent made selected =
      let row = new_preference now u timezone none in
      let db₁ = record db { user_preferences = row ∷ db.user_preferences } in
      let first : (upsert_timezone now timezone cls db).1 ≡ db₁ =
        upsert_timezone-new now timezone db user absent in
      let there : any (λ (r : UserPreference). r.user_id == u) db₁.user_preferences ≡ true =
        ground arith in
      let kept : db'.user_preferences ≡ row ∷ db.user_preferences =
        sym (ap (λ d. d.user_preferences) made)
        ∙ ap (λ d. (register_token later dto cls d).1.user_preferences) first
        ∙ register_token-preferences later dto db₁ there in
      let mine : find (is_preference_of (as_user u) u) db'.user_preferences ≡ some row =
        rw kept (ground arith) in
      let (rows, e, k) =
        >>=-returned (eligible_rows local_minutes run db'.notification_log db'.user_preferences) _
          (transaction-ok (eligible_tx local_minutes run bypassing) db' db'' selected) in
      let e' : eligible_rows local_minutes run db'.notification_log (row ∷ db.user_preferences)
          ≡ ok rows =
        sym (ap (eligible_rows local_minutes run db'.notification_log) kept) ∙ e in
      let (rest, others, k') =
        >>=-returned (eligible_rows local_minutes run db'.notification_log db.user_preferences) _
          e' in
      let none_selected =
        eligible_rows-any local_minutes run db'.notification_log u db.user_preferences rest absent
          others in
      let same : rest ≡ found = cc in
      (
        ap (λ r. r.0) (get_preferences-of cls u signed_in db' (some row) mine),
        rw (← same) none_selected,
      )
