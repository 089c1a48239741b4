-- ===== src/PushNotifications/Spacing.antt =====
-- How often `sendReminders` (src/push-notifications/reminder-scheduler.service.ts) reminds a user.
use legacy_made_api.Prelude.{
  ℕ, ◌+◌, ◌*◌, ◌≤◌, ◌≡◌, refl, ap, false, true, ◌⊎◌, inl, inr, Bool, if◌then◌else◌, some, List, [],
  ◌∷◌, arith, Text, ◌==◌, Option-cases,
}
use mathlib.Core.Path.{subst}
use legacy_made_api.Prelude.Results.{ok, err, >>=-returned}
use legacy_made_api.Prelude.Tables.{any, All, Distinct}
use legacy_made_api.DbService.{transaction}
use legacy_made_api.Errors.{Result}
use legacy_made_api.Schema.{UserPreference, NotificationLogEntry, Db}
use legacy_made_api.Preferences.Eligible.{
  day_ms, last_sent, is_due, is_eligible, eligible_rows, eligible_tx, get_eligible_reminder_users,
}
use legacy_made_api.PushNotifications.Sending.{
  Expo, PushConfig, send_to_user, send_to_tokens, remove_reported, valid_tokens, invalid_tokens,
  get_tokens_for_user, remove_stale_tokens,
}
use legacy_made_api.PushNotifications.Reminders.{
  log_entry, send_reminder, send_reminder_in_transaction, remind_all, send_reminders,
}

-- No reminder of the user in the seven days before a time.
abbrev pub IsRested : Text → ℕ → List NotificationLogEntry → Type 0
IsRested u now log = All (λ e. e.user_id ≡ u → e.sent_at + 7 * day_ms ≤ now) log

-- Any two reminders of a user lie seven days apart.
abbrev pub IsSpaced : List NotificationLogEntry → Type 0
IsSpaced [] = Unit
IsSpaced (e ∷ log) = IsRested e.user_id e.sent_at log × IsSpaced log

abbrev pub preference_key : UserPreference → ℕ
preference_key r = r.user_id

-- A bound on the latest reminder is one on all.
IsRested-since :
    (u : Text) (now : ℕ) (log : List NotificationLogEntry)
    → ((t : ℕ) → last_sent u log ≡ some t → t + 7 * day_ms ≤ now)
    → IsRested u now log
unfolding last_sent
IsRested-since u now [] h = tt
IsRested-since u now (e ∷ log) h = elim (Option-cases (last_sent u log)) [
  | inl first ↦ (λ same. ground (arith, h e.sent_at, first), IsRested-since u now log (λ t k. cc))
  | inr (t, before) ↦ (
    λ same. ground (arith, h e.sent_at, h t, before),
    IsRested-since u now log (λ t' k. ground (arith, h e.sent_at, h t, before)),
  )
]

-- A user to whom a reminder is due has had none for seven days.
-- A user who is rested stays so.
IsRested-later :
    (u : Text) (now later : ℕ) (log : List NotificationLogEntry)
    → now ≤ later
    → IsRested u now log
    → IsRested u later log
IsRested-later u now later [] h rested = tt
IsRested-later u now later (e ∷ log) h rested =
    (λ mine. ground (arith, h, rested.0 mine), IsRested-later u now later log h rested.1)

eligible-IsRested :
    (local_minutes : Text → ℕ → ℕ) (now : ℕ) (log : List NotificationLogEntry)
    (row : UserPreference)
    → is_eligible local_minutes now log row ≡ ok true
    → IsRested row.user_id now log
unfolding is_eligible is_due
eligible-IsRested local_minutes now log row h =
    IsRested-since row.user_id now log (λ t k. ground (arith, k))

module _ (local_minutes : Text → ℕ → ℕ) (now : ℕ) (log : List NotificationLogEntry) where
  -- Selected rows are rested, of different users, and among the rows of the table.
  abbrev AreSelected : List UserPreference → List UserPreference → Type 0
  AreSelected rows found =
      All (λ r. IsRested r.user_id now log) found
      × Distinct preference_key found
      × ((u : Text)
          → any (λ r. preference_key r == u) rows ≡ false
          → any (λ r. preference_key r == u) found ≡ false)

  select_row :
      (due : Bool) (row : UserPreference) (rows rest : List UserPreference)
      → is_eligible local_minutes now log row ≡ ok due
      → any (λ r. preference_key r == row.user_id) rows ≡ false
      → AreSelected rows rest
      → AreSelected (row ∷ rows) (if due then row ∷ rest else rest)
  select_row true row rows rest e new (rested, distinct, among) = (
    (eligible-IsRested local_minutes now log row e, rested),
    (among row.user_id new, distinct),
    λ u h. ground (arith, h, among u),
  )
  select_row false row rows rest e new (rested, distinct, among) =
      (rested, distinct, λ u h. among u (ground (arith, h)))

  eligible_rows-AreSelected :
      (rows found : List UserPreference)
      → eligible_rows local_minutes now log rows ≡ ok found
      → Distinct preference_key rows
      → AreSelected rows found
  unfolding eligible_rows
  eligible_rows-AreSelected [] found h d =
      let e : [] ≡ found = cc in subst (AreSelected []) e (tt, tt, λ u k. refl)
  eligible_rows-AreSelected (row ∷ rows) found h d =
      let (due, e, k) = >>=-returned (is_eligible local_minutes now log row) _ h in
      let (rest, e', k') = >>=-returned (eligible_rows local_minutes now log rows) _ k in
      let same : (if due then row ∷ rest else rest) ≡ found = cc in
      subst (AreSelected (row ∷ rows)) same
        (select_row due row rows rest e d.0 (eligible_rows-AreSelected rows rest e' d.1))

module _ (expo : Expo) (config : PushConfig) where
  send_to_tokens-log :
      (tokens : List Text) (db : Db)
      → (send_to_tokens expo config tokens db).1.notification_log ≡ db.notification_log
  unfolding send_to_tokens remove_reported remove_stale_tokens
  send_to_tokens-log [] db = refl
  send_to_tokens-log (t ∷ tokens) db = ground arith

  send_to_user-log :
      (u : Text) (db : Db)
      → (send_to_user expo config u db).1.notification_log ≡ db.notification_log
  unfolding send_to_user remove_stale_tokens get_tokens_for_user
  send_to_user-log u db =
      let tokens = get_tokens_for_user u db in
      ground (
        arith,
        send_to_tokens-log (valid_tokens expo config tokens)
            (remove_stale_tokens (invalid_tokens expo config tokens) db),
      )

  send_reminder-log :
      (now : ℕ) (u : Text) (db : Db)
      → ((send_reminder_in_transaction expo config now u db).1.notification_log
          ≡ db.notification_log)
        ⊎ ((send_reminder_in_transaction expo config now u db).1.notification_log
            ≡ log_entry u now ∷ db.notification_log)
  unfolding send_reminder_in_transaction send_reminder
  send_reminder-log now u db = ground (arith, send_to_user-log u db)

  -- A reminder leaves other users rested.
  reminder_leaves-IsRested :
      (now time : ℕ) (u : Text) (db : Db) (rows : List UserPreference)
      → All (λ r. IsRested r.user_id now db.notification_log) rows
      → any (λ r. preference_key r == u) rows ≡ false
      → All
          (λ r.
            IsRested r.user_id now
              (send_reminder_in_transaction expo config time u db).1.notification_log)
          rows
  reminder_leaves-IsRested now time u db [] rested others = tt
  reminder_leaves-IsRested now time u db (row ∷ rows) rested others =
      let rest = reminder_leaves-IsRested now time u db rows rested.1 (ground (arith, others)) in
      elim (send_reminder-log time u db) [
        | inl same ↦ (rw same rested.0, rest)
        | inr more ↦ (rw more (λ mine. absurd (ground (arith, mine, others)), rested.0), rest)
      ]

  remind_all-IsSpaced :
      (now : ℕ) (times : Text → ℕ) (rows : List UserPreference) (db : Db)
      → ((u : Text) → now ≤ times u)
      → All (λ r. IsRested r.user_id now db.notification_log) rows
      → Distinct preference_key rows
      → IsSpaced db.notification_log
      → IsSpaced (remind_all expo config times rows db).notification_log
  unfolding remind_all
  remind_all-IsSpaced now times [] db after rested d spaced = spaced
  remind_all-IsSpaced now times (row ∷ rows) db after rested d spaced =
      let u = row.user_id in
      let db' = (send_reminder_in_transaction expo config (times u) u db).1 in
      let rests = reminder_leaves-IsRested now (times u) u db rows rested.1 d.0 in
      let first = IsRested-later u now (times u) db.notification_log (after u) rested.0 in
      let kept : IsSpaced db'.notification_log = elim (send_reminder-log (times u) u db) [
        | inl same ↦ rw same spaced
        | inr more ↦ rw more (first, spaced)
      ] in
      remind_all-IsSpaced now times rows db' after rests d.1 kept

  -- A run of the scheduler keeps any two reminders of a user seven days apart, at whatever time it
  -- comes, however long its sending takes, whatever the users have changed in their preferences, and
  -- however Expo answers. A user has one row of preferences, and reminders are logged after the query.
  pub send_reminders-IsSpaced :
      (local_minutes : Text → ℕ → ℕ) (now : ℕ) (times : Text → ℕ) (db : Db)
      → ((u : Text) → now ≤ times u)
      → Distinct preference_key db.user_preferences
      → IsSpaced db.notification_log
      → IsSpaced (send_reminders expo config local_minutes now times db).notification_log
  unfolding send_reminders get_eligible_reminder_users eligible_tx
  send_reminders-IsSpaced local_minutes now times db after d spaced =
      by_query (eligible_rows local_minutes now db.notification_log db.user_preferences) refl
    where
      by_query :
          (r : Result (List UserPreference))
          → eligible_rows local_minutes now db.notification_log db.user_preferences ≡ r
          → IsSpaced (send_reminders expo config local_minutes now times db).notification_log
      by_query (err e) q =
          let failed : get_eligible_reminder_users local_minutes now db ≡ (err e, db) =
            rw (get_eligible_reminder_users, transaction, q) refl in
          rw (send_reminders, ap (λ r. r.0) failed, ap (λ r. r.1) failed) spaced
      by_query (ok rows) q =
          let (rested, distinct, _) =
            eligible_rows-AreSelected local_minutes now db.notification_log db.user_preferences rows
              q d in
          let found : get_eligible_reminder_users local_minutes now db ≡ (ok rows, db) =
            rw (get_eligible_reminder_users, transaction, q) refl in
          rw (send_reminders, ap (λ r. r.0) found, ap (λ r. r.1) found)
            (remind_all-IsSpaced now times rows db after rested distinct spaced)
