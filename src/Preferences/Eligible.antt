-- ===== src/Preferences/Eligible.antt =====
-- `getEligibleReminderUsers` of src/preferences/preferences.service.ts: the query for the users whom
-- a reminder is due to. `local_minutes zone now` is what PostgreSQL makes of NOW() in a timezone, in
-- minutes since midnight. The conditions are evaluated in the order in which they are written; the
-- cast of a text that is not a time throws.
use legacy_made_api.Prelude.{
  ℕ, ◌+◌, ◌-◌, ◌*◌, ◌/◌, Bool, false, Option, none, some, List, [], ◌∷◌, Text, ltb, leb, ◌==◌,
  if◌then◌else◌,
}
use legacy_made_api.Prelude.Results.{ok, err, ◌>>=◌}
use legacy_made_api.Schema.{UserPreference, NotificationLogEntry, Session}
use legacy_made_api.Errors.{Result, internal}
use legacy_made_api.DbService.{Tx, Method, bypass_rls}
use legacy_made_api.Preferences.Schemas.{
  TimeOfDay, iso, other_text, PartialReminders, preset_minutes, frequency_days, or_default,
}

abbrev pub day_ms : ℕ
day_ms = 86400000

-- `->>`: a field that is absent or null is NULL
abbrev pub or_null : {A : Type 0} → Option (Option A) → Option A
or_null none = none
or_null (some a) = a

-- preferred_minutes
abbrev pub preferred_minutes : PartialReminders → ℕ
preferred_minutes r = elim r.time_of_day [
  | some TimeOfDay.custom ↦ elim (or_null r.custom_time) [
    | some t ↦ t.hours * 60 + t.minutes
    | none ↦ 1080
  ]
  | some t ↦ or_default (preset_minutes t) 1080
  | none ↦ 1080
]

-- freq_days
abbrev pub freq_days : PartialReminders → ℕ
freq_days r = elim r.frequency [ some f ↦ frequency_days f | none ↦ 7 ]

-- `ABS(a - b)`
abbrev pub abs_diff : ℕ → ℕ → ℕ
abs_diff a b = if ltb a b then b - a else a - b

-- `LEAST(a, b)`
abbrev pub least : ℕ → ℕ → ℕ
least a b = if leb a b then a else b

-- The window of 15 minutes around the preferred time.
unfoldable pub is_in_window : ℕ → ℕ → Bool
is_in_window current preferred =
    ltb (least (abs_diff current preferred) (1440 - abs_diff current preferred)) 15

-- last_sent: ORDER BY sent_at DESC LIMIT 1
unfoldable pub last_sent : Text → List NotificationLogEntry → Option ℕ
last_sent u [] = none
last_sent u (e ∷ log) =
    let rest = last_sent u log in
    if e.user_id == u
    then (elim rest [
      | none ↦ some e.sent_at
      | some t ↦ some (if leb t e.sent_at then e.sent_at else t)
    ])
    else rest

-- `t <= NOW() - make_interval(days => days)`
abbrev pub is_past : ℕ → ℕ → ℕ → Bool
is_past now days t = leb (t + days * day_ms) now

-- effective_enabled_at
abbrev pub effective_enabled_at : PartialReminders → ℕ → Result ℕ
effective_enabled_at r updated_at = elim (or_null r.enabled_at) [
  | none ↦ ok updated_at
  | some (iso t) ↦ ok t
  | some (other_text _) ↦ err internal
]

-- the two branches of the frequency
unfoldable pub is_due : ℕ → PartialReminders → ℕ → Option ℕ → Result Bool
is_due now r updated_at (some sent) = ok (is_past now (freq_days r) sent)
is_due now r updated_at none =
    effective_enabled_at r updated_at >>= λ t. ok (is_past now (freq_days r / 2) t)

abbrev pub is_enabled : PartialReminders → Bool
is_enabled r = elim r.enabled [ some e ↦ e | none ↦ false ]

module _ (local_minutes : Text → ℕ → ℕ) where
  -- the WHERE of the query for one row
  unfoldable pub is_eligible : ℕ → List NotificationLogEntry → UserPreference → Result Bool
  unfolding is_in_window is_due last_sent
  is_eligible now log row = elim row.notifications [
    | none ↦ ok false
    | some r ↦
        if is_enabled r
        then (if is_in_window (local_minutes row.timezone now) (preferred_minutes r)
            then is_due now r row.updated_at (last_sent row.user_id log)
            else ok false)
        else ok false
  ]

  -- the query, which throws where it throws for a row
  unfoldable pub eligible_rows :
      ℕ → List NotificationLogEntry → List UserPreference → Result (List UserPreference)
  unfolding is_eligible
  eligible_rows now log [] = ok []
  eligible_rows now log (row ∷ rows) = is_eligible now log row >>= λ due.
      eligible_rows now log rows >>= λ rest. ok (if due then row ∷ rest else rest)

  unfoldable pub eligible_tx : ℕ → Session → Tx (List UserPreference)
  unfolding eligible_rows
  eligible_tx now s db =
      eligible_rows now db.notification_log db.user_preferences >>= λ rows. ok (rows, db)

  -- `getEligibleReminderUsers`
  unfoldable pub get_eligible_reminder_users : ℕ → Method (List UserPreference)
  unfolding eligible_tx
  get_eligible_reminder_users now = bypass_rls (eligible_tx now)
