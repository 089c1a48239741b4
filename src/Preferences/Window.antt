-- ===== src/Preferences/Window.antt =====
-- Which runs of the scheduler, every 30 minutes, meet the window of `getEligibleReminderUsers`
-- (src/preferences/preferences.service.ts).
use legacy_made_api.Prelude.{
  ℕ, ◌+◌, ◌*◌, ◌/◌, ◌≡◌, refl, ◌≢◌, ◌<◌, ◌↔◌, true, false, some, List, arith, Text, Bool, sym, ◌∙◌,
  if◌then◌else◌,
}
use Prim.Native.Nat.{◌%◌}
use legacy_made_api.Prelude.Results.{ok}
use legacy_made_api.Errors.{Result}
use legacy_made_api.Schema.{UserPreference, NotificationLogEntry}
use legacy_made_api.Preferences.Schemas.{PartialReminders}
use legacy_made_api.Preferences.Eligible.{
  is_in_window, preferred_minutes, is_due, last_sent, is_enabled, is_eligible,
}

-- The run at k times 30 minutes after midnight meets the window of a preferred time exactly when it is
-- the run nearest to this time around the clock, and the time does not lie halfway between two runs.
is_in_window-nearest :
    (k preferred : ℕ)
    → k < 48
    → preferred < 1440
    → (is_in_window (30 * k) preferred ≡ true)
      ↔ ((preferred % 30 ≢ 15) × (k ≡ ((preferred + 14) / 30) % 48))
unfolding is_in_window
is_in_window-nearest k preferred lk lp =
    (λ h. (λ e. ground (arith, e, h), ground (arith, h)), λ h. ground (arith, h.0, h.1))

all_conditions :
    (enabled inside : Bool) (due : Result Bool)
    → ((if enabled then (if inside then due else ok false) else ok false) ≡ ok true)
      ↔ ((enabled ≡ true) × (inside ≡ true) × (due ≡ ok true))
all_conditions true true due = (λ h. (refl, refl, h), λ h. h.2)
all_conditions true false due = (λ h. cc, λ h. cc)
all_conditions false inside due = (λ h. cc, λ h. cc)

-- At a run k times 30 minutes after a user's midnight, a row with reminders is selected exactly when
-- they are enabled and due by their frequency, the run is the one nearest to the preferred time
-- around the clock, and this time does not lie halfway between two runs, at a quarter past or to an
-- hour: a user who prefers such a time is selected by no run.
pub is_eligible-at_run :
    (local_minutes : Text → ℕ → ℕ) (k now : ℕ) (log : List NotificationLogEntry)
    (row : UserPreference) (r : PartialReminders)
    → k < 48
    → preferred_minutes r < 1440
    → row.notifications ≡ some r
    → local_minutes row.timezone now ≡ 30 * k
    → (is_eligible local_minutes now log row ≡ ok true) ↔ (
        (is_enabled r ≡ true)
        × (preferred_minutes r % 30 ≢ 15)
        × (k ≡ ((preferred_minutes r + 14) / 30) % 48)
        × (is_due now r row.updated_at (last_sent row.user_id log) ≡ ok true))
unfolding is_eligible
is_eligible-at_run local_minutes k now log row r lk lp has_r time =
    let (near, far) = is_in_window-nearest k (preferred_minutes r) lk lp in
    let due = is_due now r row.updated_at (last_sent row.user_id log) in
    let inside = is_in_window (30 * k) (preferred_minutes r) in
    let (open_conditions, close_conditions) = all_conditions (is_enabled r) inside due in
    let shown : is_eligible local_minutes now log row
        ≡ (if is_enabled r then (if inside then due else ok false) else ok false) =
      rw (is_eligible, has_r, time) refl in
    (
      λ h.
          let (on, at_run, now_due) = open_conditions (sym shown ∙ h) in
          (on, (near at_run).0, (near at_run).1, now_due),
      λ (on, between, nearest, now_due).
          shown ∙ close_conditions (on, far (between, nearest), now_due),
    )
