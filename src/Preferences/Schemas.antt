-- ===== src/Preferences/Schemas.antt =====
-- src/preferences/notification-schemas.ts: what is stored of the reminders of a user, and what the
-- schemas make of it.
use legacy_made_api.Prelude.{ℕ, Bool, true, Option, none, some, Text}

pub data Frequency : Type 0 where
  weekly biweekly monthly : Frequency

pub data TimeOfDay : Type 0 where
  morning afternoon evening custom : TimeOfDay

-- A text "HH:MM" that the schema admits.
pub record ClockTime : Type 0 where
  pub hours : ℕ
  pub minutes : ℕ

-- A text in `enabled_at`, which the schema does not look into, by what PostgreSQL's cast to a time makes
-- of it: a time, as of every text in the form of `toISOString()`, or, of another text, an error.
pub data Stamp : Type 0 where
  iso : ℕ → Stamp
  other_text : Text → Stamp

-- `RemindersSchema` without its defaults: the columns as they are stored, and the body of a request.
-- `none` is a field that is absent, and `some none` is null.
pub record PartialReminders : Type 0 where
  pub enabled : Option Bool
  pub frequency : Option Frequency
  pub time_of_day : Option TimeOfDay
  pub custom_time : Option (Option ClockTime)
  pub enabled_at : Option (Option Stamp)

-- `Reminders`
pub record Reminders : Type 0 where
  pub enabled : Bool
  pub frequency : Frequency
  pub time_of_day : TimeOfDay
  pub custom_time : Option ClockTime
  pub enabled_at : Option Stamp

abbrev pub or_default : {A : Type 0} → Option A → A → A
or_default none a = a
or_default (some b) a = b

-- `{ ...old, ...new }`
abbrev pub overridden : Reminders → PartialReminders → Reminders
overridden old new = record {
  enabled = or_default new.enabled old.enabled;
  frequency = or_default new.frequency old.frequency;
  time_of_day = or_default new.time_of_day old.time_of_day;
  custom_time = or_default new.custom_time old.custom_time;
  enabled_at = or_default new.enabled_at old.enabled_at;
}

-- `RemindersSchema.parse({})`
abbrev pub default_reminders : Reminders
default_reminders = record {
  enabled = true;
  frequency = Frequency.weekly;
  time_of_day = TimeOfDay.evening;
  custom_time = none;
  enabled_at = none;
}

-- `NotificationsSchema.parse`: the object has the reminders or not
abbrev pub parse_notifications : Option PartialReminders → Reminders
parse_notifications none = default_reminders
parse_notifications (some r) = overridden default_reminders r

-- An object that has all fields.
abbrev pub as_stored : Reminders → PartialReminders
as_stored r = record {
  enabled = some r.enabled;
  frequency = some r.frequency;
  time_of_day = some r.time_of_day;
  custom_time = some r.custom_time;
  enabled_at = some r.enabled_at;
}

-- `TIME_OF_DAY_MINUTES`
abbrev pub preset_minutes : TimeOfDay → Option ℕ
preset_minutes TimeOfDay.morning = some 480
preset_minutes TimeOfDay.afternoon = some 720
preset_minutes TimeOfDay.evening = some 1080
preset_minutes TimeOfDay.custom = none

-- `FREQUENCY_DAYS`
abbrev pub frequency_days : Frequency → ℕ
frequency_days Frequency.weekly = 7
frequency_days Frequency.biweekly = 14
frequency_days Frequency.monthly = 30
