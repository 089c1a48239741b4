-- ===== src/Expiration.antt =====
-- The hourly job of src/entitlements/subscription-expiration.service.ts: it reads the subscriptions
-- past their period and the grace, and downgrades them by their ids in a second transaction. Both
-- transactions bypass row-level security. The log lines are left out.
pub mod Exact
pub mod Race
use legacy_made_api.Prelude.{
  ℕ, ◌-◌, Bool, true, false, ◌&&◌, not, Option, none, some, List, [], ◌∷◌, Text, ltb, ◌==◌,
}
use legacy_made_api.Prelude.Tables.{any, select, update}
use legacy_made_api.Schema.{Subscription, SubscriptionTier, free, Db}
use legacy_made_api.Entitlements.Config.{is_non_expiring, subscription_grace_period_ms}

pub record ExpiredSubscription : Type 0 where
  pub id : Text
  pub user_id : Text
  pub tier : SubscriptionTier
  pub current_period_end : Option ℕ

-- `current_period_end IS NOT NULL AND current_period_end < gracePeriodAgo`
abbrev is_before : ℕ → Option ℕ → Bool
is_before grace_period_ago none = false
is_before grace_period_ago (some end) = ltb end grace_period_ago

-- The WHERE of `findExpiredSubscriptions`. Where `now` is less than the grace period, the source's
-- bound is a time before the epoch, which no stored time precedes; here it is 0.
abbrev pub is_due : ℕ → Subscription → Bool
is_due now r =
    is_before (now - subscription_grace_period_ms) r.current_period_end
    && not (is_non_expiring r.tier)

abbrev pub expired_of : List Subscription → List ExpiredSubscription
expired_of [] = []
expired_of (r ∷ rows) =
    record {
      id = r.id;
      user_id = r.user_id;
      tier = r.tier;
      current_period_end = r.current_period_end;
    }
    ∷ expired_of rows

unfoldable pub find_expired_subscriptions : ℕ → Db → List ExpiredSubscription
find_expired_subscriptions now db = expired_of (select (is_due now) db.subscriptions)

-- `inArray(subscriptions.id, ids)`
abbrev pub is_listed : List ExpiredSubscription → Subscription → Bool
is_listed expired r = any (λ (s : ExpiredSubscription). s.id == r.id) expired

abbrev pub set_free : Subscription → Subscription
set_free r = record r { tier = free }

-- The early return is for an empty list.
unfoldable pub downgrade_expired_subscriptions : List ExpiredSubscription → Db → Db
downgrade_expired_subscriptions [] db = db
downgrade_expired_subscriptions (s ∷ expired) db = record db {
  subscriptions = update (is_listed (s ∷ expired)) set_free db.subscriptions;
}

unfoldable pub handle_expired_subscriptions : ℕ → Db → Db
handle_expired_subscriptions now db =
    downgrade_expired_subscriptions (find_expired_subscriptions now db) db
