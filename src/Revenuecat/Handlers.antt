-- ===== src/Revenuecat/Handlers.antt =====
-- The handlers of webhook events in src/revenuecat/revenuecat.service.ts: each is an UPDATE of the
-- user's row. Warnings to the log are left out. `now` is what
-- `new Date()` returns.
use legacy_made_api.Prelude.{
  ℕ, Bool, false, ◌&&◌, not, Option, none, some, List, [], ◌∷◌, Text, truthy, ◌==◌, if◌then◌else◌,
}
use legacy_made_api.Prelude.Tables.{any, find, update}
use legacy_made_api.Schema.{
  Subscription, SubscriptionTier, SubscriptionStatus, is_lifetime, free, individual, family,
  EventOutcome, handled, skipped, Db,
}
use legacy_made_api.Revenuecat.Event.{RcEventType, RcWebhookEvent, RcConfig}

-- `notLifetime(userId)`
abbrev pub not_lifetime : Text → Subscription → Bool
not_lifetime user_id r = r.user_id == user_id && not (is_lifetime r.tier)

-- `tx.update(subscriptions).set(…).where(this.notLifetime(user_id))`
abbrev pub update_subscriptions : Text → (Subscription → Subscription) → Db → Db
update_subscriptions user_id f db = record db {
  subscriptions = update (not_lifetime user_id) f db.subscriptions;
}

abbrev coalesce : {A : Type 0} → Option A → A → A
coalesce none b = b
coalesce (some a) b = a

-- `event.entitlement_id ? [event.entitlement_id] : []`
abbrev single_id : Option Text → List Text
single_id none = []
single_id (some i) = i ∷ []

abbrev entitlement_ids : RcWebhookEvent → List Text
entitlement_ids e = coalesce e.entitlement_ids (single_id (truthy e.entitlement_id))

unfoldable pub resolve_tier : RcConfig → RcWebhookEvent → Option SubscriptionTier
resolve_tier cfg e =
    if any (λ i. i == cfg.entitlement_individual) (entitlement_ids e)
    then some individual
    else if any (λ i. i == cfg.entitlement_family) (entitlement_ids e)
    then some family
    else none

-- The SET of `writeSubscription` as `applyActive` calls it.
abbrev pub write_active : RcWebhookEvent → SubscriptionTier → Subscription → Subscription
write_active e tier r = record r {
  status = some SubscriptionStatus.active;
  tier = tier;
  rc_original_transaction_id = e.original_transaction_id;
  rc_product_id = e.product_id;
  rc_store = e.store;
  current_period_end = truthy e.expiration_at_ms;
  unsubscribe_detected_at = none;
}

unfoldable pub apply_active : RcConfig → RcWebhookEvent → Db → Db
apply_active cfg e db = elim (resolve_tier cfg e) [
  | none ↦ db
  | some tier ↦ update_subscriptions e.app_user_id (write_active e tier) db
]

abbrev pub set_unsubscribed : ℕ → Subscription → Subscription
set_unsubscribed now r = record r { unsubscribe_detected_at = some now }

unfoldable pub apply_cancellation : ℕ → RcWebhookEvent → Db → Db
apply_cancellation now e = update_subscriptions e.app_user_id (set_unsubscribed now)

abbrev pub set_expired : Subscription → Subscription
set_expired r = record r {
  tier = free;
  status = some SubscriptionStatus.expired;
  rc_original_transaction_id = none;
  rc_product_id = none;
  rc_store = none;
  unsubscribe_detected_at = none;
  current_period_end = none;
}

-- `existing?.tier === 'lifetime'`
abbrev pub is_lifetime_row : Option Subscription → Bool
is_lifetime_row none = false
is_lifetime_row (some r) = is_lifetime r.tier

-- SELECT … FROM subscriptions WHERE user_id = …
abbrev pub find_subscription : Text → Db → Option Subscription
find_subscription user_id db = find (λ (r : Subscription). r.user_id == user_id) db.subscriptions

unfoldable pub apply_expiration : RcWebhookEvent → Db → Db
apply_expiration e db =
    if is_lifetime_row (find_subscription e.app_user_id db)
    then db
    else update_subscriptions e.app_user_id set_expired db

abbrev pub set_billing_issue : RcWebhookEvent → Subscription → Subscription
set_billing_issue e r = record r {
  status = some SubscriptionStatus.in_grace_period;
  current_period_end = truthy e.grace_period_expiration_at_ms;
}

unfoldable pub apply_billing_issue : RcWebhookEvent → Db → Db
apply_billing_issue e = update_subscriptions e.app_user_id (set_billing_issue e)

-- `event.new_product_id ?? event.product_id ?? null`
abbrev new_product : RcWebhookEvent → Option Text
new_product e = elim e.new_product_id [ some p ↦ some p | none ↦ e.product_id ]

abbrev pub set_product : RcWebhookEvent → SubscriptionTier → Subscription → Subscription
set_product e tier r = record r { tier = tier; rc_product_id = new_product e }

unfoldable pub apply_product_change : RcConfig → RcWebhookEvent → Db → Db
apply_product_change cfg e db = elim (resolve_tier cfg e) [
  | none ↦ db
  | some tier ↦ update_subscriptions e.app_user_id (set_product e tier) db
]

unfoldable pub handle : RcConfig → ℕ → RcWebhookEvent → RcEventType → Db → EventOutcome × Db
handle cfg now e RcEventType.initial_purchase db = (handled, apply_active cfg e db)
handle cfg now e RcEventType.renewal db = (handled, apply_active cfg e db)
handle cfg now e RcEventType.uncancellation db = (handled, apply_active cfg e db)
handle cfg now e RcEventType.refund_reversed db = (handled, apply_active cfg e db)
handle cfg now e RcEventType.cancellation db = (handled, apply_cancellation now e db)
handle cfg now e RcEventType.expiration db = (handled, apply_expiration e db)
handle cfg now e RcEventType.billing_issue db = (handled, apply_billing_issue e db)
handle cfg now e RcEventType.product_change db = (handled, apply_product_change cfg e db)
handle cfg now e RcEventType.subscription_paused db = (handled, apply_expiration e db)
handle cfg now e RcEventType.subscriber_alias db = (handled, db)
handle cfg now e RcEventType.transfer db = (handled, db)
handle cfg now e RcEventType.non_renewing_purchase db = (skipped, db)
handle cfg now e RcEventType.test db = (skipped, db)
handle cfg now e RcEventType.other db = (skipped, db)

unfoldable pub dispatch : RcConfig → ℕ → RcWebhookEvent → Db → EventOutcome × Db
dispatch cfg now e = handle cfg now e e.event_type
