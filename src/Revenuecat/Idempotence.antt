-- ===== src/Revenuecat/Idempotence.antt =====
-- One event handled twice by src/revenuecat/revenuecat.service.ts, without the log of processed
-- events.
use legacy_made_api.Prelude.{
  ℕ, ◌≡◌, ◌≢◌, refl, inl, inr, false, some, arith, Text, ap, ◌==◌, Option-cases, Bool-cases,
}
use legacy_made_api.TableLaws.{update_idem, find-update}
use legacy_made_api.Schema.{Subscription, is_lifetime, Db}
use legacy_made_api.Revenuecat.Found.{find_subscription-update}
use legacy_made_api.Revenuecat.Event.{RcEventType, RcWebhookEvent, RcConfig}
use legacy_made_api.Revenuecat.Handlers.{
  not_lifetime, update_subscriptions, resolve_tier, apply_active, apply_cancellation,
  apply_expiration, apply_billing_issue, apply_product_change, dispatch, handle, write_active,
  set_product, set_expired, set_billing_issue, set_unsubscribed, find_subscription, is_lifetime_row,
}

update_subscriptions_idem :
    (u : Text) (f : Subscription → Subscription)
    → ((r : Subscription) → f (f r) ≡ f r)
    → (db : Db)
    → update_subscriptions u f (update_subscriptions u f db) ≡ update_subscriptions u f db
update_subscriptions_idem u f again db =
    ap (λ rows. record db { subscriptions = rows })
      (update_idem (not_lifetime u) f again db.subscriptions)

active_idem :
    (cfg : RcConfig) (e : RcWebhookEvent) (db : Db)
    → apply_active cfg e (apply_active cfg e db) ≡ apply_active cfg e db
unfolding apply_active
active_idem cfg e db = elim (Option-cases (resolve_tier cfg e)) [
  | inl unmapped ↦ ground arith
  | inr (tier, mapped) ↦
      ground (arith, update_subscriptions_idem e.app_user_id (write_active e tier) (λ r. refl) db)
]

product_change_idem :
    (cfg : RcConfig) (e : RcWebhookEvent) (db : Db)
    → apply_product_change cfg e (apply_product_change cfg e db) ≡ apply_product_change cfg e db
unfolding apply_product_change
product_change_idem cfg e db = elim (Option-cases (resolve_tier cfg e)) [
  | inl unmapped ↦ ground arith
  | inr (tier, mapped) ↦
      ground (arith, update_subscriptions_idem e.app_user_id (set_product e tier) (λ r. refl) db)
]

expiration_idem :
    (e : RcWebhookEvent) (db : Db)
    → apply_expiration e (apply_expiration e db) ≡ apply_expiration e db
unfolding apply_expiration
expiration_idem e db = elim (Bool-cases (is_lifetime_row (find_subscription e.app_user_id db))) [
  | inl skipped ↦ ground arith
  | inr found ↦ ground (
    arith,
    update_subscriptions_idem e.app_user_id set_expired (λ r. refl) db,
    find-update (λ (r : Subscription). r.user_id == e.app_user_id) (not_lifetime e.app_user_id)
        set_expired (λ r. refl) db.subscriptions,
  )
]

billing_issue_idem :
    (e : RcWebhookEvent) (db : Db)
    → apply_billing_issue e (apply_billing_issue e db) ≡ apply_billing_issue e db
unfolding apply_billing_issue
billing_issue_idem e db =
    update_subscriptions_idem e.app_user_id (set_billing_issue e) (λ r. refl) db

handle_idem :
    (cfg : RcConfig) (now later : ℕ) (e : RcWebhookEvent) (t : RcEventType) (db : Db)
    → t ≢ RcEventType.cancellation
    → (handle cfg later e t (handle cfg now e t db).1).1 ≡ (handle cfg now e t db).1
unfolding handle
handle_idem cfg now later e RcEventType.initial_purchase db h = active_idem cfg e db
handle_idem cfg now later e RcEventType.renewal db h = active_idem cfg e db
handle_idem cfg now later e RcEventType.uncancellation db h = active_idem cfg e db
handle_idem cfg now later e RcEventType.refund_reversed db h = active_idem cfg e db
handle_idem cfg now later e RcEventType.cancellation db h = absurd (h refl)
handle_idem cfg now later e RcEventType.expiration db h = expiration_idem e db
handle_idem cfg now later e RcEventType.billing_issue db h = billing_issue_idem e db
handle_idem cfg now later e RcEventType.product_change db h = product_change_idem cfg e db
handle_idem cfg now later e RcEventType.subscription_paused db h = expiration_idem e db
handle_idem cfg now later e _ db h = refl

-- Handling an event a second time, later, leaves the database as the first time did, for every type
-- of event but a cancellation.
pub dispatch_idem :
    (cfg : RcConfig) (now later : ℕ) (e : RcWebhookEvent) (db : Db)
    → e.event_type ≢ RcEventType.cancellation
    → (dispatch cfg later e (dispatch cfg now e db).1).1 ≡ (dispatch cfg now e db).1
unfolding dispatch
dispatch_idem cfg now later e db h = handle_idem cfg now later e e.event_type db h

-- A cancellation that is handled again later overwrites the time at which it was noticed, for every
-- user whose row is not of the lifetime tier.
pub cancellation_overwrites :
    (cfg : RcConfig) (now later : ℕ) (e : RcWebhookEvent) (db : Db) (r : Subscription)
    → e.event_type ≡ RcEventType.cancellation
    → find_subscription e.app_user_id db ≡ some r
    → is_lifetime r.tier ≡ false
    → find_subscription e.app_user_id (dispatch cfg later e (dispatch cfg now e db).1).1
      ≡ some (record r { unsubscribe_detected_at = some later })
unfolding dispatch handle apply_cancellation
cancellation_overwrites cfg now later e db r t found other =
    rw (t, handle)
      (let first =
          find_subscription-update e.app_user_id (set_unsubscribed now) (λ x. refl) db r found
            other in
        find_subscription-update e.app_user_id (set_unsubscribed later) (λ x. refl)
          (update_subscriptions e.app_user_id (set_unsubscribed now) db) (set_unsubscribed now r)
          first other)
