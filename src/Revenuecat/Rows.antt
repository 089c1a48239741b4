-- ===== src/Revenuecat/Rows.antt =====
-- The rows of subscriptions under the webhook of src/revenuecat.
use legacy_made_api.Prelude.{
  ℕ, ◌≡◌, refl, ◌⊎◌, inl, inr, false, Option, none, some, arith, Text, Option-cases, Bool-cases,
}
use legacy_made_api.Prelude.Results.{ok, err}
use legacy_made_api.TableLaws.{Rows, Rows-refl, Rows-trans, Rows-update}
use legacy_made_api.Schema.{Subscription, SubscriptionTier, is_lifetime, Db, EventOutcome}
use legacy_made_api.Errors.{Result}
use legacy_made_api.DbService.{transaction}
use legacy_made_api.Revenuecat.Event.{RcEventType, RcWebhookEvent, RcConfig}
use legacy_made_api.Revenuecat.Handlers.{
  not_lifetime, update_subscriptions, resolve_tier, apply_active, apply_cancellation,
  apply_expiration, apply_billing_issue, apply_product_change, dispatch, write_active, set_product,
  set_unsubscribed, set_expired, set_billing_issue, is_lifetime_row, find_subscription, handle,
}
use legacy_made_api.Revenuecat.Reconcile.{
  Response, RcSubscriberPayload, DesiredState, derive_desired_state, reconcile_from_rc,
  reconcile_with, reconcile_found, reconcile_tx, set_desired, fetch_subscriber,
}
use legacy_made_api.Revenuecat.Webhook.{
  is_authorized, reconciles_after, is_event_processed, record_processed, process_event,
  handle_webhook,
}

-- What may become of a row by what concerns `user_id`: it stays as it is, or it belongs to this
-- user, is not of the lifetime tier, and becomes another row of theirs that is not either.
abbrev Evolves : Text → Subscription → Subscription → Type 0
Evolves user_id r r' =
    (r' ≡ r)
    ⊎ ((r.user_id ≡ user_id)
        × (is_lifetime r.tier ≡ false)
        × (r'.user_id ≡ user_id)
        × (r'.id ≡ r.id)
        × (is_lifetime r'.tier ≡ false))

abbrev pub DbEvolves : Text → Db → Db → Type 0
DbEvolves user_id db db' = Rows (Evolves user_id) db.subscriptions db'.subscriptions

module _ (u : Text) where
  Evolves-trans : (x y z : Subscription) → Evolves u x y → Evolves u y z → Evolves u x z
  Evolves-trans x y z h k = ground arith

  DbEvolves-refl : (db : Db) → DbEvolves u db db
  DbEvolves-refl db = Rows-refl (Evolves u) (λ x. inl refl) db.subscriptions

  DbEvolves-trans : (a b c : Db) → DbEvolves u a b → DbEvolves u b c → DbEvolves u a c
  DbEvolves-trans a b c h k =
      Rows-trans (Evolves u) Evolves-trans a.subscriptions b.subscriptions c.subscriptions h k

  -- An UPDATE WHERE notLifetime that keeps the keys and does not grant the lifetime tier.
  update_subscriptions-Evolves :
      (f : Subscription → Subscription)
      → ((r : Subscription)
          → is_lifetime r.tier ≡ false
          → ((f r).user_id ≡ r.user_id) × ((f r).id ≡ r.id) × (is_lifetime (f r).tier ≡ false))
      → (db : Db) → DbEvolves u db (update_subscriptions u f db)
  update_subscriptions-Evolves f keeps db =
      Rows-update (Evolves u) (not_lifetime u) f (λ r. ground (arith, keeps r)) db.subscriptions

resolve_tier-paid :
    (cfg : RcConfig) (e : RcWebhookEvent) (tier : SubscriptionTier)
    → resolve_tier cfg e ≡ some tier
    → is_lifetime tier ≡ false
unfolding resolve_tier
resolve_tier-paid cfg e tier h = ground arith

apply_active-Evolves :
    (cfg : RcConfig) (e : RcWebhookEvent) (db : Db)
    → DbEvolves e.app_user_id db (apply_active cfg e db)
unfolding apply_active
apply_active-Evolves cfg e db = elim (Option-cases (resolve_tier cfg e)) [
  | inl unmapped ↦ rw (unmapped, apply_active) (DbEvolves-refl e.app_user_id db)
  | inr (tier, mapped) ↦
      rw (mapped, apply_active)
        (update_subscriptions-Evolves e.app_user_id (write_active e tier)
          (λ r h. (refl, refl, resolve_tier-paid cfg e tier mapped)) db)
]

apply_product_change-Evolves :
    (cfg : RcConfig) (e : RcWebhookEvent) (db : Db)
    → DbEvolves e.app_user_id db (apply_product_change cfg e db)
unfolding apply_product_change
apply_product_change-Evolves cfg e db = elim (Option-cases (resolve_tier cfg e)) [
  | inl unmapped ↦ rw (unmapped, apply_product_change) (DbEvolves-refl e.app_user_id db)
  | inr (tier, mapped) ↦
      rw (mapped, apply_product_change)
        (update_subscriptions-Evolves e.app_user_id (set_product e tier)
          (λ r h. (refl, refl, resolve_tier-paid cfg e tier mapped)) db)
]

apply_expiration-Evolves :
    (e : RcWebhookEvent) (db : Db) → DbEvolves e.app_user_id db (apply_expiration e db)
unfolding apply_expiration
apply_expiration-Evolves e db =
    elim (Bool-cases (is_lifetime_row (find_subscription e.app_user_id db))) [
      | inl skipped ↦ rw (skipped, apply_expiration) (DbEvolves-refl e.app_user_id db)
      | inr found ↦
          rw (found, apply_expiration)
            (update_subscriptions-Evolves e.app_user_id set_expired (λ r h. (refl, refl, refl)) db)
    ]

handle-Evolves :
    (cfg : RcConfig) (now : ℕ) (e : RcWebhookEvent) (t : RcEventType) (db : Db)
    → DbEvolves e.app_user_id db (handle cfg now e t db).1
unfolding handle apply_cancellation apply_billing_issue
handle-Evolves cfg now e RcEventType.initial_purchase db = apply_active-Evolves cfg e db
handle-Evolves cfg now e RcEventType.renewal db = apply_active-Evolves cfg e db
handle-Evolves cfg now e RcEventType.uncancellation db = apply_active-Evolves cfg e db
handle-Evolves cfg now e RcEventType.refund_reversed db = apply_active-Evolves cfg e db
handle-Evolves cfg now e RcEventType.cancellation db =
    update_subscriptions-Evolves e.app_user_id (set_unsubscribed now) (λ r h. (refl, refl, h)) db
handle-Evolves cfg now e RcEventType.expiration db = apply_expiration-Evolves e db
handle-Evolves cfg now e RcEventType.billing_issue db =
    update_subscriptions-Evolves e.app_user_id (set_billing_issue e) (λ r h. (refl, refl, h)) db
handle-Evolves cfg now e RcEventType.product_change db = apply_product_change-Evolves cfg e db
handle-Evolves cfg now e RcEventType.subscription_paused db = apply_expiration-Evolves e db
handle-Evolves cfg now e _ db = DbEvolves-refl e.app_user_id db

dispatch-Evolves :
    (cfg : RcConfig) (now : ℕ) (e : RcWebhookEvent) (db : Db)
    → DbEvolves e.app_user_id db (dispatch cfg now e db).1
unfolding dispatch
dispatch-Evolves cfg now e db = handle-Evolves cfg now e e.event_type db

derive-paid :
    (cfg : RcConfig) (now : ℕ) (p : RcSubscriberPayload)
    → is_lifetime (derive_desired_state cfg now p).tier ≡ false
unfolding derive_desired_state
derive-paid cfg now p = ground arith

reconcile_found-Evolves :
    (d : DesiredState) (u : Text) (o : Option Subscription) (db : Db)
    → is_lifetime d.tier ≡ false
    → DbEvolves u db (transaction (reconcile_found d u o) db).1
unfolding reconcile_found
reconcile_found-Evolves d u none db paid =
    update_subscriptions-Evolves u (set_desired d) (λ r h. (refl, refl, paid)) db
reconcile_found-Evolves d u (some r) db paid = elim (Bool-cases (is_lifetime r.tier)) [
  | inl granted ↦ rw (granted, transaction) (DbEvolves-refl u db)
  | inr other ↦
      rw (other, transaction)
        (update_subscriptions-Evolves u (set_desired d) (λ r h. (refl, refl, paid)) db)
]

reconcile_with-Evolves :
    (cfg : RcConfig) (now : ℕ) (u : Text) (r : Result RcSubscriberPayload) (db : Db)
    → DbEvolves u db (reconcile_with cfg now u r db).1
unfolding reconcile_with reconcile_tx
reconcile_with-Evolves cfg now u (err e) db = DbEvolves-refl u db
reconcile_with-Evolves cfg now u (ok p) db =
    let d = derive_desired_state cfg now p in
    reconcile_found-Evolves d u (find_subscription u db) db (derive-paid cfg now p)

reconcile-Evolves :
    (cfg : RcConfig) (now : ℕ) (fetch : Text → Response) (u : Text) (db : Db)
    → DbEvolves u db (reconcile_from_rc cfg now fetch u db).1
unfolding reconcile_from_rc
reconcile-Evolves cfg now fetch u db =
    reconcile_with-Evolves cfg now u (fetch_subscriber fetch u) db

record_processed-subscriptions :
    (now : ℕ) (e : RcWebhookEvent) (o : EventOutcome) (db : Db)
    → (record_processed now e o db).subscriptions ≡ db.subscriptions
unfolding record_processed
record_processed-subscriptions now e o db = ground arith

process_event-Evolves :
    (cfg : RcConfig) (now : ℕ) (fetch : Text → Response) (e : RcWebhookEvent) (db : Db)
    → DbEvolves e.app_user_id db (process_event cfg now fetch e db).1
unfolding process_event
process_event-Evolves cfg now fetch e db =
    let (outcome, dispatched) = dispatch cfg now e db in
    let committed = record_processed now e outcome dispatched in
    let first : DbEvolves e.app_user_id db committed =
      rw record_processed-subscriptions (dispatch-Evolves cfg now e db) in
    elim (Bool-cases (reconciles_after e.event_type)) [
      | inl late ↦ rw late (
          DbEvolves-trans e.app_user_id db committed
            (reconcile_from_rc cfg now fetch e.app_user_id committed).1 first
            (reconcile-Evolves cfg now fetch e.app_user_id committed))
      | inr early ↦ rw early first
    ]

-- Whatever a request to the webhook carries, and however RevenueCat answers a reconciliation, the
-- rows of subscriptions stay in place, and each row stays as it is unless it belongs to the event's
-- user and is not of the lifetime tier; such a row keeps its user and its id and does not become a
-- lifetime row.
pub handle_webhook-Evolves :
    (cfg : RcConfig) (expected : Text) (now : ℕ) (fetch : Text → Response) (header : Option Text)
    (e : RcWebhookEvent) (db : Db)
    → DbEvolves e.app_user_id db (handle_webhook cfg expected now fetch header e db).1
unfolding handle_webhook
handle_webhook-Evolves cfg expected now fetch header e db =
    elim (Bool-cases (is_authorized header expected)) [
      | inr refused ↦ rw refused (DbEvolves-refl e.app_user_id db)
      | inl accepted ↦ elim (Bool-cases (is_event_processed e.id db)) [
        | inl seen ↦ rw (accepted, seen) (DbEvolves-refl e.app_user_id db)
        | inr fresh ↦ rw (accepted, fresh) (process_event-Evolves cfg now fetch e db)
      ]
    ]
