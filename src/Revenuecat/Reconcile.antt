-- ===== src/Revenuecat/Reconcile.antt =====
-- `reconcileFromRc`, `fetchSubscriber` and `deriveDesiredState` of
-- src/revenuecat/revenuecat.service.ts. The HTTP request is a parameter. Dates in the payload stand
-- as the times that they denote.
use legacy_made_api.Prelude.{
  ℕ, Bool, true, false, Option, none, some, Text, truthy, ltb, if◌then◌else◌,
}
use legacy_made_api.Prelude.Results.{ok, err}
use legacy_made_api.Schema.{
  Subscription, SubscriptionTier, SubscriptionStatus, is_lifetime, free, individual, family,
  Session,
}
use legacy_made_api.Errors.{Result, bad_gateway, internal}
use legacy_made_api.DbService.{Tx, Method, bypass_rls}
use legacy_made_api.Revenuecat.Event.{RcConfig}
use legacy_made_api.Revenuecat.Handlers.{update_subscriptions, find_subscription}

-- `expires_date`: null, absent, or a date
pub data ExpiresDate : Type 0 where
  null missing : ExpiresDate
  at : ℕ → ExpiresDate

pub record RcSubscriberSubscription : Type 0 where
  pub store : Option Text
  pub unsubscribe_detected_at : Option ℕ
  pub billing_issues_detected_at : Option ℕ

pub record RcSubscriberEntitlement : Type 0 where
  pub expires_date : ExpiresDate
  pub product_identifier : Option Text

-- The maps of the payload, by their keys; `subscriptions` has no key where the payload lacks it.
pub record RcSubscriberPayload : Type 0 where
  pub entitlements : Text → Option RcSubscriberEntitlement
  pub subscriptions : Text → Option RcSubscriberSubscription

-- How `fetch` can end.
pub data Response : Type 0 where
  network_failure not_ok malformed : Response
  body : RcSubscriberPayload → Response

unfoldable pub fetch_subscriber : (Text → Response) → Text → Result RcSubscriberPayload
fetch_subscriber fetch user_id = elim (fetch user_id) [
  | network_failure ↦ err bad_gateway
  | not_ok ↦ err bad_gateway
  | malformed ↦ err internal
  | body p ↦ ok p
]

-- What to write; `none` for a column stands for `undefined`, which keeps the column.
pub record DesiredState : Type 0 where
  pub tier : SubscriptionTier
  pub status : SubscriptionStatus
  pub rc_product_id : Option Text
  pub rc_store : Option (Option Text)
  pub current_period_end : Option ℕ
  pub unsubscribe_detected_at : Option (Option ℕ)

expires_after : ℕ → ExpiresDate → Bool
expires_after now null = true
expires_after now missing = false
expires_after now (at t) = ltb now t

-- `isActive`, with the entitlement that is active
active_entitlement : ℕ → Option RcSubscriberEntitlement → Option RcSubscriberEntitlement
active_entitlement now none = none
active_entitlement now (some e) = if expires_after now e.expires_date then some e else none

abbrev inactive : DesiredState
inactive = record {
  tier = free;
  status = SubscriptionStatus.expired;
  rc_product_id = none;
  rc_store = some none;
  current_period_end = none;
  unsubscribe_detected_at = some none;
}

date_of : ExpiresDate → Option ℕ
date_of null = none
date_of missing = none
date_of (at t) = some t

status_of : Option RcSubscriberSubscription → SubscriptionStatus
status_of none = SubscriptionStatus.active
status_of (some b) = elim b.billing_issues_detected_at [
  | none ↦ SubscriptionStatus.active
  | some _ ↦ SubscriptionStatus.in_grace_period
]

desired_from :
    SubscriptionTier → RcSubscriberEntitlement → Option RcSubscriberSubscription → DesiredState
unfolding status_of date_of
desired_from tier e sub = record {
  tier = tier;
  status = status_of sub;
  rc_product_id = e.product_identifier;
  rc_store = elim sub [ none ↦ none | some b ↦ some b.store ];
  current_period_end = date_of e.expires_date;
  unsubscribe_detected_at = elim sub [ none ↦ none | some b ↦ some b.unsubscribe_detected_at ];
}

-- `productId ? subscriber.subscriptions?.[productId] : undefined`
subscription_block : RcSubscriberPayload → RcSubscriberEntitlement → Option RcSubscriberSubscription
subscription_block p e = elim (truthy e.product_identifier) [
  | none ↦ none
  | some product ↦ p.subscriptions product
]

unfoldable pub derive_desired_state : RcConfig → ℕ → RcSubscriberPayload → DesiredState
unfolding expires_after active_entitlement desired_from subscription_block
derive_desired_state cfg now p =
    elim (active_entitlement now (p.entitlements cfg.entitlement_individual)) [
      | some e ↦ desired_from individual e (subscription_block p e)
      | none ↦ elim (active_entitlement now (p.entitlements cfg.entitlement_family)) [
        | some e ↦ desired_from family e (subscription_block p e)
        | none ↦ inactive
      ]
    ]

pub record ReconcileResult : Type 0 where
  pub tier : SubscriptionTier
  pub status : Option SubscriptionStatus
  pub current_period_end : Option ℕ
  pub cancellation_pending : Bool

abbrev is_set : {A : Type 0} → Option A → Bool
is_set none = false
is_set (some _) = true

abbrev keep_unless : {A : Type 0} → Option A → A → A
keep_unless none old = old
keep_unless (some a) old = a

-- The SET of the reconciliation: columns whose value is `undefined` are kept.
abbrev pub set_desired : DesiredState → Subscription → Subscription
set_desired d r = record r {
  tier = d.tier;
  status = some d.status;
  current_period_end = d.current_period_end;
  rc_product_id = d.rc_product_id;
  rc_store = keep_unless d.rc_store r.rc_store;
  unsubscribe_detected_at = keep_unless d.unsubscribe_detected_at r.unsubscribe_detected_at;
}

-- `existing?.unsubscribeDetectedAt`
abbrev existing_unsubscribe : Option Subscription → Option ℕ
existing_unsubscribe none = none
existing_unsubscribe (some r) = r.unsubscribe_detected_at

report_desired : DesiredState → Option Subscription → ReconcileResult
report_desired d existing = record {
  tier = d.tier;
  status = some d.status;
  current_period_end = d.current_period_end;
  cancellation_pending =
      is_set (keep_unless d.unsubscribe_detected_at (existing_unsubscribe existing));
}

-- What is reported about a stored row.
abbrev pub report_row : Subscription → ReconcileResult
report_row r = record {
  tier = r.tier;
  status = r.status;
  current_period_end = r.current_period_end;
  cancellation_pending = is_set r.unsubscribe_detected_at;
}

align : DesiredState → Text → Option Subscription → Tx ReconcileResult
unfolding report_desired
align d user_id existing db =
    ok (report_desired d existing, update_subscriptions user_id (set_desired d) db)

-- The transaction, by what it found: a lifetime row is reported and left alone.
unfoldable pub reconcile_found : DesiredState → Text → Option Subscription → Tx ReconcileResult
unfolding align
reconcile_found d user_id none db = align d user_id none db
reconcile_found d user_id (some r) db =
    if is_lifetime r.tier then ok (report_row r, db) else align d user_id (some r) db

unfoldable pub reconcile_tx : DesiredState → Text → Session → Tx ReconcileResult
reconcile_tx d user_id s db = reconcile_found d user_id (find_subscription user_id db) db

-- The rest of the method, by how the request ended.
unfoldable pub reconcile_with :
    RcConfig → ℕ → Text → Result RcSubscriberPayload → Method ReconcileResult
reconcile_with cfg now user_id (err e) db = (err e, db)
reconcile_with cfg now user_id (ok p) db =
    bypass_rls (reconcile_tx (derive_desired_state cfg now p) user_id) db

unfoldable pub reconcile_from_rc : RcConfig → ℕ → (Text → Response) → Text → Method ReconcileResult
unfolding reconcile_with
reconcile_from_rc cfg now fetch user_id =
    reconcile_with cfg now user_id (fetch_subscriber fetch user_id)
