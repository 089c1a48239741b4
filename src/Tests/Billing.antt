-- ===== src/Tests/Billing.antt =====
-- Examples for src/revenuecat and for the expiration job.
use legacy_made_api.Prelude.{
  ◌≡◌, refl, ℕ, ◌+◌, false, none, some, ◌*◌, [], ◌∷◌, Text, leb, if◌then◌else◌, arith,
}
use legacy_made_api.Prelude.Results.{ok}
use legacy_made_api.Schema.{SubscriptionTier, SubscriptionStatus, free}
use legacy_made_api.Entitlements.Config.{subscription_grace_period_ms}
use legacy_made_api.Revenuecat.Event.{RcEventType, RcWebhookEvent, RcConfig}
use legacy_made_api.Revenuecat.Handlers.{resolve_tier, dispatch}
use legacy_made_api.Revenuecat.Reconcile.{Response, ExpiresDate, ReconcileResult}
use legacy_made_api.Revenuecat.Webhook.{handle_webhook, is_event_processed, received, deduped}
use legacy_made_api.Revenuecat.Rows.{DbEvolves, handle_webhook-Evolves}
use legacy_made_api.Revenuecat.Delivery.{WebhookRequest, served, handle_webhook_redelivery}
use legacy_made_api.Revenuecat.Tiers.{tier_at, activation_grants_tier}
use legacy_made_api.Expiration.{
  find_expired_subscriptions, downgrade_expired_subscriptions, handle_expired_subscriptions,
}
use legacy_made_api.Expiration.Exact.{handle_expired_invisible}
use legacy_made_api.Expiration.Race.{renewal_lost_to_job}
use legacy_made_api.Tests.{alice, database, subscription}

abbrev config : RcConfig
config = record { entitlement_individual = 91; entitlement_family = 92 }

-- An event for the first user that grants the family entitlement.
abbrev event : RcEventType → RcWebhookEvent
event t = record {
  event_type = t;
  id = 500;
  app_user_id = alice;
  original_transaction_id = some 5;
  product_id = some 6;
  new_product_id = none;
  entitlement_ids = some (92 ∷ []);
  entitlement_id = none;
  expiration_at_ms = some 9000;
  grace_period_expiration_at_ms = some 4000;
  store = some 7;
}

abbrev no_answer : Text → Response
no_answer _ = Response.network_failure

-- A payload with a family entitlement that does not end.
abbrev answer : Text → Response
answer _ = Response.body (record {
  entitlements = λ i.
      if leb i 91
      then none
      else some (record { expires_date = ExpiresDate.null; product_identifier = some 6 });
  subscriptions = λ _. none;
})

handle_webhook-Evolves_example :
    DbEvolves alice database
      (handle_webhook config 8 100 no_answer (some 8) (event RcEventType.renewal) database).1
handle_webhook-Evolves_example =
    handle_webhook-Evolves config 8 100 no_answer (some 8) (event RcEventType.renewal) database

-- A cancellation of the same user, between two deliveries of the renewal.
abbrev cancelled : WebhookRequest
cancelled = record {
  time = 150;
  fetch = answer;
  header = some 8;
  event = record (event RcEventType.cancellation) { id = 77 };
}

handle_webhook_redelivery_example :
    let db' =
      served config 8
        (cancelled ∷ [])
        (handle_webhook config 8 100 no_answer (some 8) (event RcEventType.renewal) database).1 in
    handle_webhook config 8 200 answer (some 8) (event RcEventType.renewal) db' ≡ (ok deduped, db')
unfolding handle_webhook is_event_processed
handle_webhook_redelivery_example =
    handle_webhook_redelivery config 8 100 200 no_answer answer (some 8) (event RcEventType.renewal)
      (cancelled ∷ []) database received refl

activation_grants_tier_example :
    tier_at 8000 alice (dispatch config 100 (event RcEventType.renewal) database).1
    ≡ (if leb 8000 (9000 + subscription_grace_period_ms) then SubscriptionTier.family else free)
unfolding resolve_tier
activation_grants_tier_example =
    activation_grants_tier config 100 (event RcEventType.renewal) SubscriptionTier.family database
      (subscription alice SubscriptionTier.individual 1000) 9000 8000 refl refl refl (omega arith)
      refl refl

abbrev reconciled : ReconcileResult
reconciled = record {
  tier = SubscriptionTier.family;
  status = some SubscriptionStatus.active;
  current_period_end = none;
  cancellation_pending = false;
}

-- The first user's subscription is two days past its period.
abbrev job_time : ℕ
job_time = 1000 + 2 * subscription_grace_period_ms

handle_expired_invisible_example :
    tier_at job_time alice (handle_expired_subscriptions job_time database)
    ≡ tier_at job_time alice database
handle_expired_invisible_example =
    handle_expired_invisible job_time job_time alice database (refl, (refl, tt)) (omega arith)

renewal_lost_to_job_example :
    tier_at job_time alice (
      downgrade_expired_subscriptions
        (find_expired_subscriptions job_time database)
        (dispatch config job_time (event RcEventType.renewal) database).1)
    ≡ free
unfolding resolve_tier
renewal_lost_to_job_example =
    renewal_lost_to_job config job_time job_time job_time (event RcEventType.renewal)
      SubscriptionTier.family database (subscription alice SubscriptionTier.individual 1000) refl
      refl refl refl
