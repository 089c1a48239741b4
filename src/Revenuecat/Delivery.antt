-- ===== src/Revenuecat/Delivery.antt =====
-- Redelivered events at the endpoint of src/revenuecat/revenuecat.controller.ts.
use legacy_made_api.Prelude.{ℕ, ◌≡◌, ◌∙◌, refl, true, Option, List, [], ◌∷◌, arith, Text}
use legacy_made_api.Prelude.Results.{Result, ok, err}
use legacy_made_api.Schema.{Subscription, Db, EventOutcome}
use legacy_made_api.Errors.{Error}
use legacy_made_api.DbService.{transaction}
use legacy_made_api.Revenuecat.Event.{RcEventType, RcWebhookEvent, RcConfig}
use legacy_made_api.Revenuecat.Handlers.{
  apply_active, apply_cancellation, apply_expiration, apply_billing_issue, apply_product_change,
  dispatch, handle, find_subscription,
}
use legacy_made_api.Revenuecat.Reconcile.{
  Response, RcSubscriberPayload, DesiredState, derive_desired_state, reconcile_from_rc,
  reconcile_with, reconcile_found, reconcile_tx, fetch_subscriber,
}
use legacy_made_api.Revenuecat.Webhook.{
  is_event_processed, record_processed, process_event, handle_webhook, Reply, deduped,
}

handle-processed :
    (cfg : RcConfig) (now : ℕ) (e : RcWebhookEvent) (t : RcEventType) (db : Db)
    → (handle cfg now e t db).1.processed_revenuecat_events ≡ db.processed_revenuecat_events
unfolding handle apply_active apply_cancellation apply_expiration apply_billing_issue
    apply_product_change
handle-processed cfg now e t db = ground arith

reconcile_found-processed :
    (d : DesiredState) (u : Text) (o : Option Subscription) (db : Db)
    → (transaction (reconcile_found d u o) db).1.processed_revenuecat_events
      ≡ db.processed_revenuecat_events
unfolding reconcile_found
reconcile_found-processed d u o db = ground arith

reconcile_with-processed :
    (cfg : RcConfig) (now : ℕ) (u : Text) (r : Result Error RcSubscriberPayload) (db : Db)
    → (reconcile_with cfg now u r db).1.processed_revenuecat_events ≡ db.processed_revenuecat_events
unfolding reconcile_with reconcile_tx
reconcile_with-processed cfg now u (err e) db = refl
reconcile_with-processed cfg now u (ok p) db =
    reconcile_found-processed (derive_desired_state cfg now p) u (find_subscription u db) db

record_processed-is_event_processed :
    (now : ℕ) (e : RcWebhookEvent) (o : EventOutcome) (db : Db)
    → is_event_processed e.id (record_processed now e o db) ≡ true
unfolding record_processed is_event_processed
record_processed-is_event_processed now e o db = ground arith

is_event_processed_cong :
    (id : Text) (a b : Db)
    → a.processed_revenuecat_events ≡ b.processed_revenuecat_events
    → is_event_processed id a ≡ is_event_processed id b
unfolding is_event_processed
is_event_processed_cong id a b h = rw h

process_event-is_event_processed :
    (cfg : RcConfig) (now : ℕ) (fetch : Text → Response) (e : RcWebhookEvent) (db : Db)
    → is_event_processed e.id (process_event cfg now fetch e db).1 ≡ true
unfolding process_event reconcile_from_rc
process_event-is_event_processed cfg now fetch e db =
    let (outcome, dispatched) = dispatch cfg now e db in
    let committed = record_processed now e outcome dispatched in
    let subscriber = fetch_subscriber fetch e.app_user_id in
    ground (
      arith,
      record_processed-is_event_processed now e outcome dispatched,
      is_event_processed_cong e.id (reconcile_with cfg now e.app_user_id subscriber committed).1
          committed (reconcile_with-processed cfg now e.app_user_id subscriber committed),
    )

dispatch-processed :
    (cfg : RcConfig) (now : ℕ) (e : RcWebhookEvent) (db : Db)
    → (dispatch cfg now e db).1.processed_revenuecat_events ≡ db.processed_revenuecat_events
unfolding dispatch
dispatch-processed cfg now e db = handle-processed cfg now e e.event_type db

record_processed-keeps :
    (id : Text) (now : ℕ) (e : RcWebhookEvent) (o : EventOutcome) (db : Db)
    → is_event_processed id db ≡ true
    → is_event_processed id (record_processed now e o db) ≡ true
unfolding record_processed is_event_processed
record_processed-keeps id now e o db h = ground arith

process_event-keeps :
    (id : Text) (cfg : RcConfig) (now : ℕ) (fetch : Text → Response) (e : RcWebhookEvent) (db : Db)
    → is_event_processed id db ≡ true
    → is_event_processed id (process_event cfg now fetch e db).1 ≡ true
unfolding process_event reconcile_from_rc
process_event-keeps id cfg now fetch e db h =
    let (outcome, dispatched) = dispatch cfg now e db in
    let committed = record_processed now e outcome dispatched in
    let subscriber = fetch_subscriber fetch e.app_user_id in
    let before = is_event_processed_cong id dispatched db (dispatch-processed cfg now e db) in
    let recorded = record_processed-keeps id now e outcome dispatched (before ∙ h) in
    ground (
      arith,
      recorded,
      is_event_processed_cong id (reconcile_with cfg now e.app_user_id subscriber committed).1
          committed (reconcile_with-processed cfg now e.app_user_id subscriber committed),
    )

-- A request to the endpoint, with what RevenueCat answers a reconciliation at this time.
pub record WebhookRequest : Type 0 where
  pub time : ℕ
  pub fetch : Text → Response
  pub header : Option Text
  pub event : RcWebhookEvent

-- The database after requests, one after the other.
abbrev pub served : RcConfig → Text → List WebhookRequest → Db → Db
served cfg expected [] db = db
served cfg expected (q ∷ requests) db =
    served cfg expected requests (handle_webhook cfg expected q.time q.fetch q.header q.event db).1

served-keeps :
    (id : Text) (cfg : RcConfig) (expected : Text) (requests : List WebhookRequest) (db : Db)
    → is_event_processed id db ≡ true
    → is_event_processed id (served cfg expected requests db) ≡ true
unfolding handle_webhook
served-keeps id cfg expected [] db h = h
served-keeps id cfg expected (q ∷ requests) db h =
    served-keeps id cfg expected requests
      (handle_webhook cfg expected q.time q.fetch q.header q.event db).1
      (ground (arith, process_event-keeps id cfg q.time q.fetch q.event db h))

-- When a delivery of an event was answered with success, a later delivery of this event under the same
-- header is answered as a duplicate and changes nothing in the database, after any other requests to
-- the endpoint, at whatever time it comes and whatever RevenueCat would answer then. The pruning job,
-- which deletes records after 90 days, has not run in between.
pub handle_webhook_redelivery :
    (cfg : RcConfig) (expected : Text) (now later : ℕ) (fetch fetch_later : Text → Response)
    (header : Option Text) (e : RcWebhookEvent) (between : List WebhookRequest) (db : Db)
    (r : Reply)
    → (handle_webhook cfg expected now fetch header e db).0 ≡ ok r
    → let db' = served cfg expected between (handle_webhook cfg expected now fetch header e db).1 in
      handle_webhook cfg expected later fetch_later header e db' ≡ (ok deduped, db')
unfolding handle_webhook
handle_webhook_redelivery cfg expected now later fetch fetch_later header e between db r h =
    let first = (handle_webhook cfg expected now fetch header e db).1 in
    let recorded : is_event_processed e.id first ≡ true =
      ground (arith, process_event-is_event_processed cfg now fetch e db) in
    ground (arith, served-keeps e.id cfg expected between first recorded)
