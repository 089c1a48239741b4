-- ===== src/Revenuecat/Webhook.antt =====
-- `isEventProcessed` and `processEvent` of src/revenuecat/revenuecat.service.ts, the webhook
-- endpoint of src/revenuecat/revenuecat.controller.ts and the pruning of
-- src/revenuecat/processed-events-prune.service.ts.
use legacy_made_api.Prelude.{
  ℕ, ◌*◌, ◌-◌, Bool, true, false, Option, none, some, ◌∷◌, Text, truthy, ltb, ◌==◌, if◌then◌else◌,
}
use legacy_made_api.Prelude.Results.{ok, err}
use legacy_made_api.Prelude.Tables.{any, delete}
use legacy_made_api.Schema.{Db, EventOutcome, ProcessedEvent}
use legacy_made_api.Errors.{unauthorized}
use legacy_made_api.DbService.{Method}
use legacy_made_api.Revenuecat.Event.{RcEventType, RcWebhookEvent, RcConfig}
use legacy_made_api.Revenuecat.Handlers.{dispatch}
use legacy_made_api.Revenuecat.Reconcile.{Response, reconcile_from_rc}

unfoldable pub is_event_processed : Text → Db → Bool
is_event_processed event_id db =
    any (λ (p : ProcessedEvent). p.event_id == event_id) db.processed_revenuecat_events

-- INSERT … ON CONFLICT (event_id) DO NOTHING
unfoldable pub record_processed : ℕ → RcWebhookEvent → EventOutcome → Db → Db
record_processed now e outcome db = if is_event_processed e.id db then db else record db {
  processed_revenuecat_events =
      record { event_id = e.id; received_at = now; outcome = outcome }
      ∷ db.processed_revenuecat_events;
}

-- RECONCILE_AFTER_EVENT_TYPES
abbrev pub reconciles_after : RcEventType → Bool
reconciles_after RcEventType.subscriber_alias = true
reconciles_after RcEventType.transfer = true
reconciles_after _ = false

-- The mutation and the record of the event commit together; a failed reconciliation is only logged.
unfoldable pub process_event :
    RcConfig → ℕ → (Text → Response) → RcWebhookEvent → Db → EventOutcome × Db
process_event cfg now fetch e db =
    let (outcome, dispatched) = dispatch cfg now e db in
    let committed = record_processed now e outcome dispatched in
    if reconciles_after e.event_type
    then (outcome, (reconcile_from_rc cfg now fetch e.app_user_id committed).1)
    else (outcome, committed)

-- `{ received: true, deduped }`
pub data Reply : Type 0 where
  received deduped : Reply

-- `!authHeader || !safeEqual(authHeader, expected)`, negated
abbrev pub is_authorized : Option Text → Text → Bool
is_authorized header expected = elim (truthy header) [ none ↦ false | some h ↦ h == expected ]

unfoldable pub handle_webhook :
    RcConfig → Text → ℕ → (Text → Response) → Option Text → RcWebhookEvent → Method Reply
handle_webhook cfg expected now fetch header e db =
    if is_authorized header expected
    then if is_event_processed e.id db
      then (ok deduped, db)
      else (ok received, (process_event cfg now fetch e db).1)
    else (err unauthorized, db)

-- 90 days
abbrev processed_events_retention_ms : ℕ
processed_events_retention_ms = 90 * 24 * 60 * 60 * 1000

-- `deleteOlderThan`
unfoldable delete_older_than : ℕ → Db → Db
delete_older_than cutoff db = record db {
  processed_revenuecat_events =
      delete (λ (p : ProcessedEvent). ltb p.received_at cutoff) db.processed_revenuecat_events;
}

unfoldable prune_old_events : ℕ → Db → Db
unfolding delete_older_than
prune_old_events now = delete_older_than (now - processed_events_retention_ms)
