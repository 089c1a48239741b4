-- ===== src/Revenuecat/Event.antt =====
-- The webhook event of src/revenuecat/dto/webhook.dto.ts, with the fields that the handlers read.
-- A field that is absent and one that is null are both `none`: the handlers treat them alike.
use legacy_made_api.Prelude.{ℕ, Option, List, Text}

-- `type`; `other` stands for every string that the service does not know.
pub data RcEventType : Type 0 where
  initial_purchase renewal cancellation expiration billing_issue product_change : RcEventType
  uncancellation subscription_paused non_renewing_purchase subscriber_alias transfer : RcEventType
  refund_reversed test other : RcEventType

pub record RcWebhookEvent : Type 0 where
  pub event_type : RcEventType
  pub id : Text
  pub app_user_id : Text
  pub original_transaction_id : Option Text
  pub product_id : Option Text
  pub new_product_id : Option Text
  pub entitlement_ids : Option (List Text)
  pub entitlement_id : Option Text
  pub expiration_at_ms : Option ℕ
  pub grace_period_expiration_at_ms : Option ℕ
  pub store : Option Text

-- The identifiers of the two entitlements, from the environment.
pub record RcConfig : Type 0 where
  pub entitlement_individual : Text
  pub entitlement_family : Text
