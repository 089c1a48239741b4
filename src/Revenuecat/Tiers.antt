-- ===== src/Revenuecat/Tiers.antt =====
-- The events of src/revenuecat/revenuecat.service.ts and the tier that the entitlement checks see
-- afterwards.
use legacy_made_api.Prelude.{
  ℕ, ◌+◌, ◌<◌, ◌≡◌, refl, Bool, true, false, Option, none, some, arith, Text, truthy, leb,
  if◌then◌else◌, ◌==◌,
}
use legacy_made_api.Schema.{Subscription, SubscriptionTier, is_lifetime, free, Db}
use legacy_made_api.TableLaws.{find-update, map_option, updated}
use legacy_made_api.Entitlements.Config.{is_non_expiring, subscription_grace_period_ms}
use legacy_made_api.Entitlements.Evaluate.{is_subscription_expired}
use legacy_made_api.Entitlements.Service.{current_tier}
use legacy_made_api.Revenuecat.Event.{RcEventType, RcWebhookEvent, RcConfig}
use legacy_made_api.Revenuecat.Handlers.{
  not_lifetime, resolve_tier, apply_active, apply_cancellation, apply_expiration,
  apply_billing_issue, dispatch, handle, write_active, set_expired, set_billing_issue,
  set_unsubscribed, find_subscription,
}
use legacy_made_api.Revenuecat.Found.{find_subscription-update}

-- The tier in force for a user at a time.
abbrev pub tier_at : ℕ → Text → Db → SubscriptionTier
tier_at now u db = current_tier now (find_subscription u db)

-- The events that activate a subscription, and those that end it.
abbrev pub is_activation : RcEventType → Bool
is_activation RcEventType.initial_purchase = true
is_activation RcEventType.renewal = true
is_activation RcEventType.uncancellation = true
is_activation RcEventType.refund_reversed = true
is_activation _ = false

abbrev is_ending : RcEventType → Bool
is_ending RcEventType.expiration = true
is_ending RcEventType.subscription_paused = true
is_ending _ = false

pub handle-activation :
    (cfg : RcConfig) (now : ℕ) (e : RcWebhookEvent) (t : RcEventType) (db : Db)
    → is_activation t ≡ true
    → (handle cfg now e t db).1 ≡ apply_active cfg e db
unfolding handle
handle-activation cfg now e t db h = ground arith

handle-ending :
    (cfg : RcConfig) (now : ℕ) (e : RcWebhookEvent) (t : RcEventType) (db : Db)
    → is_ending t ≡ true
    → (handle cfg now e t db).1 ≡ apply_expiration e db
unfolding handle
handle-ending cfg now e t db h = ground arith

pub apply_active-found :
    (cfg : RcConfig) (e : RcWebhookEvent) (tier : SubscriptionTier) (db : Db) (r : Subscription)
    → resolve_tier cfg e ≡ some tier
    → find_subscription e.app_user_id db ≡ some r
    → is_lifetime r.tier ≡ false
    → find_subscription e.app_user_id (apply_active cfg e db) ≡ some (write_active e tier r)
unfolding apply_active
apply_active-found cfg e tier db r mapped found other = ground (
  arith,
  find_subscription-update e.app_user_id (write_active e tier) (λ x. refl) db r found other,
)

active_until :
    (e : RcWebhookEvent) (tier : SubscriptionTier) (r : Subscription) (end later : ℕ)
    → is_non_expiring tier ≡ false
    → e.expiration_at_ms ≡ some end
    → 0 < end
    → current_tier later (some (write_active e tier r))
      ≡ (if leb later (end + subscription_grace_period_ms) then tier else free)
unfolding current_tier is_subscription_expired
active_until e tier r end later paid x pos = ground arith

resolve_tier-expires :
    (cfg : RcConfig) (e : RcWebhookEvent) (tier : SubscriptionTier)
    → resolve_tier cfg e ≡ some tier
    → is_non_expiring tier ≡ false
unfolding resolve_tier
resolve_tier-expires cfg e tier h = ground arith

-- After an event that activates a subscription, mapped to a tier and with an end of its period, the
-- user of a row that is not of the lifetime tier has this tier until the end of the period and 24
-- hours, and the free tier from then on.
pub activation_grants_tier :
    (cfg : RcConfig) (now : ℕ) (e : RcWebhookEvent) (tier : SubscriptionTier) (db : Db)
    (r : Subscription) (end later : ℕ)
    → is_activation e.event_type ≡ true
    → resolve_tier cfg e ≡ some tier
    → e.expiration_at_ms ≡ some end
    → 0 < end
    → find_subscription e.app_user_id db ≡ some r
    → is_lifetime r.tier ≡ false
    → tier_at later e.app_user_id (dispatch cfg now e db).1
      ≡ (if leb later (end + subscription_grace_period_ms) then tier else free)
unfolding dispatch
activation_grants_tier cfg now e tier db r end later t mapped x pos found other =
    rw
      (
        handle-activation cfg now e e.event_type db t,
        apply_active-found cfg e tier db r mapped found other,
      )
      (active_until e tier r end later (resolve_tier-expires cfg e tier mapped) x pos)

apply_expiration-found :
    (e : RcWebhookEvent) (db : Db) (r : Subscription)
    → find_subscription e.app_user_id db ≡ some r
    → is_lifetime r.tier ≡ false
    → find_subscription e.app_user_id (apply_expiration e db) ≡ some (set_expired r)
unfolding apply_expiration
apply_expiration-found e db r found other =
    ground (arith, find_subscription-update e.app_user_id set_expired (λ x. refl) db r found other)

-- After an expiration or a pause the user of a row that is not of the lifetime tier has the free
-- tier at every time.
pub ending_revokes_tier :
    (cfg : RcConfig) (now : ℕ) (e : RcWebhookEvent) (db : Db) (r : Subscription) (later : ℕ)
    → is_ending e.event_type ≡ true
    → find_subscription e.app_user_id db ≡ some r
    → is_lifetime r.tier ≡ false
    → tier_at later e.app_user_id (dispatch cfg now e db).1 ≡ free
unfolding dispatch current_tier is_subscription_expired
ending_revokes_tier cfg now e db r later t found other =
    rw (handle-ending cfg now e e.event_type db t, apply_expiration-found e db r found other)

module _ (now : ℕ) (u : Text) where
  set_unsubscribed-tier :
      (later : ℕ) (o : Option Subscription)
      → current_tier later (map_option (updated (not_lifetime u) (set_unsubscribed now)) o)
        ≡ current_tier later o
  unfolding current_tier
  set_unsubscribed-tier later o = ground arith

-- A cancellation leaves every user's tier in force as it was, at every time.
pub cancellation_keeps_tier :
    (cfg : RcConfig) (now : ℕ) (e : RcWebhookEvent) (db : Db) (later : ℕ) (u : Text)
    → e.event_type ≡ RcEventType.cancellation
    → tier_at later u (dispatch cfg now e db).1 ≡ tier_at later u db
unfolding dispatch handle apply_cancellation
cancellation_keeps_tier cfg now e db later u t =
    rw
      (
        t,
        handle,
        find-update (λ (r : Subscription). r.user_id == u) (not_lifetime e.app_user_id)
            (set_unsubscribed now) (λ x. refl) db.subscriptions,
      )
      (set_unsubscribed-tier now e.app_user_id later (find_subscription u db))

billing_issue_until :
    (e : RcWebhookEvent) (r : Subscription) (later : ℕ)
    → is_non_expiring r.tier ≡ false
    → current_tier later (some (set_billing_issue e r))
      ≡ elim (truthy e.grace_period_expiration_at_ms) [
        | none ↦ r.tier
        | some grace ↦ if leb later grace then r.tier else free
      ]
unfolding current_tier is_subscription_expired
billing_issue_until e r later paid = ground arith

-- After a billing issue the user of a row with a paid tier keeps this tier up to the end of the
-- grace period that the event carries, with nothing added, and has the free tier from then on;
-- where the event carries no such time, the tier is kept at every time.
pub billing_issue_keeps_tier :
    (cfg : RcConfig) (now : ℕ) (e : RcWebhookEvent) (db : Db) (r : Subscription) (later : ℕ)
    → e.event_type ≡ RcEventType.billing_issue
    → find_subscription e.app_user_id db ≡ some r
    → is_non_expiring r.tier ≡ false
    → tier_at later e.app_user_id (dispatch cfg now e db).1
      ≡ elim (truthy e.grace_period_expiration_at_ms) [
        | none ↦ r.tier
        | some grace ↦ if leb later grace then r.tier else free
      ]
unfolding dispatch handle apply_billing_issue
billing_issue_keeps_tier cfg now e db r later t found paid =
    rw
      (
        t,
        handle,
        find_subscription-update e.app_user_id (set_billing_issue e) (λ x. refl) db r found
            (ground arith),
      )
      (billing_issue_until e r later paid)
