-- ===== src/Expiration/Race.antt =====
-- A webhook between the two transactions of src/entitlements/subscription-expiration.service.ts.
use legacy_made_api.Prelude.{
  ℕ, ◌≡◌, refl, inl, inr, Bool, true, some, List, [], ◌∷◌, Text, arith, ◌==◌, Bool-cases,
}
use legacy_made_api.Prelude.Tables.{find, select}
use legacy_made_api.TableLaws.{find-update}
use legacy_made_api.Schema.{Subscription, SubscriptionTier, free, Db}
use legacy_made_api.Entitlements.Evaluate.{is_subscription_expired}
use legacy_made_api.Entitlements.Service.{current_tier}
use legacy_made_api.Revenuecat.Event.{RcWebhookEvent, RcConfig}
use legacy_made_api.Revenuecat.Handlers.{
  resolve_tier, dispatch, find_subscription, write_active, apply_active,
}
use legacy_made_api.Revenuecat.Tiers.{tier_at, is_activation, handle-activation, apply_active-found}
use legacy_made_api.Expiration.{
  ExpiredSubscription, is_due, expired_of, is_listed, set_free, find_expired_subscriptions,
  downgrade_expired_subscriptions,
}
use legacy_made_api.Expiration.Exact.{downgrade-eq-update}

found_is_listed :
    (sel p : Subscription → Bool) (rows : List Subscription) (r : Subscription)
    → find sel rows ≡ some r
    → p r ≡ true
    → is_listed (expired_of (select p rows)) r ≡ true
found_is_listed sel p [] r h k = cc
found_is_listed sel p (x ∷ rows) r h k = elim (Bool-cases (sel x)) [
  | inl here ↦ let e : x ≡ r = ground arith in rw e (rw k (ground arith))
  | inr there ↦ ground (arith, found_is_listed sel p rows r)
]

downgraded_is_free :
    (expired : List ExpiredSubscription) (u : Text) (db : Db) (r : Subscription) (later : ℕ)
    → find_subscription u db ≡ some r
    → is_listed expired r ≡ true
    → tier_at later u (downgrade_expired_subscriptions expired db) ≡ free
unfolding current_tier is_subscription_expired
downgraded_is_free expired u db r later found listed = rw (
  downgrade-eq-update expired db,
  find-update (λ (x : Subscription). x.user_id == u) (is_listed expired) set_free (λ x. refl)
      db.subscriptions,
  found,
  listed,
)

-- If a subscription is due when the job looks, and an event that activates it for a tier is handled
-- before the job writes, then the job still downgrades it: the user has the free tier at every time
-- afterwards, whatever end of the period the event carried.
pub renewal_lost_to_job :
    (cfg : RcConfig) (looked handled_at later : ℕ) (e : RcWebhookEvent) (tier : SubscriptionTier)
    (db : Db) (r : Subscription)
    → find_subscription e.app_user_id db ≡ some r
    → is_due looked r ≡ true
    → is_activation e.event_type ≡ true
    → resolve_tier cfg e ≡ some tier
    → tier_at later e.app_user_id (
        downgrade_expired_subscriptions
          (find_expired_subscriptions looked db)
          (dispatch cfg handled_at e db).1)
      ≡ free
unfolding dispatch find_expired_subscriptions
renewal_lost_to_job cfg looked handled_at later e tier db r found due t mapped =
    rw (handle-activation cfg handled_at e e.event_type db t) (
      downgraded_is_free (expired_of (select (is_due looked) db.subscriptions)) e.app_user_id
        (apply_active cfg e db) (write_active e tier r) later
        (apply_active-found cfg e tier db r mapped found (ground arith))
        (found_is_listed (λ (x : Subscription). x.user_id == e.app_user_id) (is_due looked)
          db.subscriptions r found due))
