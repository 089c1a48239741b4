-- ===== src/Revenuecat/Found.antt =====
-- The user's row behind an UPDATE WHERE notLifetime (src/revenuecat/revenuecat.service.ts).
use legacy_made_api.Prelude.{◌≡◌, Bool, false, some, arith, Text, ◌==◌}
use legacy_made_api.TableLaws.{find-update, find_sound}
use legacy_made_api.Schema.{Subscription, is_lifetime, Db}
use legacy_made_api.Revenuecat.Handlers.{not_lifetime, update_subscriptions, find_subscription}

abbrev of_user : Text → Subscription → Bool
of_user u r = r.user_id == u

module _ (u : Text) (f : Subscription → Subscription)
    (keeps : (x : Subscription) → (f x).user_id ≡ x.user_id) where
  of_user_keeps : (x : Subscription) → of_user u (f x) ≡ of_user u x
  of_user_keeps x = rw keeps

  pub find_subscription-update :
      (db : Db) (r : Subscription)
      → find_subscription u db ≡ some r
      → is_lifetime r.tier ≡ false
      → find_subscription u (update_subscriptions u f db) ≡ some (f r)
  find_subscription-update db r found other = ground (
    arith,
    find-update (of_user u) (not_lifetime u) f of_user_keeps db.subscriptions,
    find_sound (of_user u) db.subscriptions found,
  )
