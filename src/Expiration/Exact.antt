-- ===== src/Expiration/Exact.antt =====
-- The job of src/entitlements/subscription-expiration.service.ts against one UPDATE, and as the
-- entitlement checks see it.
use legacy_made_api.Prelude.{
  ℕ, ◌≤◌, ◌≡◌, refl, ◌∙◌, Bool, false, Option, none, some, List, [], ◌∷◌, Text, arith, ap, sym,
  ◌==◌,
}
use legacy_made_api.Prelude.Tables.{any, select, update, Distinct, All}
use legacy_made_api.TableLaws.{
  update_cong, All-zip, All-of_not_any, find-update, map_option, updated,
}
use legacy_made_api.Schema.{Subscription, Db}
use legacy_made_api.Entitlements.Evaluate.{is_subscription_expired}
use legacy_made_api.Entitlements.Service.{current_tier}
use legacy_made_api.Revenuecat.Handlers.{find_subscription}
use legacy_made_api.Revenuecat.Tiers.{tier_at}
use legacy_made_api.Expiration.{
  ExpiredSubscription, is_due, expired_of, is_listed, set_free, find_expired_subscriptions,
  downgrade_expired_subscriptions, handle_expired_subscriptions,
}

-- subscriptions.id is a primary key.
abbrev HasSubscriptionKey : Db → Type 0
HasSubscriptionKey db = Distinct (λ (r : Subscription). r.id) db.subscriptions

update_unlisted : (rows : List Subscription) → update (is_listed []) set_free rows ≡ rows
update_unlisted [] = refl
update_unlisted (r ∷ rows) = ap (λ rs. r ∷ rs) (update_unlisted rows)

module _ (p : Subscription → Bool) where
  not_listed :
      (x : Subscription) (rows : List Subscription)
      → any (λ (y : Subscription). y.id == x.id) rows ≡ false
      → is_listed (expired_of (select p rows)) x ≡ false
  not_listed x [] h = refl
  not_listed x (r ∷ rows) h = ground (arith, not_listed x rows)

  -- A row is listed exactly if it was selected.
  listed_iff :
      (rows : List Subscription)
      → Distinct (λ (r : Subscription). r.id) rows
      → All (λ x. is_listed (expired_of (select p rows)) x ≡ p x) rows
  listed_iff [] d = tt
  listed_iff (r ∷ rows) d = (
    ground (arith, not_listed r rows d.0),
    All-zip (λ x. (x.id == r.id) ≡ false) (λ x. is_listed (expired_of (select p rows)) x ≡ p x)
        (λ x. is_listed (expired_of (select p (r ∷ rows))) x ≡ p x) (λ x other same. ground arith)
        rows (All-of_not_any (λ (y : Subscription). y.id == r.id) rows d.0) (listed_iff rows d.1),
  )

pub downgrade-eq-update :
    (expired : List ExpiredSubscription) (db : Db)
    → downgrade_expired_subscriptions expired db
      ≡ record db { subscriptions = update (is_listed expired) set_free db.subscriptions }
unfolding downgrade_expired_subscriptions
downgrade-eq-update [] db =
    ap (λ rows. record db { subscriptions = rows }) (sym (update_unlisted db.subscriptions))
downgrade-eq-update (s ∷ expired) db = refl

-- With distinct ids the two transactions of the job, run without a break, are one UPDATE that sets
-- the tier of the subscriptions that are due to free, and leaves all else as it is.
pub handle_expired-eq-update :
    (now : ℕ) (db : Db)
    → HasSubscriptionKey db
    → handle_expired_subscriptions now db
      ≡ record db { subscriptions = update (is_due now) set_free db.subscriptions }
unfolding handle_expired_subscriptions find_expired_subscriptions
handle_expired-eq-update now db d =
    let rows = db.subscriptions in
    downgrade-eq-update (expired_of (select (is_due now) rows)) db
    ∙ ap (λ rs. record db { subscriptions = rs })
        (update_cong (is_listed (expired_of (select (is_due now) rows))) (is_due now) set_free rows
          (listed_iff (is_due now) rows d))

-- A row that is due already counts as free, then and later.
due_is_free :
    (now later : ℕ) (r : Subscription)
    → now ≤ later
    → current_tier later (some (updated (is_due now) set_free r)) ≡ current_tier later (some r)
unfolding current_tier is_subscription_expired
due_is_free now later r h = ground arith

due_is_free-option :
    (now later : ℕ) (o : Option Subscription)
    → now ≤ later
    → current_tier later (map_option (updated (is_due now) set_free) o) ≡ current_tier later o
due_is_free-option now later none h = refl
due_is_free-option now later (some r) h = due_is_free now later r h

-- With distinct ids, a run of the job leaves every user's tier in force as it was, at the time of the
-- run and at every time after it.
pub handle_expired_invisible :
    (now later : ℕ) (u : Text) (db : Db)
    → HasSubscriptionKey db
    → now ≤ later
    → tier_at later u (handle_expired_subscriptions now db) ≡ tier_at later u db
handle_expired_invisible now later u db d h =
    rw
      (
        handle_expired-eq-update now db d,
        find-update (λ (r : Subscription). r.user_id == u) (is_due now) set_free (λ x. refl)
            db.subscriptions,
      )
      (due_is_free-option now later (find_subscription u db) h)
