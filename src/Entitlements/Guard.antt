-- ===== src/Entitlements/Guard.antt =====
-- `checkGuardEntitlements` of src/entitlements/entitlements.service.ts: all the checks of a route
-- in one transaction, which reads the tier once.
use legacy_made_api.Prelude.{ℕ, Option, none, some, Text, if◌then◌else◌}
use legacy_made_api.Prelude.Results.{ok, err, ◌>>◌}
use legacy_made_api.Schema.{Db, Session, SubscriptionTier}
use legacy_made_api.Errors.{Result}
use legacy_made_api.DbService.{Cls, Method}
use legacy_made_api.Entitlements.Types.{Pillar, QuotaFeature}
use legacy_made_api.Entitlements.Config.{tier_config}
use legacy_made_api.Entitlements.Evaluate.{
  evaluate_pillar_access, evaluate_view_pillar_access, evaluate_quota,
}
use legacy_made_api.Entitlements.Usage.{count_usage}
use legacy_made_api.Entitlements.Service.{
  get_entitlement_user_id, in_entitlement_tx, get_subscription, current_tier, is_unlimited, require,
}

unfoldable pub check_pillar : SubscriptionTier → Option Pillar → Result (Unit {0})
check_pillar tier none = ok tt
check_pillar tier (some p) = require (evaluate_pillar_access tier p)

unfoldable pub check_view_pillar : SubscriptionTier → Option Pillar → Result (Unit {0})
check_view_pillar tier none = ok tt
check_view_pillar tier (some p) = require (evaluate_view_pillar_access tier p)

unfoldable pub check_quota :
    SubscriptionTier → Option QuotaFeature → Session → Text → Db → Result (Unit {0})
check_quota tier none s u db = ok tt
check_quota tier (some q) s u db =
    if is_unlimited ((tier_config tier).quotas q)
    then ok tt
    else require (evaluate_quota tier q (count_usage s db u q))

-- `runChecks`
unfoldable pub run_checks :
    ℕ
    → Option Pillar
    → Option Pillar
    → Option QuotaFeature
    → Text
    → Session
    → Db
    → Result (Unit {0})
unfolding get_subscription current_tier check_pillar check_view_pillar check_quota
run_checks now pillar view_pillar quota u s db =
    let tier = current_tier now (get_subscription s u db) in
    check_pillar tier pillar >> check_view_pillar tier view_pillar >> check_quota tier quota s u db

-- The part behind the early return.
unfoldable pub run_guard :
    ℕ → Cls → Option Pillar → Option Pillar → Option QuotaFeature → Method (Unit {0})
unfolding get_entitlement_user_id in_entitlement_tx
run_guard now cls pillar view_pillar quota db = elim (get_entitlement_user_id cls) [
  | err e ↦ (err e, db)
  | ok u ↦ in_entitlement_tx cls (run_checks now pillar view_pillar quota u) db
]

unfoldable pub check_guard_entitlements :
    ℕ → Cls → Option Pillar → Option Pillar → Option QuotaFeature → Method (Unit {0})
check_guard_entitlements now cls none none none db = (ok tt, db)
check_guard_entitlements now cls pillar view_pillar quota db =
    run_guard now cls pillar view_pillar quota db
