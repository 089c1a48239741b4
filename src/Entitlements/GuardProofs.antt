-- ===== src/Entitlements/GuardProofs.antt =====
-- `checkGuardEntitlements` of src/entitlements/entitlements.service.ts against the separate checks.
use legacy_made_api.Prelude.{ℕ, ◌≡◌, refl, Option, none, some, arith, Text, if◌then◌else◌}
use legacy_made_api.Prelude.Results.{ok, err, ◌>>◌}
use legacy_made_api.Schema.{Db, Session, as_user, bypassing, SubscriptionTier}
use legacy_made_api.Errors.{Result}
use legacy_made_api.DbService.{Cls, Method, transaction}
use legacy_made_api.Entitlements.Types.{Pillar, QuotaFeature}
use legacy_made_api.Entitlements.Service.{
  require_pillar_access, require_view_pillar_access, require_quota, is_checking_plan_owner,
  get_entitlement_user_id, get_subscription, current_tier, reading, get_tier_in_tx, get_usage_in_tx,
  with_entitlement_tx,
}
use legacy_made_api.Entitlements.Guard.{
  check_guard_entitlements, check_pillar, check_view_pillar, check_quota, run_checks, run_guard,
}

-- One method after another, if the first does not throw.
abbrev and_then : Method (Unit {0}) → Method (Unit {0}) → Method (Unit {0})
and_then m k db = let (r, db') = m db in elim r [ ok _ ↦ k db' | err e ↦ (err e, db') ]

abbrev optional : {A : Type 0} → (A → Method (Unit {0})) → Option A → Method (Unit {0})
optional check none db = (ok tt, db)
optional check (some a) db = check a db

-- The three checks of a route, each in its own transaction.
abbrev pub separate_checks :
    ℕ → Cls → Option Pillar → Option Pillar → Option QuotaFeature → Method (Unit {0})
separate_checks now cls pillar view_pillar quota =
    and_then (optional (require_pillar_access now cls) pillar) (
      and_then (optional (require_view_pillar_access now cls) view_pillar)
        (optional (require_quota now cls) quota))

-- A check as a function of the session and of the user whom it is about.
abbrev Check : Type 0
Check = Session → Text → Result (Unit {0})

entitlement_session : Cls → Text → Session
entitlement_session cls u = if is_checking_plan_owner cls then bypassing else as_user u

-- A check in the context of a request: it leaves the database alone.
in_context : Cls → Check → Method (Unit {0})
unfolding entitlement_session
in_context cls f db = elim (get_entitlement_user_id cls) [
  | err e ↦ (err e, db)
  | ok u ↦ (f (entitlement_session cls u) u, db)
]

abbrev tier_check : ℕ → Db → (SubscriptionTier → Check) → Check
tier_check now db f s u = f (current_tier now (get_subscription s u db)) s u

transaction-reading :
    (f : Session → Db → Result (Unit {0})) (s : Session) (db : Db)
    → transaction (reading f s) db ≡ (f s db, db)
transaction-reading f s db = ground arith

require_pillar-in_context :
    (now : ℕ) (cls : Cls) (p : Pillar) (db : Db)
    → require_pillar_access now cls p db
      ≡ in_context cls (tier_check now db (λ tier s u. check_pillar tier (some p))) db
unfolding in_context require_pillar_access check_pillar get_tier_in_tx with_entitlement_tx
require_pillar-in_context now cls p db = ground arith

require_view_pillar-in_context :
    (now : ℕ) (cls : Cls) (p : Pillar) (db : Db)
    → require_view_pillar_access now cls p db
      ≡ in_context cls (tier_check now db (λ tier s u. check_view_pillar tier (some p))) db
unfolding in_context require_view_pillar_access check_view_pillar get_tier_in_tx with_entitlement_tx
require_view_pillar-in_context now cls p db = ground arith

require_quota-in_context :
    (now : ℕ) (cls : Cls) (q : QuotaFeature) (db : Db)
    → require_quota now cls q db
      ≡ in_context cls (tier_check now db (λ tier s u. check_quota tier (some q) s u db)) db
unfolding in_context require_quota check_quota get_tier_in_tx get_usage_in_tx with_entitlement_tx
require_quota-in_context now cls q db = ground arith

run_guard-in_run_checks :
    (now : ℕ) (cls : Cls) (p v : Option Pillar) (q : Option QuotaFeature) (db : Db)
    → run_guard now cls p v q db ≡ in_context cls (λ s u. run_checks now p v q u s db) db
unfolding in_context run_guard
run_guard-in_run_checks now cls p v q db = ground arith

run_guard-in_context :
    (now : ℕ) (cls : Cls) (p v : Option Pillar) (q : Option QuotaFeature) (db : Db)
    → run_guard now cls p v q db
      ≡ in_context cls
          (tier_check now db (λ tier s u.
            check_pillar tier p >> check_view_pillar tier v >> check_quota tier q s u db))
          db
unfolding run_checks
run_guard-in_context now cls p v q db = run_guard-in_run_checks now cls p v q db

-- For every context, route and database, the combined check of the guard ends as the separate
-- checks of the pillar, of the viewed pillar and of the quota do one after the other: it returns
-- when all of them return, and throws what the first of them to fail throws.
pub check_guard-eq-separate_checks :
    (now : ℕ) (cls : Cls) (pillar view_pillar : Option Pillar) (quota : Option QuotaFeature)
    (db : Db)
    → check_guard_entitlements now cls pillar view_pillar quota db
      ≡ separate_checks now cls pillar view_pillar quota db
unfolding check_guard_entitlements in_context check_pillar check_view_pillar check_quota
check_guard-eq-separate_checks now cls none none none db = refl
check_guard-eq-separate_checks now cls none none (some q) db = ground (
  arith,
  run_guard-in_context now cls none none (some q) db,
  require_quota-in_context now cls q db,
)
check_guard-eq-separate_checks now cls none (some v) none db = ground (
  arith,
  run_guard-in_context now cls none (some v) none db,
  require_view_pillar-in_context now cls v db,
)
check_guard-eq-separate_checks now cls none (some v) (some q) db = ground (
  arith,
  run_guard-in_context now cls none (some v) (some q) db,
  require_view_pillar-in_context now cls v db,
  require_quota-in_context now cls q db,
)
check_guard-eq-separate_checks now cls (some p) none none db = ground (
  arith,
  run_guard-in_context now cls (some p) none none db,
  require_pillar-in_context now cls p db,
)
check_guard-eq-separate_checks now cls (some p) none (some q) db = ground (
  arith,
  run_guard-in_context now cls (some p) none (some q) db,
  require_pillar-in_context now cls p db,
  require_quota-in_context now cls q db,
)
check_guard-eq-separate_checks now cls (some p) (some v) none db = ground (
  arith,
  run_guard-in_context now cls (some p) (some v) none db,
  require_pillar-in_context now cls p db,
  require_view_pillar-in_context now cls v db,
)
check_guard-eq-separate_checks now cls (some p) (some v) (some q) db = ground (
  arith,
  run_guard-in_context now cls (some p) (some v) (some q) db,
  require_pillar-in_context now cls p db,
  require_view_pillar-in_context now cls v db,
  require_quota-in_context now cls q db,
)
