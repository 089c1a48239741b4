-- ===== src/Tests/Quotas.antt =====
-- Examples for src/entitlements/entitlements.service.ts.
use legacy_made_api.Prelude.{◌≡◌, none, some}
use legacy_made_api.Schema.{TrustedContact, AccessLevel, AccessTiming, AccessStatus}
use legacy_made_api.Entitlements.Types.{Pillar, QuotaFeature}
use legacy_made_api.Entitlements.Guard.{check_guard_entitlements}
use legacy_made_api.Entitlements.GuardProofs.{separate_checks, check_guard-eq-separate_checks}
use legacy_made_api.Tests.{alice, plan_of_alice, database, request}

check_guard-eq-separate_checks_example :
    check_guard_entitlements 100
      (request alice)
      (some Pillar.wishes)
      none
      (some QuotaFeature.wishes)
      database
    ≡ separate_checks 100
        (request alice)
        (some Pillar.wishes)
        none
        (some QuotaFeature.wishes)
        database
check_guard-eq-separate_checks_example =
    check_guard-eq-separate_checks 100 (request alice) (some Pillar.wishes) none
      (some QuotaFeature.wishes) database

abbrev contact : TrustedContact
contact = record {
  id = 40;
  plan_id = plan_of_alice;
  email = 41;
  first_name = 42;
  last_name = 43;
  relationship = none;
  access_level = AccessLevel.full_view;
  access_timing = AccessTiming.immediate;
  access_status = AccessStatus.pending;
  clerk_user_id = none;
  accepted_at = none;
  declined_at = none;
  revoked_at = none;
  notes = none;
}
