-- ===== src/Entitlements/Status.antt =====
-- `getQuotaStatus` of src/entitlements/entitlements.service.ts.
use legacy_made_api.Prelude.{ℕ, ◌-◌, Bool, Option, none, some}
use legacy_made_api.Prelude.Results.{ok, ◌>>=◌}
use legacy_made_api.Schema.{Db, Session}
use legacy_made_api.Errors.{Result}
use legacy_made_api.DbService.{Cls, Method, rls}
use legacy_made_api.Entitlements.Types.{QuotaFeature, Limit, unlimited, at_most}
use legacy_made_api.Entitlements.Config.{tier_config}
use legacy_made_api.Entitlements.Service.{get_tier_in_tx, get_usage_in_tx, is_unlimited, reading}

-- The result of `getQuotaStatus`; the limit -1 is `unlimited`.
pub record QuotaStatus : Type 0 where
  pub limit : Limit
  pub current : ℕ
  pub remaining : Option ℕ
  pub is_unlimited : Bool

-- `Math.max(0, limit - current)`
abbrev pub remaining_of : Limit → ℕ → Option ℕ
remaining_of unlimited current = none
remaining_of (at_most limit) current = some (limit - current)

-- `getQuotaStatusInTx` of src/entitlements/entitlements.service.ts
unfoldable pub get_quota_status_in_tx : ℕ → Cls → QuotaFeature → Session → Db → Result QuotaStatus
get_quota_status_in_tx now cls feature s db = get_tier_in_tx now cls s db >>= λ tier.
    let limit = (tier_config tier).quotas feature in
    get_usage_in_tx cls feature s db >>= λ current. ok (record {
      limit = limit;
      current = current;
      remaining = remaining_of limit current;
      is_unlimited = is_unlimited limit;
    })

-- `getQuotaStatus`
unfoldable get_quota_status : ℕ → Cls → QuotaFeature → Method QuotaStatus
get_quota_status now cls feature = rls cls (reading (get_quota_status_in_tx now cls feature))
