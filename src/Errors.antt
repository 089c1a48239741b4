-- ===== src/Errors.antt =====
-- What a request can end with instead of a result: the HTTP exceptions that the services throw, and
-- the refusals of the database.
use legacy_made_api.Entitlements.Types.{EntitlementResult}
use legacy_made_api.Prelude.Results

pub data Error : Type 0 where
  unauthorized forbidden not_found conflict bad_request bad_gateway : Error
  -- a plain `Error`, which the framework reports as 500
  internal : Error
  entitlement : EntitlementResult → Error
  -- refusals of the database
  unique_violation foreign_key_violation rls_violation : Error

abbrev pub Result : Type 0 → Type 0
Result A = Results.Result Error A
