-- ===== src/Tests/Linking.antt =====
-- Examples for src/encryption/device-linking.service.ts.
use legacy_made_api.Prelude.{◌≡◌, refl, ◌≢◌, some, [], ◌∷◌, Text, truthy, arith}
use legacy_made_api.Prelude.Results.{ok}
use legacy_made_api.Schema.{LinkStatus, Db}
use legacy_made_api.DeviceLinking.{
  create_session, deposit_payload, find_session, claim_from, claim_tx, claim_session,
}
use legacy_made_api.DeviceLinking.Spent.{here, next, Step}
use legacy_made_api.DeviceLinking.Once.{claim_session_once}
use legacy_made_api.DeviceLinking.Exchange.{Handed, create_deposit_claim, claim_session-Handed}
use legacy_made_api.Tests.{alice, bob, secret, database, request}

abbrev deposited : Db
deposited = record database {
  device_linking_sessions =
      record {
        id = 60;
        user_id = alice;
        session_code = 61;
        payload = some secret;
        status = LinkStatus.claimed;
        expires_at = 1000;
      }
      ∷ [];
}

abbrev after_claim : Db
after_claim = (claim_session 900 61 (request alice) deposited).1

claim_session_once_example :
    (claim_session 950 61
      (request alice)
      (deposit_payload 920 61 secret
        (request bob)
        (create_session 910 62 63 (request alice) after_claim).1).1).0
    ≢ ok secret
unfolding claim_session claim_tx claim_from find_session
claim_session_once_example =
    claim_session_once 900 950 61 secret secret (request alice) (request alice) deposited
      after_claim
      (deposit_payload 920 61 secret (request bob)
        (create_session 910 62 63 (request alice) after_claim).1).1
      ((refl, tt), (refl, tt)) refl
      (next (next here (Step.create 910 62 63 (request alice) after_claim refl)) (
        Step.deposit 920 61 secret (request bob)
          (create_session 910 62 63 (request alice) after_claim).1))

create_deposit_claim_example :
    let db₁ = (create_session 900 62 63 (request alice) deposited).1 in
    let db₂ = (deposit_payload 910 63 secret (request alice) db₁).1 in
    (claim_session 920 63 (request alice) db₂).0 ≡ ok secret
create_deposit_claim_example =
    create_deposit_claim 900 910 920 62 63 secret alice (request alice) deposited refl refl refl
      (omega arith) (omega arith) (omega arith)

claim_session-Handed_example :
    (u : Text) × (truthy (request alice).user_id ≡ some u)
    × Handed 900 61 u secret deposited after_claim
unfolding claim_session claim_tx claim_from find_session
claim_session-Handed_example =
    claim_session-Handed 900 61 secret (request alice) deposited after_claim refl
