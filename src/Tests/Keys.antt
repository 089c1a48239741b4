-- ===== src/Tests/Keys.antt =====
-- Examples for src/encryption/encryption.service.ts.
use legacy_made_api.Prelude.{◌≡◌, refl, some, none, Text, ◌==◌, if◌then◌else◌}
use legacy_made_api.Prelude.Results.{ok}
use legacy_made_api.Prelude.Tables.{find}
use legacy_made_api.Encryption.Statements.{check_dek, upsert_dek}
use legacy_made_api.Encryption.Escrow.{
  Kms, check_plan_tx, store_escrow_tx, enable_with, enable_as, enable_escrow, is_escrow,
  initiate_recovery,
}
use legacy_made_api.Encryption.Recovery.{event_types, Audited, initiate_recovery-Audited}
use legacy_made_api.Encryption.EscrowProofs.{enable_then_recover}
use legacy_made_api.Tests.{alice, plan_of_alice, secret, database, request}

-- A service that decrypts one ciphertext.
abbrev kms : Kms
kms ciphertext = if ciphertext == 42 then some secret else none

initiate_recovery-Audited_example :
    Audited kms
      (find (is_escrow alice plan_of_alice) database.encrypted_deks)
      (event_types database.key_recovery_events)
      (initiate_recovery kms plan_of_alice 43 (request alice) database)
initiate_recovery-Audited_example =
    initiate_recovery-Audited kms plan_of_alice 43 alice (request alice) database refl refl

enable_then_recover_example :
    (p : Text) × (kms 42 ≡ some p)
    × ((initiate_recovery kms plan_of_alice 43
          (request alice)
          (enable_escrow kms plan_of_alice 42 (request alice) database).1).0
        ≡ ok p)
unfolding enable_escrow enable_as enable_with check_plan_tx store_escrow_tx upsert_dek check_dek
enable_then_recover_example =
    enable_then_recover kms plan_of_alice 42 43 alice (request alice) database
      (enable_escrow kms plan_of_alice 42 (request alice) database).1 refl ((λ _. refl), tt) refl
