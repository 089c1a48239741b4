-- ===== src/Encryption/Recovery.antt =====
-- `initiateRecovery` of src/encryption/encryption.service.ts and its log.
use legacy_made_api.Prelude.{
  ◌≡◌, refl, inl, inr, true, Option, none, some, List, [], ◌∷◌, Text, truthy, arith, ap,
  Option-cases,
}
use mathlib.Core.Path.{subst}
use legacy_made_api.Prelude.Results.{Result, ok, err}
use legacy_made_api.Prelude.Tables.{find}
use legacy_made_api.TableLaws.{find_cong}
use legacy_made_api.Schema.{
  EncryptedDek, KeyRecoveryEvent, KeyRecoveryEventType, escrow_recovery_initiated,
  escrow_recovery_completed, escrow_recovery_failed, new_public_key, no_details, failure,
  RecoveryDetails, Db, as_user,
}
use legacy_made_api.Errors.{Error, not_found, internal}
use legacy_made_api.DbService.{Cls, transaction}
use legacy_made_api.DbService.Keeps.{with_user_id-signed_in}
use legacy_made_api.Encryption.Statements.{user_exists, recovery_event, log_event, insert_event}
use legacy_made_api.Encryption.Escrow.{
  Kms, is_escrow, readable_escrow, fetch_escrow_tx, log_tx, caught, complete, recover_with,
  recover_as, initiate_recovery,
}

-- The types of the events of a log, the latest first.
abbrev pub event_types : List KeyRecoveryEvent → List KeyRecoveryEventType
event_types [] = []
event_types (e ∷ events) = e.event_type ∷ event_types events

abbrev Outcome : Type 0
Outcome = Result Error Text × Db

-- How a recovery of a copy ends, by what the copy decrypts to.
abbrev pub Attempted : Option Text → List KeyRecoveryEventType → Outcome → Type 0
Attempted none before (r, db') =
    (r ≡ err internal)
    × (event_types db'.key_recovery_events
        ≡ escrow_recovery_failed ∷ escrow_recovery_initiated ∷ before)
Attempted (some plaintext) before (r, db') =
    (r ≡ ok plaintext)
    × (event_types db'.key_recovery_events
        ≡ escrow_recovery_completed ∷ escrow_recovery_initiated ∷ before)

-- How a recovery ends, by the escrow copy of the user for the plan.
abbrev pub Audited : Kms → Option EncryptedDek → List KeyRecoveryEventType → Outcome → Type 0
Audited kms none before (r, db') =
    (r ≡ err not_found) × (event_types db'.key_recovery_events ≡ before)
Audited kms (some d) before outcome = Attempted (kms d.encrypted_dek) before outcome

readable_is_own :
    (u plan_id : Text) (d : EncryptedDek)
    → readable_escrow (as_user u) u plan_id d ≡ is_escrow u plan_id d
readable_is_own u plan_id d = ground arith

log_tx_returns :
    (cls : Cls) (u : Text) (t : KeyRecoveryEventType) (given : RecoveryDetails) (db : Db)
    → user_exists u db ≡ true
    → transaction (log_tx cls u t given (as_user u)) db
      ≡ (ok tt, log_event (recovery_event cls u t given) db)
unfolding log_tx insert_event
log_tx_returns cls u t given db user = rw (log_tx, insert_event, transaction, user) refl

recover_with-Attempted :
    (kms : Kms) (cls : Cls) (u : Text) (d : EncryptedDek) (before : List KeyRecoveryEventType)
    (db : Db)
    → user_exists u db ≡ true
    → event_types db.key_recovery_events ≡ escrow_recovery_initiated ∷ before
    → Attempted (kms d.encrypted_dek) before (recover_with kms cls u (ok d, db))
unfolding recover_with complete caught
recover_with-Attempted kms cls u d before db user h = elim (Option-cases (kms d.encrypted_dek)) [
  | inl fails ↦
      let logged = log_tx_returns cls u escrow_recovery_failed failure db user in
      rw (fails, recover_with, caught, ap (λ r. r.0) logged, ap (λ r. r.1) logged)
        (refl, ap (λ es. escrow_recovery_failed ∷ es) h)
  | inr (t, decrypts) ↦
      let logged = log_tx_returns cls u escrow_recovery_completed no_details db user in
      rw (decrypts, recover_with, complete, ap (λ r. r.0) logged, ap (λ r. r.1) logged)
        (refl, ap (λ es. escrow_recovery_completed ∷ es) h)
]

recover_as-Audited :
    (kms : Kms) (cls : Cls) (plan_id public_key u : Text) (db : Db) (o : Option EncryptedDek)
    → user_exists u db ≡ true
    → find (readable_escrow (as_user u) u plan_id) db.encrypted_deks ≡ o
    → Audited kms o
        (event_types db.key_recovery_events)
        (recover_as kms cls plan_id public_key u db)
unfolding recover_as recover_with caught fetch_escrow_tx insert_event
recover_as-Audited kms cls plan_id public_key u db none user found =
    rw (fetch_escrow_tx, insert_event, user, found, transaction) (refl, refl)
recover_as-Audited kms cls plan_id public_key u db (some d) user found =
    rw (fetch_escrow_tx, insert_event, user, found, transaction)
      (recover_with-Attempted kms cls u d (event_types db.key_recovery_events)
        (log_event (recovery_event cls u escrow_recovery_initiated (new_public_key public_key)) db)
        user refl)

-- A recovery by a signed-in user of the database logs its start and its completion where the escrow copy decrypts,
-- its start and its failure where the copy is there and does not decrypt, and nothing at all where
-- the user has no escrow copy for the plan; it returns the plaintext of the stored copy in the first
-- case, and throws in the others.
pub initiate_recovery-Audited :
    (kms : Kms) (plan_id public_key u : Text) (cls : Cls) (db : Db)
    → truthy cls.user_id ≡ some u
    → user_exists u db ≡ true
    → Audited kms
        (find (is_escrow u plan_id) db.encrypted_deks)
        (event_types db.key_recovery_events)
        (initiate_recovery kms plan_id public_key cls db)
unfolding initiate_recovery
initiate_recovery-Audited kms plan_id public_key u cls db signed_in user =
    let before = event_types db.key_recovery_events in
    let own =
      find_cong (readable_escrow (as_user u) u plan_id) (is_escrow u plan_id)
        (readable_is_own u plan_id) db.encrypted_deks in
    rw (with_user_id-signed_in cls (recover_as kms cls plan_id public_key) u db signed_in) (
      subst (λ o. Audited kms o before (recover_as kms cls plan_id public_key u db)) own
        (recover_as-Audited kms cls plan_id public_key u db
          (find (readable_escrow (as_user u) u plan_id) db.encrypted_deks) user refl))
