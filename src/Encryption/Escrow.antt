-- ===== src/Encryption/Escrow.antt =====
-- `enableEscrow`, `revokeEscrow`, `initiateRecovery` and the E2EE status of
-- src/encryption/encryption.service.ts. The key management service is a parameter: what it decrypts
-- a ciphertext to, or `none` where the call fails. Base64 and the e-mails sent afterwards, whose
-- errors are only logged, are left out.
use legacy_made_api.Prelude.{Bool, true, ◌&&◌, Option, none, some, Text, ◌==◌, if◌then◌else◌}
use legacy_made_api.Prelude.Results.{ok, err, ◌>>=◌, or_throw}
use legacy_made_api.Prelude.Tables.{any, find, update, delete}
use legacy_made_api.Schema.{
  Plan, EncryptedDek, KeyRecoveryEventType, RecoveryDetails, DekType, dek_type_eq, escrow_revoked,
  escrow_recovery_initiated, escrow_recovery_completed, escrow_recovery_failed, plan_only,
  new_public_key, no_details, failure, Db, Session, as_user, is_current_user, dek_owned,
  dek_readable,
}
use legacy_made_api.Errors.{Error, Result, not_found, bad_request, internal}
use legacy_made_api.DbService.{Cls, Tx, Method, transaction, rls, with_user_id}
use legacy_made_api.Encryption.Statements.{find_plan, upsert_dek, recovery_event, insert_event}

-- `KmsService.decryptDek`
abbrev pub Kms : Type 0
Kms = Text → Option Text

abbrev pub escrow_dek : Text → Text → Text → EncryptedDek
escrow_dek plan_id u ciphertext = record {
  plan_id = plan_id;
  owner_id = u;
  recipient_id = u;
  dek_type = DekType.escrow;
  encrypted_dek = ciphertext;
  key_version = 0;
}

unfoldable pub check_plan_tx : Text → Session → Tx (Unit {0})
check_plan_tx plan_id s db = or_throw (find_plan s plan_id db) not_found >>= λ plan. ok (tt, db)

unfoldable pub store_escrow_tx : Text → Text → Text → Session → Tx (Unit {0})
store_escrow_tx plan_id ciphertext u s db =
    upsert_dek s (escrow_dek plan_id u ciphertext) db >>= λ db₁. ok (tt, db₁)

-- After the plan's check, in its own transaction: a trial decryption, then the copy is stored.
unfoldable pub enable_with : Kms → Text → Text → Text → Result (Unit {0}) → Method (Unit {0})
enable_with kms plan_id ciphertext u (err e) db = (err e, db)
enable_with kms plan_id ciphertext u (ok _) db = elim (kms ciphertext) [
  | none ↦ (err bad_request, db)
  | some _ ↦ transaction (store_escrow_tx plan_id ciphertext u (as_user u)) db
]

unfoldable pub enable_as : Kms → Text → Text → Text → Method (Unit {0})
unfolding enable_with
enable_as kms plan_id ciphertext u db =
    enable_with kms plan_id ciphertext u (transaction (check_plan_tx plan_id (as_user u)) db).0 db

-- `enableEscrow`
unfoldable pub enable_escrow : Kms → Text → Text → Cls → Method (Unit {0})
enable_escrow kms plan_id ciphertext cls = with_user_id cls (enable_as kms plan_id ciphertext)

-- The escrow copy of the user for a plan.
abbrev pub is_escrow : Text → Text → EncryptedDek → Bool
is_escrow u plan_id d =
    d.owner_id == u
    && d.recipient_id == u
    && dek_type_eq d.dek_type DekType.escrow
    && d.plan_id == plan_id

abbrev pub owned_escrow : Session → Text → Text → EncryptedDek → Bool
owned_escrow s u plan_id d = dek_owned s d && is_escrow u plan_id d

unfoldable pub revoke_tx : Cls → Text → Text → Session → Tx (Unit {0})
revoke_tx cls plan_id u s db =
    if any (owned_escrow s u plan_id) db.encrypted_deks
    then (insert_event (recovery_event cls u escrow_revoked (plan_only plan_id))
          (record db { encrypted_deks = delete (owned_escrow s u plan_id) db.encrypted_deks })
        >>= λ db₁. ok (tt, db₁))
    else err not_found

-- `revokeEscrow`
unfoldable pub revoke_escrow : Text → Cls → Method (Unit {0})
revoke_escrow plan_id cls = with_user_id cls (λ u. rls cls (revoke_tx cls plan_id u))

abbrev pub readable_escrow : Session → Text → Text → EncryptedDek → Bool
readable_escrow s u plan_id d = dek_readable s d && is_escrow u plan_id d

-- The first transaction of a recovery.
unfoldable pub fetch_escrow_tx : Cls → Text → Text → Text → Session → Tx EncryptedDek
fetch_escrow_tx cls plan_id public_key u s db =
    insert_event (recovery_event cls u escrow_recovery_initiated (new_public_key public_key)) db
    >>= λ db₁. or_throw (find (readable_escrow s u plan_id) db₁.encrypted_deks) not_found >>= λ d.
        ok (d, db₁)

-- The transactions that log how a recovery ended.
unfoldable pub log_tx :
    Cls → Text → KeyRecoveryEventType → RecoveryDetails → Session → Tx (Unit {0})
log_tx cls u event_type details s db =
    insert_event (recovery_event cls u event_type details) db >>= λ db₁. ok (tt, db₁)

-- The catch: an error other than a NotFoundException is logged and thrown again; where the log fails,
-- that error is thrown.
unfoldable pub caught : Cls → Text → Error → Method Text
unfolding log_tx
caught cls u not_found db = (err not_found, db)
caught cls u e db =
    let (logged, db') = transaction (log_tx cls u escrow_recovery_failed failure (as_user u)) db in
    elim logged [ err e' ↦ (err e', db') | ok _ ↦ (err e, db') ]

unfoldable pub complete : Cls → Text → Text → Method Text
unfolding log_tx caught
complete cls u plaintext db =
    let (logged, db') =
      transaction (log_tx cls u escrow_recovery_completed no_details (as_user u)) db in
    elim logged [ err e ↦ caught cls u e db' | ok _ ↦ (ok plaintext, db') ]

-- The rest of a recovery, by what its first transaction ended with.
unfoldable pub recover_with : Kms → Cls → Text → Result EncryptedDek × Db → Result Text × Db
unfolding caught complete
recover_with kms cls u (err e, db) = caught cls u e db
recover_with kms cls u (ok d, db) = elim (kms d.encrypted_dek) [
  | some plaintext ↦ complete cls u plaintext db
  | none ↦ caught cls u internal db
]

unfoldable pub recover_as : Kms → Cls → Text → Text → Text → Method Text
unfolding recover_with
recover_as kms cls plan_id public_key u db =
    recover_with kms cls u (transaction (fetch_escrow_tx cls plan_id public_key u (as_user u)) db)

-- `initiateRecovery`
unfoldable pub initiate_recovery : Kms → Text → Text → Cls → Method Text
initiate_recovery kms plan_id public_key cls =
    with_user_id cls (recover_as kms cls plan_id public_key)

abbrev is_own_plan : Session → Text → Plan → Bool
is_own_plan s plan_id p = is_current_user s p.user_id && p.id == plan_id

unfoldable enable_e2ee_tx : Text → Session → Tx Bool
enable_e2ee_tx plan_id s db =
    if any (is_own_plan s plan_id) db.plans
    then ok (
      true,
      record db {
        plans = update (is_own_plan s plan_id) (λ p. record p { e2ee_enabled = true }) db.plans;
      },
    )
    else err not_found

-- `enableE2ee`
unfoldable enable_e2ee : Text → Cls → Method Bool
enable_e2ee plan_id cls = rls cls (enable_e2ee_tx plan_id)

unfoldable e2ee_status_tx : Text → Session → Tx Bool
e2ee_status_tx plan_id s db =
    or_throw (find_plan s plan_id db) not_found >>= λ p. ok (p.e2ee_enabled, db)

-- `getE2eeStatus`
unfoldable get_e2ee_status : Text → Cls → Method Bool
get_e2ee_status plan_id cls = rls cls (e2ee_status_tx plan_id)
