-- ===== src/Encryption/Statements.antt =====
-- The statements of src/encryption/encryption.service.ts on the tables of src/schema.ts, with what
-- the database checks: the row-level security policies, the unique indexes and the foreign keys.
use legacy_made_api.Prelude.{ℕ, Bool, ◌&&◌, not, Option, ◌∷◌, Text, ◌==◌, if◌then◌else◌}
use legacy_made_api.Prelude.Results.{ok, ◌>>◌, throw_if}
use legacy_made_api.Prelude.Tables.{any, find, update}
use legacy_made_api.Schema.{
  User, Plan, UserKey, EncryptedDek, KeyRecoveryEvent, KeyRecoveryEventType, RecoveryDetails, Db,
  Session, is_current_user, dek_insertable, dek_type_eq,
}
use legacy_made_api.Errors.{Result, unique_violation, foreign_key_violation, rls_violation}
use legacy_made_api.DbService.{Cls}

-- SELECT … FROM plans WHERE id = …, under the policy of plans
abbrev pub find_plan : Session → Text → Db → Option Plan
find_plan s plan_id db =
    find (λ (p : Plan). is_current_user s p.user_id && p.id == plan_id) db.plans

abbrev pub user_exists : Text → Db → Bool
user_exists id db = any (λ (u : User). u.id == id) db.users

abbrev pub plan_exists : Text → Db → Bool
plan_exists id db = any (λ (p : Plan). p.id == id) db.plans

-- (user_id, key_version), unique in user_keys
abbrev pub is_key : Text → ℕ → UserKey → Bool
is_key user_id version k = k.user_id == user_id && k.key_version == version

-- INSERT INTO user_keys
unfoldable pub insert_key : Session → UserKey → Db → Result Db
insert_key s k db =
    throw_if (not (is_current_user s k.user_id)) rls_violation
    >> throw_if (any (is_key k.user_id k.key_version) db.user_keys) unique_violation
    >> throw_if (not (user_exists k.user_id db)) foreign_key_violation
    >> ok (record db { user_keys = k ∷ db.user_keys })

-- the columns of the unique index of encrypted_deks
abbrev pub same_copy : EncryptedDek → EncryptedDek → Bool
same_copy a b =
    a.plan_id == b.plan_id
    && a.owner_id == b.owner_id
    && a.recipient_id == b.recipient_id
    && a.key_version == b.key_version
    && dek_type_eq a.dek_type b.dek_type

-- the WITH CHECK of the owner's policy and the foreign keys of encrypted_deks
unfoldable pub check_dek : Session → EncryptedDek → Db → Result (Unit {0})
check_dek s d db =
    throw_if (not (dek_insertable s db d)) rls_violation
    >> throw_if
        (not
          (plan_exists d.plan_id db && user_exists d.owner_id db && user_exists d.recipient_id db))
        foreign_key_violation

-- INSERT INTO encrypted_deks
unfoldable pub insert_dek : Session → EncryptedDek → Db → Result Db
insert_dek s d db =
    check_dek s d db
    >> throw_if (any (λ c. same_copy c d) db.encrypted_deks) unique_violation
    >> ok (record db { encrypted_deks = d ∷ db.encrypted_deks })

abbrev pub set_ciphertext : Text → EncryptedDek → EncryptedDek
set_ciphertext t c = record c { encrypted_dek = t }

-- INSERT … ON CONFLICT DO UPDATE SET encrypted_dek = …
unfoldable pub upsert_dek : Session → EncryptedDek → Db → Result Db
upsert_dek s d db =
    check_dek s d db
    >> (if any (λ c. same_copy c d) db.encrypted_deks
        then ok (record db {
          encrypted_deks =
              update (λ c. same_copy c d) (set_ciphertext d.encrypted_dek) db.encrypted_deks;
        })
        else ok (record db { encrypted_deks = d ∷ db.encrypted_deks }))

abbrev pub recovery_event : Cls → Text → KeyRecoveryEventType → RecoveryDetails → KeyRecoveryEvent
recovery_event cls user_id event_type details = record {
  user_id = user_id;
  event_type = event_type;
  ip_address = cls.ip_address;
  user_agent = cls.user_agent;
  details = details;
}

-- INSERT INTO key_recovery_events of a user whom a statement before it in the transaction has found
-- to be in users, as the foreign key wants, and whom the policy lets do so
abbrev pub log_event : KeyRecoveryEvent → Db → Db
log_event e db = record db { key_recovery_events = e ∷ db.key_recovery_events }

-- INSERT INTO key_recovery_events with its foreign key, by the user of the transaction
unfoldable pub insert_event : KeyRecoveryEvent → Db → Result Db
insert_event e db =
    throw_if (not (user_exists e.user_id db)) foreign_key_violation >> ok (log_event e db)
