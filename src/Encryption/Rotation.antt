-- ===== src/Encryption/Rotation.antt =====
-- `rotateDeks` of src/encryption/encryption.service.ts. The source checks each pair of recipient and
-- version, and each contact, once; checking a repeated one again changes neither the outcome nor the
-- first failure.
use legacy_made_api.Prelude.{ℕ, Bool, ◌&&◌, not, List, [], ◌∷◌, Text, ◌==◌, if◌then◌else◌}
use legacy_made_api.Prelude.Results.{ok, ◌>>=◌, ◌>>◌, throw_if, or_throw}
use legacy_made_api.Prelude.Tables.{any, delete}
use legacy_made_api.Schema.{
  UserKey, EncryptedDek, DekType, dek_type_eq, recovery_key_registered, recovery_key_deregistered,
  rotated_out, rotated_in, Db, Session, dek_owned,
}
use legacy_made_api.Errors.{Result, not_found, bad_request}
use legacy_made_api.DbService.{Cls, Tx, Method, rls, with_user_id}
use legacy_made_api.Encryption.Statements.{find_plan, is_key, insert_dek, recovery_event, log_event}
use legacy_made_api.Encryption.Deks.{has_contact, is_for_contact}

pub record NewDek : Type 0 where
  pub recipient_id : Text
  pub dek_type : DekType
  pub encrypted_dek : Text
  pub key_version : ℕ

pub record RotateDeksDto : Type 0 where
  pub plan_id : Text
  pub new_deks : List NewDek

abbrev pub is_active_key : Text → ℕ → UserKey → Bool
is_active_key u version k = is_key u version k && k.is_active

unfoldable pub check_keys : List NewDek → Db → Result (Unit {0})
check_keys [] db = ok tt
check_keys (d ∷ deks) db =
    throw_if (not (any (is_active_key d.recipient_id d.key_version) db.user_keys)) bad_request
    >> check_keys deks db

unfoldable pub check_contacts : Text → Text → List NewDek → Session → Db → Result (Unit {0})
check_contacts u plan_id [] s db = ok tt
check_contacts u plan_id (d ∷ deks) s db =
    throw_if
      (is_for_contact d.dek_type d.recipient_id u && not (has_contact s plan_id d.recipient_id db))
      bad_request
    >> check_contacts u plan_id deks s db

-- The copies that a rotation replaces: all of the user's for the plan but the escrow.
abbrev pub is_rotated : Session → Text → Text → EncryptedDek → Bool
is_rotated s u plan_id d =
    dek_owned s d
    && d.owner_id == u
    && d.plan_id == plan_id
    && not (dek_type_eq d.dek_type DekType.escrow)

abbrev pub rotated_dek : Text → Text → NewDek → EncryptedDek
rotated_dek u plan_id d = record {
  plan_id = plan_id;
  owner_id = u;
  recipient_id = d.recipient_id;
  dek_type = d.dek_type;
  encrypted_dek = d.encrypted_dek;
  key_version = d.key_version;
}

-- The rows of the INSERT, in their order; the body of a request has at least one.
unfoldable pub insert_deks : Text → Text → List NewDek → Session → Db → Result Db
insert_deks u plan_id [] s db = ok db
insert_deks u plan_id (d ∷ deks) s db =
    insert_dek s (rotated_dek u plan_id d) db >>= λ db₁. insert_deks u plan_id deks s db₁

abbrev pub recovery_versions : List NewDek → List ℕ
recovery_versions [] = []
recovery_versions (d ∷ deks) =
    let rest = recovery_versions deks in
    if dek_type_eq d.dek_type DekType.recovery then d.key_version ∷ rest else rest

-- Both events of a rotation that has recovery copies.
unfoldable pub log_rotation : Cls → Text → Text → List ℕ → Db → Db
log_rotation cls u plan_id [] db = db
log_rotation cls u plan_id (v ∷ versions) db =
    log_event (recovery_event cls u recovery_key_registered (rotated_in plan_id (v ∷ versions)))
      (log_event (recovery_event cls u recovery_key_deregistered (rotated_out plan_id)) db)

unfoldable pub rotate_tx : Cls → RotateDeksDto → Text → Session → Tx (Unit {0})
unfolding log_rotation
rotate_tx cls dto u s db = or_throw (find_plan s dto.plan_id db) not_found >>= λ plan.
    check_keys dto.new_deks db
    >> check_contacts u dto.plan_id dto.new_deks s db
    >> insert_deks u dto.plan_id dto.new_deks s
        (record db { encrypted_deks = delete (is_rotated s u dto.plan_id) db.encrypted_deks })
    >>= λ db₁. ok (tt, log_rotation cls u dto.plan_id (recovery_versions dto.new_deks) db₁)

-- `rotateDeks`, without the rows that it returns
unfoldable pub rotate_deks : RotateDeksDto → Cls → Method (Unit {0})
rotate_deks dto cls = with_user_id cls (λ u. rls cls (rotate_tx cls dto u))
