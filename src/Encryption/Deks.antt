-- ===== src/Encryption/Deks.antt =====
-- Copies of a plan's DEK: `storeEncryptedDek`, `getMyEncryptedDeks`, `deleteDeks`,
-- `deleteContactDekCopy` and `storeContactDekCopies` of src/encryption/encryption.service.ts. The
-- push notification after a copy for a contact is left out: its errors are only logged.
use legacy_made_api.Prelude.{
  ℕ, Bool, true, false, ◌&&◌, not, Option, none, some, List, [], ◌∷◌, Text, truthy, ◌==◌,
}
use legacy_made_api.Prelude.Results.{ok, ◌>>=◌, ◌>>◌, throw_if, or_throw}
use legacy_made_api.Prelude.Tables.{any, select, delete}
use legacy_made_api.Schema.{
  TrustedContact, EncryptedDek, DekType, dek_type_eq, recovery_key_deregistered, deregistered, Db,
  Session, dek_owned, dek_readable, contact_readable, is_user,
}
use legacy_made_api.Errors.{Result, not_found, bad_request}
use legacy_made_api.DbService.{Cls, Tx, Method, rls, with_user_id}
use legacy_made_api.Encryption.Statements.{find_plan, upsert_dek, recovery_event, insert_event}

pub record StoreEncryptedDekDto : Type 0 where
  pub plan_id : Text
  pub recipient_id : Text
  pub dek_type : DekType
  pub encrypted_dek : Text
  pub key_version : ℕ

-- A trusted contact of the plan who is the user, whatever the status of the invitation.
abbrev is_contact : Session → Db → Text → Text → TrustedContact → Bool
is_contact s db plan_id u c =
    contact_readable s db c && c.plan_id == plan_id && is_user u c.clerk_user_id

abbrev pub has_contact : Session → Text → Text → Db → Bool
has_contact s plan_id u db = any (is_contact s db plan_id u) db.trusted_contacts

abbrev stored_dek : StoreEncryptedDekDto → Text → EncryptedDek
stored_dek dto u = record {
  plan_id = dto.plan_id;
  owner_id = u;
  recipient_id = dto.recipient_id;
  dek_type = dto.dek_type;
  encrypted_dek = dto.encrypted_dek;
  key_version = dto.key_version;
}

-- `dekType === 'contact' && recipientId !== ownerId`
abbrev pub is_for_contact : DekType → Text → Text → Bool
is_for_contact t recipient_id u = dek_type_eq t DekType.contact && not (recipient_id == u)

unfoldable store_tx : StoreEncryptedDekDto → Text → Session → Tx (Unit {0})
store_tx dto u s db = or_throw (find_plan s dto.plan_id db) not_found >>= λ plan.
    throw_if
      (is_for_contact dto.dek_type dto.recipient_id u
        && not (has_contact s dto.plan_id dto.recipient_id db))
      bad_request
    >> upsert_dek s (stored_dek dto u) db
    >>= λ db₁. ok (tt, db₁)

-- `storeEncryptedDek`, without the row that it returns
unfoldable store_encrypted_dek : StoreEncryptedDekDto → Cls → Method (Unit {0})
store_encrypted_dek dto cls = with_user_id cls (λ u. rls cls (store_tx dto u))

abbrev is_my_copy : Session → Text → Text → Text → EncryptedDek → Bool
is_my_copy s owner_id plan_id u d =
    dek_readable s d && d.owner_id == owner_id && d.recipient_id == u && d.plan_id == plan_id

-- `getMyEncryptedDeks`
unfoldable get_my_encrypted_deks : Text → Text → Cls → Method (List EncryptedDek)
get_my_encrypted_deks owner_id plan_id cls =
    with_user_id cls
      (λ u. rls cls (λ s db. ok (select (is_my_copy s owner_id plan_id u) db.encrypted_deks, db)))

abbrev is_given : Option ℕ → ℕ → Bool
is_given none x = true
is_given (some v) x = x == v

-- The conditions of `deleteDeks`: a recipient and a version narrow them if they are given.
abbrev is_deleted_copy :
    Session → Text → Text → DekType → Option Text → Option ℕ → EncryptedDek → Bool
is_deleted_copy s u plan_id t recipient_id version d =
    dek_owned s d
    && d.owner_id == u
    && d.plan_id == plan_id
    && dek_type_eq d.dek_type t
    && is_given (truthy recipient_id) d.recipient_id
    && is_given version d.key_version

log_deregistration : Cls → Text → Text → DekType → Option ℕ → Db → Result Db
log_deregistration cls u plan_id DekType.recovery version db =
    insert_event (recovery_event cls u recovery_key_deregistered (deregistered plan_id version)) db
log_deregistration cls u plan_id _ version db = ok db

unfoldable delete_deks_tx :
    Cls → Text → DekType → Option Text → Option ℕ → Text → Session → Tx (Unit {0})
unfolding log_deregistration
delete_deks_tx cls plan_id t recipient_id version u s db =
    log_deregistration cls u plan_id t version (record db {
      encrypted_deks =
          delete (is_deleted_copy s u plan_id t recipient_id version) db.encrypted_deks;
    })
    >>= λ db₁. ok (tt, db₁)

-- `deleteDeks`
unfoldable delete_deks : Text → DekType → Option Text → Option ℕ → Cls → Method (Unit {0})
delete_deks plan_id t recipient_id version cls =
    with_user_id cls (λ u. rls cls (delete_deks_tx cls plan_id t recipient_id version u))

abbrev pub is_contact_copy : Session → Text → Text → Text → EncryptedDek → Bool
is_contact_copy s owner_id recipient_id plan_id d =
    dek_owned s d
    && d.owner_id == owner_id
    && d.recipient_id == recipient_id
    && dek_type_eq d.dek_type DekType.contact
    && d.plan_id == plan_id

-- `deleteContactDekCopy` in a transaction: whether rows were deleted
unfoldable pub delete_contact_dek_copy : Text → Text → Session → Db → Bool × Db
delete_contact_dek_copy plan_id recipient_id s db = elim (find_plan s plan_id db) [
  | none ↦ (false, db)
  | some p ↦ (
    any (is_contact_copy s p.user_id recipient_id plan_id) db.encrypted_deks,
    record db {
      encrypted_deks = delete (is_contact_copy s p.user_id recipient_id plan_id) db.encrypted_deks;
    },
  )
]

pub record ContactDek : Type 0 where
  pub recipient_id : Text
  pub encrypted_dek : Text
  pub key_version : ℕ

abbrev pub contact_dek : Text → Text → ContactDek → EncryptedDek
contact_dek plan_id owner_id d = record {
  plan_id = plan_id;
  owner_id = owner_id;
  recipient_id = d.recipient_id;
  dek_type = DekType.contact;
  encrypted_dek = d.encrypted_dek;
  key_version = d.key_version;
}

-- `storeContactDekCopies`
unfoldable pub store_contact_dek_copies : Text → Text → List ContactDek → Session → Db → Result Db
store_contact_dek_copies plan_id owner_id [] s db = ok db
store_contact_dek_copies plan_id owner_id (d ∷ deks) s db =
    upsert_dek s (contact_dek plan_id owner_id d) db >>= λ db₁.
    store_contact_dek_copies plan_id owner_id deks s db₁
