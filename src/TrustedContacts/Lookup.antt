-- ===== src/TrustedContacts/Lookup.antt =====
-- `findAll` and `findOne` of src/trusted-contacts/trusted-contacts.service.ts. The order of a list, by
-- the time of creation, is left out.
use legacy_made_api.Prelude.{
  Bool, false, ◌&&◌, Option, none, some, List, [], ◌∷◌, Text, truthy, ◌==◌,
}
use legacy_made_api.Prelude.Results.{ok, ◌>>=◌, or_throw}
use legacy_made_api.Prelude.Tables.{any, find, select}
use legacy_made_api.Schema.{
  TrustedContact, EncryptedDek, DekType, dek_type_eq, Db, Session, contact_readable, dek_readable,
}
use legacy_made_api.Errors.{not_found}
use legacy_made_api.DbService.{Cls, Method, rls}
use legacy_made_api.TrustedContacts.{has_id}

pub record ContactWithDek : Type 0 where
  pub contact : TrustedContact
  pub dek_shared : Bool

abbrev pub is_shared_copy : Session → Text → EncryptedDek → Bool
is_shared_copy s plan_id d =
    dek_readable s d && d.plan_id == plan_id && dek_type_eq d.dek_type DekType.contact

abbrev pub is_recipient : Text → EncryptedDek → Bool
is_recipient u d = d.recipient_id == u

-- `contact.clerkUserId ? recipientsWithDek.has(contact.clerkUserId) : false`
abbrev pub has_dek : List EncryptedDek → Option Text → Bool
has_dek copies clerk_user_id = elim (truthy clerk_user_id) [
  | none ↦ false
  | some u ↦ any (is_recipient u) copies
]

abbrev pub with_dek_shared : List EncryptedDek → List TrustedContact → List ContactWithDek
with_dek_shared copies [] = []
with_dek_shared copies (c ∷ contacts) =
    record { contact = c; dek_shared = has_dek copies c.clerk_user_id }
    ∷ with_dek_shared copies contacts

abbrev pub is_of_plan : Session → Db → Text → TrustedContact → Bool
is_of_plan s db plan_id c = contact_readable s db c && c.plan_id == plan_id

-- `findAll`
unfoldable pub find_all : Text → Cls → Method (List ContactWithDek)
find_all plan_id cls = rls cls (λ s db. ok (
  with_dek_shared (select (is_shared_copy s plan_id) db.encrypted_deks)
      (select (is_of_plan s db plan_id) db.trusted_contacts),
  db,
))

abbrev pub is_shared_with : Session → Text → Text → EncryptedDek → Bool
is_shared_with s plan_id u d =
    dek_readable s d
    && d.plan_id == plan_id
    && d.recipient_id == u
    && dek_type_eq d.dek_type DekType.contact

abbrev pub has_shared_copy : Session → Db → Text → Option Text → Bool
has_shared_copy s db plan_id clerk_user_id = elim (truthy clerk_user_id) [
  | none ↦ false
  | some u ↦ any (is_shared_with s plan_id u) db.encrypted_deks
]

-- `findOne`
unfoldable pub find_one : Text → Text → Cls → Method ContactWithDek
find_one id plan_id cls = rls cls (λ s db.
    or_throw (find (has_id s db id plan_id) db.trusted_contacts) not_found >>= λ c.
    ok (record { contact = c; dek_shared = has_shared_copy s db plan_id c.clerk_user_id }, db))
