-- ===== src/Sharing/Creation.antt =====
-- What `create` of src/trusted-contacts/trusted-contacts.service.ts returns for the owner of the plan.
use legacy_made_api.Prelude.{
  ◌≡◌, refl, true, false, ◌&&◌, ◌||◌, none, some, List, [], ◌∷◌, Text, truthy, ◌==◌, arith,
  Bool-cases, inl, inr,
}
use legacy_made_api.Prelude.Results.{ok}
use legacy_made_api.Prelude.Tables.{find, any}
use legacy_made_api.Schema.{User, TrustedContact, user_owns_plan, Db, Session, as_user}
use legacy_made_api.DbService.{Cls, transaction, rls}
use legacy_made_api.ActivityLog.{activity}
use legacy_made_api.Encryption.Statements.{user_exists}
use legacy_made_api.Encryption.Deks.{store_contact_dek_copies}
use legacy_made_api.TrustedContacts.{
  ContactFields, new_contact, has_email, insert_contact, write_contact, find_owner,
  creation_activity, create_with, create_tx, create,
}
use legacy_made_api.Sharing.Writes.{log_returns}
use legacy_made_api.Sharing.Owner.{find_plan_owned, owned_exists}

find_no_email :
    (s : Session) (db : Db) (plan_id email : Text) (rows : List TrustedContact)
    → any (λ (x : TrustedContact). x.plan_id == plan_id && x.email == email) rows ≡ false
    → find (has_email s db plan_id email) rows ≡ none
find_no_email s db plan_id email [] h = refl
find_no_email s db plan_id email (x ∷ xs) h = ground (arith, find_no_email s db plan_id email xs)

no_conflict :
    (id plan_id email : Text) (rows : List TrustedContact)
    → any (λ (x : TrustedContact). x.id == id) rows ≡ false
    → any (λ (x : TrustedContact). x.plan_id == plan_id && x.email == email) rows ≡ false
    → any (λ (x : TrustedContact). x.id == id || (x.plan_id == plan_id && x.email == email)) rows
      ≡ false
no_conflict id plan_id email [] h k = refl
no_conflict id plan_id email (x ∷ xs) h k = ground (arith, no_conflict id plan_id email xs)

find_user :
    (u w : Text) (users : List User)
    → w ≡ u
    → any (λ (x : User). x.id == u) users ≡ true
    → (x : User) × (find (λ (y : User). y.id == u && y.id == w) users ≡ some x)
find_user u w [] same h = cc
find_user u w (x ∷ xs) same h = elim (Bool-cases (x.id == u)) [
  | inl here ↦ (x, ground arith)
  | inr there ↦ let (y, e) = find_user u w xs same (ground arith) in (y, ground arith)
]

abbrev pub created_db : Text → Text → Text → Cls → ContactFields → Db → Db
created_db new_id plan_id u cls f db = record db {
  trusted_contacts = new_contact new_id plan_id f ∷ db.trusted_contacts;
  plan_activity_log =
      activity cls u (creation_activity plan_id none (new_contact new_id plan_id f))
      ∷ db.plan_activity_log;
}

write_contact_returns :
    (new_id plan_id u : Text) (f : ContactFields) (db : Db)
    → user_owns_plan (as_user u) db plan_id ≡ true
    → any (λ (x : TrustedContact). x.id == new_id) db.trusted_contacts ≡ false
    → any (λ (x : TrustedContact). x.plan_id == plan_id && x.email == f.email) db.trusted_contacts
      ≡ false
    → write_contact new_id f plan_id none (as_user u) db
      ≡ ok (
        some (new_contact new_id plan_id f),
        record db { trusted_contacts = new_contact new_id plan_id f ∷ db.trusted_contacts },
      )
unfolding write_contact insert_contact
write_contact_returns new_id plan_id u f db owned fresh new =
    rw (owned, no_conflict new_id plan_id f.email db.trusted_contacts fresh new) refl

-- Where the owner of a plan invites a person whose e-mail no contact of the plan has, without copies of
-- the DEK and with an id that no contact has, `create` returns the pending contact, adds it to the table
-- and adds a line to the log, whatever the owner's subscription and the number of the plan's contacts.
pub create_returns :
    (new_id plan_id u : Text) (f : ContactFields) (cls : Cls) (db : Db)
    → truthy cls.user_id ≡ some u
    → user_owns_plan (as_user u) db plan_id ≡ true
    → user_exists u db ≡ true
    → any (λ (x : TrustedContact). x.id == new_id) db.trusted_contacts ≡ false
    → any (λ (x : TrustedContact). x.plan_id == plan_id && x.email == f.email) db.trusted_contacts
      ≡ false
    → create new_id (record { fields = f; deks = [] }) plan_id cls db
      ≡ (ok (new_contact new_id plan_id f), created_db new_id plan_id u cls f db)
unfolding create create_tx create_with creation_activity store_contact_dek_copies
create_returns new_id plan_id u f cls db signed_in owned user fresh new =
    let (p, e, owns, _) = find_plan_owned u plan_id db.plans owned in
    let (x, g) = find_user u p.user_id db.users owns user in
    let written : Db = record db {
      trusted_contacts = new_contact new_id plan_id f ∷ db.trusted_contacts;
    } in
    let g' : find_owner (as_user u) p written ≡ some x = g in
    rw
      (
        rls,
        signed_in,
        transaction,
        find_no_email (as_user u) db plan_id f.email db.trusted_contacts new,
        write_contact_returns new_id plan_id u f db owned fresh new,
        e,
        g',
        log_returns cls (creation_activity plan_id none (new_contact new_id plan_id f)) (as_user u)
            u written signed_in (rw owned refl) (owned_exists plan_id u db.plans owned) user,
      )
      refl
