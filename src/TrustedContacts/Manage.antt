-- ===== src/TrustedContacts/Manage.antt =====
-- `update`, `revoke`, `delete` and `resendInvitation` of
-- src/trusted-contacts/trusted-contacts.service.ts. `now` is what `new Date()` returns.
use legacy_made_api.Prelude.{
  ℕ, Bool, true, false, ◌&&◌, not, Option, none, some, Text, truthy, ◌==◌,
}
use legacy_made_api.Prelude.Results.{ok, ◌>>=◌, ◌>>◌, throw_if, or_throw}
use legacy_made_api.Prelude.Tables.{find, update, delete}
use legacy_made_api.Schema.{
  TrustedContact, AccessLevel, AccessTiming, AccessStatus, access_status_eq, Action,
  ActivityDetails, Db, Session, user_owns_plan,
}
use legacy_made_api.Errors.{not_found, bad_request, internal}
use legacy_made_api.DbService.{Cls, Tx, Method, rls}
use legacy_made_api.ActivityLog.{log}
use legacy_made_api.Encryption.Statements.{find_plan}
use legacy_made_api.Encryption.Deks.{delete_contact_dek_copy}
use legacy_made_api.TrustedContacts.{
  given, given_option, has_id, is_writable, update_contact, contact_activity, find_owner,
}

-- A field that the request leaves out is `none`.
pub record UpdateTrustedContactDto : Type 0 where
  pub first_name : Option Text
  pub last_name : Option Text
  pub relationship : Option Text
  pub access_level : Option AccessLevel
  pub access_timing : Option AccessTiming
  pub notes : Option Text

abbrev pub is_present : {A : Type 0} → Option A → Bool
is_present none = false
is_present (some _) = true

-- Drizzle's `set` throws where no column has a value.
abbrev pub is_empty : UpdateTrustedContactDto → Bool
is_empty dto =
    not (is_present dto.first_name)
    && not (is_present dto.last_name)
    && not (is_present dto.relationship)
    && not (is_present dto.access_level)
    && not (is_present dto.access_timing)
    && not (is_present dto.notes)

abbrev pub set_fields : UpdateTrustedContactDto → TrustedContact → TrustedContact
set_fields dto c = record c {
  first_name = given dto.first_name c.first_name;
  last_name = given dto.last_name c.last_name;
  relationship = given_option dto.relationship c.relationship;
  access_level = given dto.access_level c.access_level;
  access_timing = given dto.access_timing c.access_timing;
  notes = given_option dto.notes c.notes;
}

abbrev pub is_updated : Session → Db → Text → Text → TrustedContact → Bool
is_updated s db id plan_id c = user_owns_plan s db c.plan_id && c.id == id && c.plan_id == plan_id

unfoldable pub update_tx : Cls → Text → Text → UpdateTrustedContactDto → Session → Tx TrustedContact
update_tx cls id plan_id dto s db =
    throw_if (is_empty dto) internal
    >> or_throw (find (is_updated s db id plan_id) db.trusted_contacts) not_found
    >>= λ c.
        log cls (contact_activity plan_id id Action.updated ActivityDetails.no_activity_details) s
          (record db {
            trusted_contacts =
                update (is_updated s db id plan_id) (set_fields dto) db.trusted_contacts;
          })
        >>= λ db₁. ok (set_fields dto c, db₁)

-- `update`
unfoldable pub update_trusted_contact :
    Text → Text → UpdateTrustedContactDto → Cls → Method TrustedContact
update_trusted_contact id plan_id dto cls = rls cls (update_tx cls id plan_id dto)

abbrev pub set_revoked_by_owner : ℕ → TrustedContact → TrustedContact
set_revoked_by_owner now c = record c {
  access_status = AccessStatus.revoked_by_owner;
  revoked_at = some now;
}

-- The contact's copies of the DEK, if the contact is linked to a user, and whether there were any.
unfoldable pub delete_linked_copy : Text → Option Text → Session → Db → Bool × Db
delete_linked_copy plan_id none s db = (false, db)
delete_linked_copy plan_id (some recipient_id) s db =
    delete_contact_dek_copy plan_id recipient_id s db

-- The rest of `revoke`, after the contact was found.
unfoldable pub revoke_found : ℕ → Cls → Text → Text → TrustedContact → Session → Tx (Unit {0})
revoke_found now cls id plan_id c s db =
    let (deleted, db₁) =
      delete_linked_copy plan_id (truthy c.clerk_user_id) s
        (update_contact s id (set_revoked_by_owner now) db) in
    log cls
      (contact_activity plan_id id Action.updated
        (ActivityDetails.status_change_dek AccessStatus.revoked_by_owner deleted))
      s db₁
    >>= λ db₂. ok (tt, db₂)

unfoldable pub revoke_tx : ℕ → Cls → Text → Text → Session → Tx (Unit {0})
revoke_tx now cls id plan_id s db =
    or_throw (find (has_id s db id plan_id) db.trusted_contacts) not_found >>= λ c.
    revoke_found now cls id plan_id c s db

-- `revoke`
unfoldable pub revoke : ℕ → Text → Text → Cls → Method (Unit {0})
revoke now id plan_id cls = rls cls (revoke_tx now cls id plan_id)

-- The rest of `delete`, after the contact was found.
unfoldable pub delete_found : Cls → Text → Text → TrustedContact → Session → Tx (Unit {0})
delete_found cls id plan_id c s db =
    let (deleted, db₁) = delete_linked_copy plan_id (truthy c.clerk_user_id) s db in
    log cls
      (contact_activity plan_id id Action.deleted
        (ActivityDetails.contact_deleted c.email c.access_status deleted))
      s (record db₁ { trusted_contacts = delete (is_writable s db₁ id) db₁.trusted_contacts })
    >>= λ db₂. ok (tt, db₂)

unfoldable pub delete_tx : Cls → Text → Text → Session → Tx (Unit {0})
delete_tx cls id plan_id s db =
    or_throw (find (has_id s db id plan_id) db.trusted_contacts) not_found >>= λ c.
    delete_found cls id plan_id c s db

-- `delete`
unfoldable pub delete_trusted_contact : Text → Text → Cls → Method (Unit {0})
delete_trusted_contact id plan_id cls = rls cls (delete_tx cls id plan_id)

-- `sent` says whether the mail could be sent; where it could not, the error is passed on.
unfoldable pub resend_tx : Bool → Text → Text → Session → Tx (Unit {0})
resend_tx sent id plan_id s db =
    or_throw (find (has_id s db id plan_id) db.trusted_contacts) not_found >>= λ c.
    throw_if (not (access_status_eq c.access_status AccessStatus.pending)) bad_request
    >> or_throw (find_plan s plan_id db) not_found
    >>= λ plan. or_throw (find_owner s plan db) not_found >>= λ owner.
        throw_if (not sent) internal >> ok (tt, db)

-- `resendInvitation`
unfoldable pub resend_invitation : Bool → Text → Text → Cls → Method (Unit {0})
resend_invitation sent id plan_id cls = rls cls (resend_tx sent id plan_id)
