-- ===== src/Invitations/Tokens.antt =====
-- `AccessInvitationsService` of src/access-invitations/access-invitations.service.ts: invitations by
-- their tokens, and the access that a contact gives up.
use legacy_made_api.Prelude.{ℕ, Bool, true, ◌&&◌, not, Option, none, some, Text, ◌==◌}
use legacy_made_api.Prelude.Results.{ok, err, ◌>>=◌, ◌>>◌, throw_if, or_throw}
use legacy_made_api.Prelude.Tables.{find, delete}
use legacy_made_api.Schema.{
  User, TrustedContact, EncryptedDek, AccessLevel, AccessTiming, AccessStatus, DekType,
  access_status_eq, dek_type_eq, is_user, Action, ActivityDetails, Db, Session, bypassing,
}
use legacy_made_api.Errors.{Result, not_found, bad_request, unauthorized}
use legacy_made_api.DbService.{Cls, Tx, Method, transaction, bypass_rls, with_user_id}
use legacy_made_api.ActivityLog.{log}
use legacy_made_api.Encryption.Statements.{find_plan}
use legacy_made_api.TrustedContacts.{update_contact, contact_activity, find_owner}
use legacy_made_api.Invitations.{perform_accept, perform_decline}

pub record InvitationTokenPayload : Type 0 where
  pub trusted_contact_id : Text
  pub plan_id : Text
  pub email : Text

-- `verifyToken` for the tokens of the requests
abbrev pub Verify : Type 0
Verify = Text → Option InvitationTokenPayload

abbrev pub verify_token : Verify → Text → Result InvitationTokenPayload
verify_token verify token = or_throw (verify token) unauthorized

abbrev pub has_contact_id : Text → TrustedContact → Bool
has_contact_id id c = c.id == id

pub record InvitationDetails : Type 0 where
  pub id : Text
  pub plan_id : Text
  pub owner_first_name : Option Text
  pub owner_last_name : Option Text
  pub access_level : AccessLevel
  pub access_timing : AccessTiming
  pub access_status : AccessStatus
  pub contact_email : Text
  pub contact_first_name : Text
  pub contact_last_name : Text

abbrev invitation_details : TrustedContact → User → InvitationDetails
invitation_details c owner = record {
  id = c.id;
  plan_id = c.plan_id;
  owner_first_name = owner.first_name;
  owner_last_name = owner.last_name;
  access_level = c.access_level;
  access_timing = c.access_timing;
  access_status = c.access_status;
  contact_email = c.email;
  contact_first_name = c.first_name;
  contact_last_name = c.last_name;
}

-- `getInvitationDetails`; the owner's name is not put together
unfoldable pub get_invitation_details : Verify → Text → Method InvitationDetails
get_invitation_details verify token db = elim (verify token) [
  | none ↦ (err unauthorized, db)
  | some p ↦
      bypass_rls
        (λ s db₁.
          or_throw (find (has_contact_id p.trusted_contact_id) db₁.trusted_contacts) not_found
          >>= λ c. or_throw (find_plan s c.plan_id db₁) not_found >>= λ plan.
              or_throw (find_owner s plan db₁) not_found >>= λ owner.
              throw_if (not (c.email == p.email)) unauthorized
              >> ok (invitation_details c owner, db₁))
        db
]

-- `findAndValidatePendingContact`
unfoldable pub find_and_validate_pending_contact :
    InvitationTokenPayload → Db → Result TrustedContact
find_and_validate_pending_contact p db =
    or_throw (find (has_contact_id p.trusted_contact_id) db.trusted_contacts) not_found >>= λ c.
    throw_if (not (c.email == p.email)) unauthorized
    >> throw_if (not (access_status_eq c.access_status AccessStatus.pending)) bad_request
    >> ok c

unfoldable pub accept_tx : ℕ → Cls → InvitationTokenPayload → Text → Tx TrustedContact
accept_tx now cls p u db =
    find_and_validate_pending_contact p db >>= λ c. perform_accept now cls c u db

-- The rest of `acceptInvitation`, by the token's payload.
unfoldable pub accept_with : ℕ → Cls → Result InvitationTokenPayload → Text → Method TrustedContact
accept_with now cls (err e) u db = (err e, db)
accept_with now cls (ok p) u db = transaction (accept_tx now cls p u) db

-- `acceptInvitation`
unfoldable pub accept_invitation : Verify → ℕ → Text → Cls → Method TrustedContact
unfolding accept_with
accept_invitation verify now token cls =
    with_user_id cls (accept_with now cls (verify_token verify token))

-- The rest of `declineInvitation`, by the pending contact.
unfoldable pub decline_found : ℕ → Cls → Result TrustedContact → Method (Unit {0})
decline_found now cls (err e) db = (err e, db)
decline_found now cls (ok c) db = perform_decline now cls c db

-- `declineInvitation`, also without a signed-in user
unfoldable pub decline_invitation : Verify → ℕ → Text → Cls → Method (Unit {0})
unfolding decline_found
decline_invitation verify now token cls db =
    decline_found now cls
      (verify_token verify token >>= λ p. find_and_validate_pending_contact p db) db

abbrev pub is_contact_of : Text → Text → TrustedContact → Bool
is_contact_of plan_id u c = c.plan_id == plan_id && is_user u c.clerk_user_id

abbrev pub set_revoked_by_contact : ℕ → TrustedContact → TrustedContact
set_revoked_by_contact now c = record c {
  access_status = AccessStatus.revoked_by_contact;
  revoked_at = some now;
}

abbrev pub is_received_copy : Text → Text → EncryptedDek → Bool
is_received_copy plan_id u d =
    d.recipient_id == u && dek_type_eq d.dek_type DekType.contact && d.plan_id == plan_id

unfoldable pub revoke_own_found : ℕ → Cls → Text → Text → TrustedContact → Tx (Unit {0})
revoke_own_found now cls plan_id u c db =
    let db₁ = update_contact bypassing c.id (set_revoked_by_contact now) db in
    log cls
      (contact_activity plan_id c.id Action.updated
        (ActivityDetails.status_change_dek AccessStatus.revoked_by_contact true))
      bypassing
      (record db₁ { encrypted_deks = delete (is_received_copy plan_id u) db₁.encrypted_deks })
    >>= λ db₂. ok (tt, db₂)

unfoldable pub revoke_own_tx : ℕ → Cls → Text → Text → Session → Tx (Unit {0})
revoke_own_tx now cls plan_id u s db =
    or_throw (find (is_contact_of plan_id u) db.trusted_contacts) not_found >>= λ c.
    throw_if (not (access_status_eq c.access_status AccessStatus.accepted)) bad_request
    >> revoke_own_found now cls plan_id u c db

-- `revokeOwnAccess`
unfoldable pub revoke_own_access : ℕ → Text → Cls → Method (Unit {0})
revoke_own_access now plan_id cls =
    with_user_id cls (λ u. bypass_rls (revoke_own_tx now cls plan_id u))
