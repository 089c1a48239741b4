-- ===== src/Invitations.antt =====
-- The invited person's side of sharing: src/access-invitations/invitation-actions.service.ts and
-- src/access-invitations/access-invitations.service.ts. What a token decodes to
-- (src/trusted-contacts/invitation-token.service.ts) is a parameter, `none` where it is refused. Mails
-- and push notifications, whose errors are only logged, are left out, and so is their text.
pub mod Tokens
use legacy_made_api.Prelude.{
  ℕ, Bool, true, false, ◌&&◌, not, Option, none, some, List, [], ◌∷◌, Text, truthy, ◌==◌,
}
use legacy_made_api.Prelude.Results.{ok, err, ◌>>=◌, ◌>>◌, throw_if}
use legacy_made_api.Prelude.Tables.{find, update}
use legacy_made_api.Schema.{
  User, TrustedContact, AccessStatus, Action, ResourceType, ActivityDetails, Db, Session, bypassing,
  is_user,
}
use legacy_made_api.Errors.{Result, foreign_key_violation}
use legacy_made_api.DbService.{Cls, Tx, Method, transaction}
use legacy_made_api.ActivityLog.{log}
use legacy_made_api.Encryption.Statements.{user_exists}
use legacy_made_api.Encryption.Deks.{delete_contact_dek_copy}
use legacy_made_api.TrustedContacts.{update_contact, contact_activity}

-- `logAndNotifyOwner`, without the notification
abbrev pub log_status : Cls → TrustedContact → AccessStatus → Db → Result Db
log_status cls c status =
    log cls (contact_activity c.plan_id c.id Action.updated (ActivityDetails.status_change status))
      bypassing

abbrev pub set_accepted : ℕ → Text → TrustedContact → TrustedContact
set_accepted now u c = record c {
  access_status = AccessStatus.accepted;
  accepted_at = some now;
  clerk_user_id = some u;
}

-- `const { notes, ...withoutNotes } = updated`: the owner's notes are not in the answer.
abbrev pub without_notes : TrustedContact → TrustedContact
without_notes c = record c { notes = none }

-- `performAccept`, in the caller's transaction, which bypasses the policies; the copy of the DEK that
-- it looks for is part of the notification only. The column clerk_user_id refers to users.
unfoldable pub perform_accept : ℕ → Cls → TrustedContact → Text → Tx TrustedContact
perform_accept now cls c u db =
    throw_if (not (user_exists u db)) foreign_key_violation
    >> log_status cls c AccessStatus.accepted
        (update_contact bypassing c.id (set_accepted now u) db)
    >>= λ db₁. ok (without_notes (set_accepted now u c), db₁)

abbrev pub set_declined : ℕ → TrustedContact → TrustedContact
set_declined now c = record c { access_status = AccessStatus.declined; declined_at = some now }

unfoldable pub decline_tx : ℕ → Cls → TrustedContact → Tx (Unit {0})
decline_tx now cls c db =
    log_status cls c AccessStatus.declined (update_contact bypassing c.id (set_declined now) db)
    >>= λ db₁. ok (tt, db₁)

abbrev pub id_of_user : Option User → Option Text
id_of_user none = none
id_of_user (some x) = some x.id

-- `resolveUserIdByEmail` of src/encryption/encryption.service.ts
unfoldable pub resolve_user_id_by_email : Text → Db → Option Text
resolve_user_id_by_email email db = id_of_user (find (λ (x : User). is_user email x.email) db.users)

-- `trustedContact.clerkUserId ?? …`
unfoldable pub invited_user : TrustedContact → Db → Option Text
unfolding resolve_user_id_by_email
invited_user c db = elim c.clerk_user_id [
  | some u ↦ some u
  | none ↦ resolve_user_id_by_email c.email db
]

-- The copies of the invited user are deleted in a transaction of their own, which commits at once.
unfoldable pub delete_shared_copy : TrustedContact → Db → Db
unfolding invited_user
delete_shared_copy c db = elim (truthy (invited_user c db)) [
  | none ↦ db
  | some u ↦ (delete_contact_dek_copy c.plan_id u bypassing db).1
]

-- `performDecline`: where the caller's transaction fails, what the inner one deleted stays deleted.
-- The two write different tables, so the inner one stands before the outer one.
unfoldable pub perform_decline : ℕ → Cls → TrustedContact → Method (Unit {0})
perform_decline now cls c db = transaction (decline_tx now cls c) (delete_shared_copy c db)
