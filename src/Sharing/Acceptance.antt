-- ===== src/Sharing/Acceptance.antt =====
-- What accepting an invitation (src/access-invitations) gives.
use legacy_made_api.Prelude.{
  ◌≡◌, refl, ◌∙◌, ℕ, Bool, true, some, List, [], ◌∷◌, Text, truthy, ◌==◌, arith, Bool-cases, inl,
  inr,
}
use legacy_made_api.Prelude.Results.{ok}
use legacy_made_api.Prelude.Tables.{find, any, update}
use legacy_made_api.Schema.{
  TrustedContact, AccessLevels, AccessStatus, AccessTiming, gives_access, user_has_access,
  owner_or_contact, Db, Action, ActivityDetails, as_user, bypassing,
}
use legacy_made_api.DbService.{Cls, transaction}
use legacy_made_api.DbService.Keeps.{with_user_id-signed_in}
use legacy_made_api.PlanAccess.{has_plan_id}
use legacy_made_api.Encryption.Statements.{user_exists}
use legacy_made_api.ActivityLog.{activity}
use legacy_made_api.TrustedContacts.{update_contact, is_writable, contact_activity}
use legacy_made_api.Invitations.{set_accepted, without_notes, perform_accept}
use legacy_made_api.Invitations.Tokens.{
  verify_token, InvitationTokenPayload, Verify, has_contact_id, find_and_validate_pending_contact,
  accept_tx, accept_with, accept_invitation,
}
use legacy_made_api.Sharing.Writes.{log_returns}

-- A row that a SELECT finds, after an UPDATE of it.
any-update_found :
    {A : Type 0} (q p g : A → Bool) (f : A → A) (rows : List A) (c : A)
    → find q rows ≡ some c
    → p c ≡ true
    → g (f c) ≡ true
    → any g (update p f rows) ≡ true
any-update_found q p g f [] c found hit good = cc
any-update_found q p g f (x ∷ xs) c found hit good = elim (Bool-cases (q x)) [
  | inl here ↦ let same : x ≡ c = ground arith in rw (same, hit, good) refl
  | inr there ↦ ground (arith, any-update_found q p g f xs c)
]

abbrev pub accepted_db : ℕ → Text → Cls → TrustedContact → Db → Db
accepted_db now u cls c db = record db {
  trusted_contacts =
      update (is_writable bypassing db c.id) (set_accepted now u) db.trusted_contacts;
  plan_activity_log =
      activity cls u (
        contact_activity c.plan_id c.id Action.updated
          (ActivityDetails.status_change AccessStatus.accepted))
      ∷ db.plan_activity_log;
}

perform_accept_returns :
    (now : ℕ) (u : Text) (cls : Cls) (c : TrustedContact) (db : Db)
    → truthy cls.user_id ≡ some u
    → any (has_plan_id c.plan_id) db.plans ≡ true
    → user_exists u db ≡ true
    → perform_accept now cls c u db
      ≡ ok (without_notes (set_accepted now u c), accepted_db now u cls c db)
unfolding perform_accept
perform_accept_returns now u cls c db signed_in plan user =
    rw
      (
        user,
        log_returns cls
            (contact_activity c.plan_id c.id Action.updated
              (ActivityDetails.status_change AccessStatus.accepted))
            bypassing u (update_contact bypassing c.id (set_accepted now u) db) signed_in refl plan
            user,
      )
      refl

accept_tx_returns :
    (now : ℕ) (u : Text) (cls : Cls) (p : InvitationTokenPayload) (c : TrustedContact) (db : Db)
    → truthy cls.user_id ≡ some u
    → find (has_contact_id p.trusted_contact_id) db.trusted_contacts ≡ some c
    → c.email == p.email ≡ true
    → c.access_status ≡ AccessStatus.pending
    → any (has_plan_id c.plan_id) db.plans ≡ true
    → user_exists u db ≡ true
    → accept_tx now cls p u db
      ≡ ok (without_notes (set_accepted now u c), accepted_db now u cls c db)
unfolding accept_tx find_and_validate_pending_contact perform_accept
accept_tx_returns now u cls p c db signed_in found email pending plan user =
    rw (found, email, pending, perform_accept_returns now u cls c db signed_in plan user) refl

accept_invitation_returns :
    (verify : Verify) (now : ℕ) (token u : Text) (cls : Cls) (p : InvitationTokenPayload)
    (c : TrustedContact) (db : Db)
    → truthy cls.user_id ≡ some u
    → verify token ≡ some p
    → find (has_contact_id p.trusted_contact_id) db.trusted_contacts ≡ some c
    → c.email == p.email ≡ true
    → c.access_status ≡ AccessStatus.pending
    → any (has_plan_id c.plan_id) db.plans ≡ true
    → user_exists u db ≡ true
    → accept_invitation verify now token cls db
      ≡ (ok (without_notes (set_accepted now u c)), accepted_db now u cls c db)
unfolding accept_invitation accept_with
accept_invitation_returns verify now token u cls p c db signed_in named found email pending plan
      user =
    with_user_id-signed_in cls (accept_with now cls (verify_token verify token)) u db signed_in
    ∙ rw
        (
          named,
          transaction,
          accept_tx_returns now u cls p c db signed_in found email pending plan user,
        )
        refl

-- A signed-in user who accepts a pending invitation to immediate access with its token, which names the
-- contact and its e-mail, gets the contact back as accepted and without the owner's notes, and the
-- policies then let the user do on the plan what the contact's access level allows; the plan and the
-- user are in the database.
pub accept_gives_access :
    (verify : Verify) (now : ℕ) (token u : Text) (levels : AccessLevels) (cls : Cls)
    (p : InvitationTokenPayload) (c : TrustedContact) (db : Db)
    → truthy cls.user_id ≡ some u
    → verify token ≡ some p
    → find (has_contact_id p.trusted_contact_id) db.trusted_contacts ≡ some c
    → c.email == p.email ≡ true
    → c.access_status ≡ AccessStatus.pending
    → c.access_timing ≡ AccessTiming.immediate
    → levels c.access_level ≡ true
    → any (has_plan_id c.plan_id) db.plans ≡ true
    → user_exists u db ≡ true
    → let (r, db') = accept_invitation verify now token cls db in
      (r ≡ ok (without_notes (set_accepted now u c)))
      × (owner_or_contact (as_user u) levels db' c.plan_id ≡ true)
accept_gives_access verify now token u levels cls p c db signed_in named found email pending
      immediate level plan user =
    let e =
      accept_invitation_returns verify now token u cls p c db signed_in named found email pending
        plan user in
    let shown : user_has_access u levels (accepted_db now u cls c db) c.plan_id ≡ true =
      any-update_found (has_contact_id p.trusted_contact_id) (is_writable bypassing db c.id)
        (gives_access u levels c.plan_id) (set_accepted now u) db.trusted_contacts c found
        (ground arith) (ground arith) in
    rw e (refl, ground arith)
