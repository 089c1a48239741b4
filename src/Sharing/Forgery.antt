-- ===== src/Sharing/Forgery.antt =====
-- What `revoke` of src/trusted-contacts/trusted-contacts.service.ts does for a contact who calls it.
use legacy_made_api.Prelude.{
  ◌≡◌, refl, ◌∙◌, ap, ℕ, true, false, ◌&&◌, Option, none, some, List, [], ◌∷◌, Text, truthy, ◌==◌,
  arith, Bool-cases, inl, inr,
}
use legacy_made_api.Prelude.Results.{ok}
use legacy_made_api.Prelude.Tables.{find, any}
use legacy_made_api.TableLaws.{find_sound, found_is_only, All-map, update_none}
use legacy_made_api.Schema.{
  Plan, TrustedContact, user_owns_plan, user_has_access, every_level, Db, Session, as_user,
}
use legacy_made_api.DbService.{Cls, transaction, rls}
use legacy_made_api.ActivityLog.{activity}
use legacy_made_api.Encryption.Statements.{find_plan, user_exists}
use legacy_made_api.Encryption.Deks.{delete_contact_dek_copy}
use legacy_made_api.PlanAccess.{has_plan_id}
use legacy_made_api.TrustedContacts.{has_id, is_writable, update_contact}
use legacy_made_api.TrustedContacts.Manage.{set_revoked_by_owner, delete_linked_copy, revoke}
use legacy_made_api.Sharing.Changes.{id_of, HasContactKey}
use legacy_made_api.Sharing.Owner.{revocation, revoke_tx_returns}

find_plan_other :
    (u plan_id : Text) (plans : List Plan)
    → any (λ (p : Plan). p.id == plan_id && p.user_id == u) plans ≡ false
    → find (λ (q : Plan). q.user_id == u && q.id == plan_id) plans ≡ none
find_plan_other u plan_id [] h = refl
find_plan_other u plan_id (x ∷ xs) h = ground (arith, find_plan_other u plan_id xs)

delete_linked_copy_other :
    (plan_id : Text) (r : Option Text) (s : Session) (db : Db)
    → find_plan s plan_id db ≡ none
    → delete_linked_copy plan_id r s db ≡ (false, db)
unfolding delete_linked_copy delete_contact_dek_copy
delete_linked_copy_other plan_id none s db h = refl
delete_linked_copy_other plan_id (some r) s db h = ground arith

update_contact_other :
    (id plan_id u : Text) (f : TrustedContact → TrustedContact) (c : TrustedContact) (db : Db)
    → HasContactKey db
    → find (has_id (as_user u) db id plan_id) db.trusted_contacts ≡ some c
    → user_owns_plan (as_user u) db plan_id ≡ false
    → update_contact (as_user u) id f db ≡ db
update_contact_other id plan_id u f c db distinct found other =
    rw
      (update_none (is_writable (as_user u) db id) f db.trusted_contacts (
        All-map (λ x. x.id ≡ c.id → x ≡ c) (λ x. is_writable (as_user u) db id x ≡ false)
          (λ x only. shut x only) db.trusted_contacts
          (found_is_only id_of (has_id (as_user u) db id plan_id) db.trusted_contacts c distinct
            found)))
      refl
  where
    is_it : has_id (as_user u) db id plan_id c ≡ true
    is_it = find_sound (has_id (as_user u) db id plan_id) db.trusted_contacts found

    shut : (x : TrustedContact) → (x.id ≡ c.id → x ≡ c) → is_writable (as_user u) db id x ≡ false
    shut x only = elim (Bool-cases (x.id == id)) [
      | inl here ↦
          let same : x ≡ c = only (ground (arith, is_it)) in
          let plan : c.plan_id ≡ plan_id = ground (arith, is_it) in rw (same, plan, other) refl
      | inr there ↦ ground arith
    ]

-- Where a contact who has access to the plan, but does not own it, calls `revoke` for the contact's own
-- record, the call returns and changes nothing, except that the plan's activity log gets a line by which
-- the contact's access was revoked by the owner; contacts have different ids, and the plan and the user
-- are in the database.
pub contact_revoke_forges_log :
    (now : ℕ) (id plan_id u : Text) (cls : Cls) (c : TrustedContact) (db : Db)
    → HasContactKey db
    → truthy cls.user_id ≡ some u
    → find (has_id (as_user u) db id plan_id) db.trusted_contacts ≡ some c
    → user_owns_plan (as_user u) db plan_id ≡ false
    → user_has_access u every_level db plan_id ≡ true
    → any (has_plan_id plan_id) db.plans ≡ true
    → user_exists u db ≡ true
    → revoke now id plan_id cls db ≡ (
      ok tt,
      record db {
        plan_activity_log = activity cls u (revocation id plan_id false) ∷ db.plan_activity_log;
      },
    )
unfolding revoke
contact_revoke_forges_log now id plan_id u cls c db distinct signed_in found other access plan
      user =
    let same =
      update_contact_other id plan_id u (set_revoked_by_owner now) c db distinct found other in
    let cleaned =
      ap (delete_linked_copy plan_id (truthy c.clerk_user_id) (as_user u)) same
      ∙ delete_linked_copy_other plan_id (truthy c.clerk_user_id) (as_user u) db
          (find_plan_other u plan_id db.plans other) in
    rw
      (
        rls,
        signed_in,
        transaction,
        revoke_tx_returns now cls id plan_id u c (as_user u) db db false signed_in found cleaned
            (ground arith) plan user,
      )
      refl
