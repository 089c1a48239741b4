-- ===== src/Sharing/Owner.antt =====
-- What the owner's `revoke` of src/trusted-contacts/trusted-contacts.service.ts returns and leaves.
use legacy_made_api.Prelude.{
  ◌≡◌, refl, ℕ, Bool, true, false, ◌&&◌, some, List, [], ◌∷◌, Text, truthy, ◌==◌, arith, Bool-cases,
  inl, inr,
}
use legacy_made_api.Prelude.Results.{ok}
use legacy_made_api.Prelude.Tables.{Distinct, find, any, update, delete}
use legacy_made_api.TableLaws.{find_sound, find-any, any-delete-none, find-update}
use legacy_made_api.Schema.{
  Plan, TrustedContact, EncryptedDek, AccessStatus, Action, ActivityDetails, user_owns_plan,
  owner_or_contact, every_level, Db, Session, as_user,
}
use legacy_made_api.DbService.{Cls, transaction, rls}
use legacy_made_api.ActivityLog.{LogActivityParams, activity}
use legacy_made_api.Encryption.Statements.{user_exists}
use legacy_made_api.Encryption.Deks.{is_contact_copy, delete_contact_dek_copy}
use legacy_made_api.PlanAccess.{has_plan_id}
use legacy_made_api.TrustedContacts.{has_id, is_writable, update_contact, contact_activity}
use legacy_made_api.TrustedContacts.Manage.{
  set_revoked_by_owner, delete_linked_copy, revoke_found, revoke_tx, revoke,
}
use legacy_made_api.Invitations.Tokens.{has_contact_id}
use legacy_made_api.Sharing.Writes.{log_returns}
use legacy_made_api.Sharing.Changes.{id_of, HasContactKey}
use legacy_made_api.Sharing.Moves.{status_of}

-- The owner's plan, as the owner's session finds it.
pub find_plan_owned :
    (u plan_id : Text) (plans : List Plan)
    → any (λ (p : Plan). p.id == plan_id && p.user_id == u) plans ≡ true
    → (p : Plan) × (find (λ (q : Plan). q.user_id == u && q.id == plan_id) plans ≡ some p)
      × (p.user_id ≡ u)
      × (p.id ≡ plan_id)
find_plan_owned u plan_id [] h = cc
find_plan_owned u plan_id (x ∷ xs) h = elim (Bool-cases (x.user_id == u && x.id == plan_id)) [
  | inl here ↦ (x, ground arith, ground arith, ground arith)
  | inr there ↦
      let (p, e, f, g) = find_plan_owned u plan_id xs (ground arith) in (p, ground arith, f, g)
]

abbrev pub revocation : Text → Text → Bool → LogActivityParams
revocation id plan_id deleted =
    contact_activity plan_id id Action.updated
      (ActivityDetails.status_change_dek AccessStatus.revoked_by_owner deleted)

pub revoke_tx_returns :
    (now : ℕ) (cls : Cls) (id plan_id u : Text) (c : TrustedContact) (s : Session) (db db₁ : Db)
    (deleted : Bool)
    → truthy cls.user_id ≡ some u
    → find (has_id s db id plan_id) db.trusted_contacts ≡ some c
    → delete_linked_copy plan_id
        (truthy c.clerk_user_id)
        s
        (update_contact s id (set_revoked_by_owner now) db)
      ≡ (deleted, db₁)
    → owner_or_contact s every_level db₁ plan_id ≡ true
    → any (has_plan_id plan_id) db₁.plans ≡ true
    → user_exists u db₁ ≡ true
    → revoke_tx now cls id plan_id s db
      ≡ ok (
        tt,
        record db₁ {
          plan_activity_log =
              activity cls u (revocation id plan_id deleted) ∷ db₁.plan_activity_log;
        },
      )
unfolding revoke_tx revoke_found
revoke_tx_returns now cls id plan_id u c s db db₁ deleted signed_in found cleaned allowed plan
      user =
    rw
      (
        found,
        cleaned,
        log_returns cls (revocation id plan_id deleted) s u db₁ signed_in allowed plan user,
      )
      refl

linked_copies_deleted :
    (plan_id u v : Text) (db : Db)
    → user_owns_plan (as_user u) db plan_id ≡ true
    → (deleted : Bool) × (deks : List EncryptedDek) × (delete_linked_copy plan_id
          (some v)
          (as_user u)
          db
        ≡ (deleted, record db { encrypted_deks = deks }))
      × (any (is_contact_copy (as_user u) u v plan_id) deks ≡ false)
unfolding delete_linked_copy delete_contact_dek_copy
linked_copies_deleted plan_id u v db owned =
    let (p, e, f, _) = find_plan_owned u plan_id db.plans owned in
    let copy = is_contact_copy (as_user u) u v plan_id in
    (
      any copy db.encrypted_deks,
      delete copy db.encrypted_deks,
      rw (delete_contact_dek_copy, e, f) refl,
      any-delete-none copy copy (λ x h. h) db.encrypted_deks,
    )

pub owned_exists :
    (plan_id u : Text) (plans : List Plan)
    → any (λ (p : Plan). p.id == plan_id && p.user_id == u) plans ≡ true
    → any (has_plan_id plan_id) plans ≡ true
owned_exists plan_id u [] h = cc
owned_exists plan_id u (x ∷ xs) h = ground (arith, owned_exists plan_id u xs)

find_by_id :
    (id : Text) (q : TrustedContact → Bool) (rows : List TrustedContact) (c : TrustedContact)
    → Distinct id_of rows
    → find q rows ≡ some c
    → c.id ≡ id
    → find (has_contact_id id) rows ≡ some c
find_by_id id q [] c distinct found h = cc
find_by_id id q (x ∷ xs) c distinct found h = elim (Bool-cases (q x)) [
  | inl here ↦
      let same : x ≡ c = ground arith in
      let it : has_contact_id id x ≡ true = rw same (ground arith) in rw (it, same) refl
  | inr there ↦
      let later : find q xs ≡ some c = ground arith in
      elim (Bool-cases (x.id == id)) [
        | inl same ↦ absurd (ground (arith, find-any q (λ y. y.id == x.id) xs c later))
        | inr other ↦ ground (arith, find_by_id id q xs c distinct.1 later h)
      ]
]

status_of_revoked :
    (now : ℕ) (id plan_id u : Text) (c : TrustedContact) (db : Db)
    → HasContactKey db
    → find (has_id (as_user u) db id plan_id) db.trusted_contacts ≡ some c
    → user_owns_plan (as_user u) db plan_id ≡ true
    → status_of id
        (update (is_writable (as_user u) db id) (set_revoked_by_owner now) db.trusted_contacts)
      ≡ some AccessStatus.revoked_by_owner
unfolding status_of
status_of_revoked now id plan_id u c db distinct found owned =
    let is_it = find_sound (has_id (as_user u) db id plan_id) db.trusted_contacts found in
    let plan : c.plan_id ≡ plan_id = ground (arith, is_it) in
    let same : c.id ≡ id = ground (arith, is_it) in
    rw
      (
        find-update (has_contact_id id) (is_writable (as_user u) db id) (set_revoked_by_owner now)
            (λ _. refl) db.trusted_contacts,
        find_by_id id (has_id (as_user u) db id plan_id) db.trusted_contacts c distinct found same,
        plan,
        owned,
        same,
      )
      (ground arith)

-- Where the owner of the plan revokes a contact of the plan that is linked to a user, the call returns,
-- the contact's status is revoked_by_owner, and no copy of the plan's DEK that the owner made for this
-- user as a contact is left; contacts have different ids and the owner is in the database.
pub revoke_returns :
    (now : ℕ) (id plan_id u v : Text) (cls : Cls) (c : TrustedContact) (db : Db)
    → HasContactKey db
    → truthy cls.user_id ≡ some u
    → find (has_id (as_user u) db id plan_id) db.trusted_contacts ≡ some c
    → truthy c.clerk_user_id ≡ some v
    → user_owns_plan (as_user u) db plan_id ≡ true
    → user_exists u db ≡ true
    → let (r, db') = revoke now id plan_id cls db in
      (r ≡ ok tt)
      × (status_of id db'.trusted_contacts ≡ some AccessStatus.revoked_by_owner)
      × (any (is_contact_copy (as_user u) u v plan_id) db'.encrypted_deks ≡ false)
unfolding revoke
revoke_returns now id plan_id u v cls c db distinct signed_in found linked owned user =
    let (deleted, deks, e, gone) =
      linked_copies_deleted plan_id u v
        (update_contact (as_user u) id (set_revoked_by_owner now) db) owned in
    let cleaned : Db = record (update_contact (as_user u) id (set_revoked_by_owner now) db) {
      encrypted_deks = deks;
    } in
    rw
      (
        rls,
        signed_in,
        transaction,
        revoke_tx_returns now cls id plan_id u c (as_user u) db cleaned deleted signed_in found
            (rw (linked, e) refl) (rw owned refl) (owned_exists plan_id u db.plans owned) user,
      )
      (refl, status_of_revoked now id plan_id u c db distinct found owned, gone)
