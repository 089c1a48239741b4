-- ===== src/Sharing/Effects.antt =====
-- The calls that change a plan's sharing, of src/trusted-contacts, src/access-invitations and
-- src/shared-plans, and what each does to the contacts.
use legacy_made_api.Prelude.{
  ◌≡◌, refl, sym, ◌∙◌, ap, ℕ, Bool, true, false, ◌&&◌, not, Option, none, some, List, [], ◌∷◌, Text,
  truthy, ◌==◌, arith,
}
use mathlib.Core.Path.{subst}
use legacy_made_api.Prelude.Results.{ok, ◌>>◌, or_throw, throw_if, >>=-returned}
use legacy_made_api.Prelude.Tables.{All, find, any, update, delete}
use legacy_made_api.TableLaws.{any_or}
use legacy_made_api.Schema.{TrustedContact, AccessStatus, access_status_eq, Db, Session}
use legacy_made_api.Errors.{not_found, bad_request, internal}
use legacy_made_api.DbService.{Cls}
use legacy_made_api.Encryption.Statements.{find_plan}
use legacy_made_api.Encryption.Deks.{store_contact_dek_copies}
use legacy_made_api.TrustedContacts.{
  ContactFields, CreateTrustedContactDto, new_contact, reinvite, has_email, has_id, is_writable,
  update_contact, is_live, insert_contact, write_contact, find_owner, creation_activity,
  create_with, create_tx,
}
use legacy_made_api.TrustedContacts.Manage.{
  UpdateTrustedContactDto, is_empty, set_fields, is_updated, update_tx, set_revoked_by_owner,
  delete_linked_copy, revoke_found, revoke_tx, delete_found, delete_tx, resend_tx,
}
use legacy_made_api.Sharing.Writes.{
  SameAccess-trans, ok_state, returning, logged-SameAccess, store_contact_dek_copies-SameAccess,
  delete_linked_copy-SameAccess,
}
use legacy_made_api.Sharing.Changes.{
  HasContactKey, Edge, Step, Change, Effect, no-Effect, Effect-SameAccess, SameAccess-Effect,
  changed_found,
}

insert_contact-Effect :
    (s : Session) (c : TrustedContact) (db db' : Db)
    → c.access_status ≡ AccessStatus.pending
    → insert_contact s c db ≡ ok db'
    → Effect true db db'
unfolding insert_contact
insert_contact-Effect s c db db' pending h =
    let e : db' ≡ record db { trusted_contacts = c ∷ db.trusted_contacts } = ground arith in
    subst (Effect true db) (sym e)
      (record { change = Change.invited c pending new.0; plans_kept = refl })
  where
    new :
        (any (λ (x : TrustedContact). x.id == c.id) db.trusted_contacts ≡ false)
        × (any
              (λ (x : TrustedContact). x.plan_id == c.plan_id && x.email == c.email)
              db.trusted_contacts
            ≡ false)
    new =
        any_or (λ (x : TrustedContact). x.id == c.id)
          (λ x. x.plan_id == c.plan_id && x.email == c.email) db.trusted_contacts (ground arith)

write_contact-Effect :
    (new_id plan_id : Text) (f : ContactFields) (existing : Option TrustedContact) (s : Session)
    (db db' : Db) (c : Option TrustedContact) (q : TrustedContact → Bool)
    → HasContactKey db
    → find q db.trusted_contacts ≡ existing
    → write_contact new_id f plan_id existing s db ≡ ok (c, db')
    → Effect true db db'
unfolding write_contact
write_contact-Effect new_id plan_id f none s db db' c q distinct found h =
    let (d, e, k) = >>=-returned (insert_contact s (new_contact new_id plan_id f) db) _ h in
    let same : d ≡ db' = cc in
    insert_contact-Effect s (new_contact new_id plan_id f) db db' refl (e ∙ ap ok same)
write_contact-Effect new_id plan_id f (some x) s db db' c q distinct found h =
    let (_, e, k) = >>=-returned (throw_if (is_live x.access_status) bad_request) _ h in
    let same : update_contact s x.id (reinvite f) db ≡ db' = cc in
    subst (Effect true db) same (record {
      change =
          changed_found true db.trusted_contacts q (is_writable s db x.id) (reinvite f) x distinct
            found (λ y hy. ground arith) (λ y. refl)
            (record {
              same_id = refl;
              same_plan = refl;
              edge = Edge.reinvites (ground arith) refl;
            });
      plans_kept = refl;
    })

pub create_tx-Effect :
    (cls : Cls) (new_id plan_id : Text) (dto : CreateTrustedContactDto) (s : Session) (db db' : Db)
    (c : TrustedContact)
    → HasContactKey db
    → create_tx cls new_id dto plan_id s db ≡ ok (c, db')
    → Effect true db db'
unfolding create_tx create_with
create_tx-Effect cls new_id plan_id dto s db db' c distinct h =
    let existing = find (has_email s db plan_id dto.fields.email) db.trusted_contacts in
    let ((w, db₁), e₁, h₁) =
      >>=-returned (write_contact new_id dto.fields plan_id existing s db) _ h in
    let (plan, _, h₂) = >>=-returned (or_throw (find_plan s plan_id db₁) not_found) _ h₁ in
    let (owner, _, h₃) = >>=-returned (or_throw (find_owner s plan db₁) not_found) _ h₂ in
    let (db₂, e₂, h₄) =
      >>=-returned (store_contact_dek_copies plan_id plan.user_id dto.deks s db₁) _ h₃ in
    let (x, _, h₅) = >>=-returned (or_throw w internal) _ h₄ in
    Effect-SameAccess true db db₁ db'
      (write_contact-Effect new_id plan_id dto.fields existing s db db₁ w
        (has_email s db plan_id dto.fields.email) distinct refl e₁)
      (SameAccess-trans db₁ db₂ db'
        (store_contact_dek_copies-SameAccess plan_id plan.user_id dto.deks s db₁ db₂ e₂)
        (logged-SameAccess cls (creation_activity plan_id existing x) s db₂ db' x c h₅))

pub every_row :
    (inviting : Bool) (p : TrustedContact → Bool) (f : TrustedContact → TrustedContact) (db : Db)
    → ((x : TrustedContact) → Step inviting x (f x))
    → Effect inviting db (record db { trusted_contacts = update p f db.trusted_contacts })
every_row inviting p f db step = record {
  change = Change.changed p f (λ x. (step x).same_id) (all db.trusted_contacts);
  plans_kept = refl;
}
  where
    all : (rows : List TrustedContact) → All (λ x. p x ≡ true → Step inviting x (f x)) rows
    all [] = tt
    all (x ∷ xs) = (λ _. step x, all xs)

pub update_tx-Effect :
    (inviting : Bool) (cls : Cls) (id plan_id : Text) (dto : UpdateTrustedContactDto) (s : Session)
    (db db' : Db) (c : TrustedContact)
    → update_tx cls id plan_id dto s db ≡ ok (c, db')
    → Effect inviting db db'
unfolding update_tx
update_tx-Effect inviting cls id plan_id dto s db db' c h =
    let written : Db = record db {
      trusted_contacts = update (is_updated s db id plan_id) (set_fields dto) db.trusted_contacts;
    } in
    let (x, _, h₁) =
      >>=-returned
        (throw_if (is_empty dto) internal
          >> or_throw (find (is_updated s db id plan_id) db.trusted_contacts) not_found)
        _ h in
    Effect-SameAccess inviting db written db'
      (every_row inviting (is_updated s db id plan_id) (set_fields dto) db
        (λ y. record { same_id = refl; same_plan = refl; edge = Edge.keeps refl refl }))
      (logged-SameAccess cls _ s written db' (set_fields dto x) c h₁)

pub revoke_tx-Effect :
    (inviting : Bool) (now : ℕ) (cls : Cls) (id plan_id : Text) (s : Session) (db db' : Db)
    (u : Unit {0})
    → revoke_tx now cls id plan_id s db ≡ ok (u, db')
    → Effect inviting db db'
unfolding revoke_tx revoke_found
revoke_tx-Effect inviting now cls id plan_id s db db' u h =
    let (c, _, h₁) =
      >>=-returned (or_throw (find (has_id s db id plan_id) db.trusted_contacts) not_found) _ h in
    let revoked : Db = update_contact s id (set_revoked_by_owner now) db in
    let cleaned : Db = (delete_linked_copy plan_id (truthy c.clerk_user_id) s revoked).1 in
    Effect-SameAccess inviting db revoked db'
      (every_row inviting (is_writable s db id) (set_revoked_by_owner now) db
        (λ y. record { same_id = refl; same_plan = refl; edge = Edge.revokes refl }))
      (SameAccess-trans revoked cleaned db'
        (delete_linked_copy-SameAccess plan_id (truthy c.clerk_user_id) s revoked)
        (logged-SameAccess cls _ s cleaned db' tt u h₁))

pub delete_tx-Effect :
    (inviting : Bool) (cls : Cls) (id plan_id : Text) (s : Session) (db db' : Db) (u : Unit {0})
    → delete_tx cls id plan_id s db ≡ ok (u, db')
    → Effect inviting db db'
unfolding delete_tx delete_found
delete_tx-Effect inviting cls id plan_id s db db' u h =
    let (c, _, h₁) =
      >>=-returned (or_throw (find (has_id s db id plan_id) db.trusted_contacts) not_found) _ h in
    let cleaned : Db = (delete_linked_copy plan_id (truthy c.clerk_user_id) s db).1 in
    let removed : Db = record cleaned {
      trusted_contacts = delete (is_writable s cleaned id) cleaned.trusted_contacts;
    } in
    Effect-SameAccess inviting db removed db'
      (SameAccess-Effect inviting db cleaned removed
        (delete_linked_copy-SameAccess plan_id (truthy c.clerk_user_id) s db)
        (record { change = Change.removed (is_writable s cleaned id); plans_kept = refl }))
      (logged-SameAccess cls _ s removed db' tt u h₁)

pub resend_tx-Effect :
    (inviting sent : Bool) (id plan_id : Text) (s : Session) (db db' : Db) (u : Unit {0})
    → resend_tx sent id plan_id s db ≡ ok (u, db')
    → Effect inviting db db'
unfolding resend_tx
resend_tx-Effect inviting sent id plan_id s db db' u h =
    let (c, _, h₁) =
      >>=-returned (or_throw (find (has_id s db id plan_id) db.trusted_contacts) not_found) _ h in
    let (plan, _, h₂) =
      >>=-returned
        (throw_if (not (access_status_eq c.access_status AccessStatus.pending)) bad_request
          >> or_throw (find_plan s plan_id db) not_found)
        _ h₁ in
    let (owner, _, h₃) = >>=-returned (or_throw (find_owner s plan db) not_found) _ h₂ in
    let (_, _, h₄) = >>=-returned (throw_if (not sent) internal) _ h₃ in
    subst (Effect inviting db) (ok_state (returning tt db) tt u db db' refl h₄)
      (no-Effect inviting db)
