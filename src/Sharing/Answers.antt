-- ===== src/Sharing/Answers.antt =====
-- What the methods of the invited person do to the contacts (src/access-invitations and
-- src/shared-plans).
use legacy_made_api.Prelude.{
  ◌≡◌, refl, sym, ◌∙◌, ap, ℕ, Bool, true, not, Option, none, some, Text, truthy, ◌==◌, arith,
  Bool-cases, inl, inr,
}
use legacy_made_api.Prelude.Results.{ok, ◌>>=◌, or_throw, throw_if, >>=-returned}
use legacy_made_api.Prelude.Tables.{find, delete}
use legacy_made_api.TableLaws.{find_sound}
use legacy_made_api.Schema.{TrustedContact, AccessStatus, access_status_eq, Db, Session, bypassing}
use legacy_made_api.Errors.{Error, not_found, bad_request}
use legacy_made_api.DbService.{Cls}
use legacy_made_api.DbService.Keeps.{transaction_keeps}
use legacy_made_api.TrustedContacts.{update_contact, is_writable}
use legacy_made_api.Invitations.{
  log_status, set_accepted, without_notes, perform_accept, set_declined, decline_tx,
  perform_decline, delete_shared_copy,
}
use legacy_made_api.Invitations.Tokens.{
  InvitationTokenPayload, has_contact_id, find_and_validate_pending_contact, accept_tx,
  is_contact_of, set_revoked_by_contact, is_received_copy, revoke_own_found, revoke_own_tx,
}
use legacy_made_api.SharedPlans.{
  get_user_email, is_pending_for, find_pending_invitation, accept_shared_tx,
}
use legacy_made_api.Sharing.Writes.{
  SameAccess, returning, logged-SameAccess, delete_shared_copy-SameAccess,
}
use legacy_made_api.Sharing.Changes.{
  HasContactKey, Edge, Step, Effect, no-Effect, Effect-SameAccess, SameAccess-Effect, changed_found,
}

pub pending_of :
    (a : AccessStatus) → access_status_eq a AccessStatus.pending ≡ true → a ≡ AccessStatus.pending
pending_of AccessStatus.pending h = refl
pending_of AccessStatus.accepted h = cc
pending_of AccessStatus.declined h = cc
pending_of AccessStatus.revoked_by_owner h = cc
pending_of AccessStatus.revoked_by_contact h = cc

pub accepted_of :
    (a : AccessStatus) → access_status_eq a AccessStatus.accepted ≡ true → a ≡ AccessStatus.accepted
accepted_of AccessStatus.pending h = cc
accepted_of AccessStatus.accepted h = refl
accepted_of AccessStatus.declined h = cc
accepted_of AccessStatus.revoked_by_owner h = cc
accepted_of AccessStatus.revoked_by_contact h = cc

-- A SELECT finds the contact, and its status is as given.
abbrev pub IsFound : AccessStatus → Db → TrustedContact → Type 0
IsFound status db c =
    (q : TrustedContact → Bool) × (find q db.trusted_contacts ≡ some c) × (c.access_status ≡ status)

or_throw_ok : {A : Type 0} (o : Option A) (e : Error) (a : A) → or_throw o e ≡ ok a → o ≡ some a
or_throw_ok none e a h = cc
or_throw_ok (some x) e a h = cc

pub find_and_validate-IsFound :
    (p : InvitationTokenPayload) (db : Db) (c : TrustedContact)
    → find_and_validate_pending_contact p db ≡ ok c
    → IsFound AccessStatus.pending db c
unfolding find_and_validate_pending_contact
find_and_validate-IsFound p db c h =
    let q = has_contact_id p.trusted_contact_id in
    let (x, e, k) = >>=-returned (or_throw (find q db.trusted_contacts) not_found) _ h in
    elim (Bool-cases (access_status_eq x.access_status AccessStatus.pending)) [
      | inl pending ↦ elim (Bool-cases (x.email == p.email)) [
        | inl same ↦
            let z : x ≡ c = ground arith in
            (
              q,
              or_throw_ok (find q db.trusted_contacts) not_found x e ∙ ap some z,
              ap (λ (y : TrustedContact). y.access_status) (sym z)
                  ∙ pending_of x.access_status pending,
            )
        | inr other ↦ absurd (ground arith)
      ]
      | inr other ↦ absurd (ground arith)
    ]

pub find_pending-IsFound :
    (plan_id u : Text) (db : Db) (c : TrustedContact)
    → find_pending_invitation plan_id u db ≡ ok c
    → IsFound AccessStatus.pending db c
unfolding find_pending_invitation
find_pending-IsFound plan_id u db c h =
    let (email, e, k) = >>=-returned (or_throw (truthy (get_user_email u db)) not_found) _ h in
    let q = is_pending_for plan_id email in
    let found = or_throw_ok (find q db.trusted_contacts) not_found c k in
    (q, found, pending_of c.access_status (ground (arith, find_sound q db.trusted_contacts found)))

-- What an UPDATE of the found contact and a line of the log do.
answered :
    (inviting : Bool) (now : ℕ) (f : TrustedContact → TrustedContact) (status : AccessStatus)
    (c : TrustedContact) (db db' : Db)
    → HasContactKey db
    → IsFound status db c
    → ((x : TrustedContact) → (f x).id ≡ x.id)
    → Step inviting c (f c)
    → SameAccess (update_contact bypassing c.id f db) db'
    → Effect inviting db db'
answered inviting now f status c db db' distinct (q, found, _) ids step same =
    Effect-SameAccess inviting db (update_contact bypassing c.id f db) db'
      (record {
        change =
            changed_found inviting db.trusted_contacts q (is_writable bypassing db c.id) f c
              distinct found (λ x h. ground arith) ids step;
        plans_kept = refl;
      })
      same

perform_accept-Effect :
    (inviting : Bool) (now : ℕ) (cls : Cls) (c : TrustedContact) (u : Text) (db db' : Db)
    (x : TrustedContact)
    → HasContactKey db
    → IsFound AccessStatus.pending db c
    → perform_accept now cls c u db ≡ ok (x, db')
    → Effect inviting db db'
unfolding perform_accept
perform_accept-Effect inviting now cls c u db db' x distinct found h =
    let written : Db = update_contact bypassing c.id (set_accepted now u) db in
    let k : (log_status cls c AccessStatus.accepted written
          >>= returning (without_notes (set_accepted now u c)))
        ≡ ok (x, db') =
      ground arith in
    answered inviting now (set_accepted now u) AccessStatus.pending c db db' distinct found
      (λ _. refl) (record { same_id = refl; same_plan = refl; edge = Edge.accepts found.2 refl })
      (logged-SameAccess cls _ bypassing written db' (without_notes (set_accepted now u c)) x k)

pub accept_tx-Effect :
    (inviting : Bool) (now : ℕ) (cls : Cls) (p : InvitationTokenPayload) (u : Text) (db db' : Db)
    (x : TrustedContact)
    → HasContactKey db
    → accept_tx now cls p u db ≡ ok (x, db')
    → Effect inviting db db'
unfolding accept_tx
accept_tx-Effect inviting now cls p u db db' x distinct h =
    let (c, e, k) = >>=-returned (find_and_validate_pending_contact p db) _ h in
    perform_accept-Effect inviting now cls c u db db' x distinct
      (find_and_validate-IsFound p db c e) k

pub accept_shared_tx-Effect :
    (inviting : Bool) (now : ℕ) (cls : Cls) (plan_id u : Text) (s : Session) (db db' : Db)
    (x : TrustedContact)
    → HasContactKey db
    → accept_shared_tx now cls plan_id u s db ≡ ok (x, db')
    → Effect inviting db db'
unfolding accept_shared_tx
accept_shared_tx-Effect inviting now cls plan_id u s db db' x distinct h =
    let (c, e, k) = >>=-returned (find_pending_invitation plan_id u db) _ h in
    perform_accept-Effect inviting now cls c u db db' x distinct
      (find_pending-IsFound plan_id u db c e) k

decline_tx-Effect :
    (inviting : Bool) (now : ℕ) (cls : Cls) (c : TrustedContact) (db db' : Db) (x : Unit {0})
    → HasContactKey db
    → IsFound AccessStatus.pending db c
    → decline_tx now cls c db ≡ ok (x, db')
    → Effect inviting db db'
unfolding decline_tx
decline_tx-Effect inviting now cls c db db' x distinct found h =
    answered inviting now (set_declined now) AccessStatus.pending c db db' distinct found
      (λ _. refl) (record { same_id = refl; same_plan = refl; edge = Edge.declines found.2 refl })
      (logged-SameAccess cls _ bypassing (update_contact bypassing c.id (set_declined now) db) db'
        tt x h)

pub perform_decline-Effect :
    (inviting : Bool) (now : ℕ) (cls : Cls) (c : TrustedContact) (db : Db)
    → HasContactKey db
    → IsFound AccessStatus.pending db c
    → Effect inviting db (perform_decline now cls c db).1
unfolding perform_decline
perform_decline-Effect inviting now cls c db distinct (q, found, pending) =
    let cleaned : Db = delete_shared_copy c db in
    let same : SameAccess db cleaned = delete_shared_copy-SameAccess c db in
    transaction_keeps (decline_tx now cls c) cleaned (Effect inviting db)
      (Effect-SameAccess inviting db db cleaned (no-Effect inviting db) same)
      (λ x db' h. SameAccess-Effect inviting db cleaned db' same (
        decline_tx-Effect inviting now cls c cleaned db' x (rw (same.0) distinct)
          (q, rw (same.0) found, pending) h))

pub revoke_own_tx-Effect :
    (inviting : Bool) (now : ℕ) (cls : Cls) (plan_id u : Text) (s : Session) (db db' : Db)
    (x : Unit {0})
    → HasContactKey db
    → revoke_own_tx now cls plan_id u s db ≡ ok (x, db')
    → Effect inviting db db'
unfolding revoke_own_tx revoke_own_found
revoke_own_tx-Effect inviting now cls plan_id u s db db' x distinct h =
    let q = is_contact_of plan_id u in
    let (c, e, k) = >>=-returned (or_throw (find q db.trusted_contacts) not_found) _ h in
    let (_, e₁, k₁) =
      >>=-returned
        (throw_if (not (access_status_eq c.access_status AccessStatus.accepted)) bad_request) _ k in
    let accepted : c.access_status ≡ AccessStatus.accepted =
      accepted_of c.access_status (ground arith) in
    let written : Db = update_contact bypassing c.id (set_revoked_by_contact now) db in
    let cleaned : Db = record written {
      encrypted_deks = delete (is_received_copy plan_id u) written.encrypted_deks;
    } in
    answered inviting now (set_revoked_by_contact now) AccessStatus.accepted c db db' distinct
      (q, or_throw_ok (find q db.trusted_contacts) not_found c e, accepted) (λ _. refl)
      (record { same_id = refl; same_plan = refl; edge = Edge.leaves accepted refl })
      (logged-SameAccess cls _ bypassing cleaned db' tt x k₁)
