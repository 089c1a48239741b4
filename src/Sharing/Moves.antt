-- ===== src/Sharing/Moves.antt =====
-- The diagram of trusted_contacts.access_status that the calls follow.
use legacy_made_api.Prelude.{
  ◌≡◌, refl, Bool, true, false, Option, none, some, List, [], ◌∷◌, Text, arith, Bool-cases, inl,
  inr,
}
use legacy_made_api.Prelude.Tables.{All, find, any, update, delete, Distinct}
use legacy_made_api.TableLaws.{any-delete}
use legacy_made_api.Schema.{TrustedContact, AccessStatus, Db}
use legacy_made_api.TrustedContacts.{is_live}
use legacy_made_api.Invitations.Tokens.{has_contact_id}
use legacy_made_api.Sharing.Changes.{id_of, HasContactKey, Edge, Step, Change}
use legacy_made_api.Sharing.Calls.{Call, run, is_inviting, run-Effect}

abbrev status : Option TrustedContact → Option AccessStatus
status none = none
status (some c) = some c.access_status

-- The status of the contact with an id, `none` where there is no such contact.
unfoldable pub status_of : Text → List TrustedContact → Option AccessStatus
status_of id rows = status (find (has_contact_id id) rows)

-- The diagram; the edges of the first two kinds are an owner's invitation.
pub data Move : Bool → Option AccessStatus → Option AccessStatus → Type 0 where
  stays : {inviting : Bool} {o : Option AccessStatus} → Move inviting o o
  invites : Move true none (some AccessStatus.pending)
  reinvites :
      {a : AccessStatus} → is_live a ≡ false → Move true (some a) (some AccessStatus.pending)
  accepts :
      {inviting : Bool} → Move inviting (some AccessStatus.pending) (some AccessStatus.accepted)
  declines :
      {inviting : Bool} → Move inviting (some AccessStatus.pending) (some AccessStatus.declined)
  revokes :
      {inviting : Bool} {a : AccessStatus}
      → Move inviting (some a) (some AccessStatus.revoked_by_owner)
  leaves :
      {inviting : Bool}
      → Move inviting (some AccessStatus.accepted) (some AccessStatus.revoked_by_contact)
  deletes : {inviting : Bool} {a : AccessStatus} → Move inviting (some a) none

Edge-Move :
    (inviting : Bool) (x y : TrustedContact)
    → Edge inviting x y
    → Move inviting (some x.access_status) (some y.access_status)
Edge-Move inviting x y (Edge.keeps e _) = rw e Move.stays
Edge-Move inviting x y (Edge.reinvites dead e) = rw e (Move.reinvites dead)
Edge-Move inviting x y (Edge.accepts e f) = rw (e, f) Move.accepts
Edge-Move inviting x y (Edge.declines e f) = rw (e, f) Move.declines
Edge-Move inviting x y (Edge.revokes f) = rw f Move.revokes
Edge-Move inviting x y (Edge.leaves e f) = rw (e, f) Move.leaves

status_of_here :
    (id : Text) (x : TrustedContact) (xs : List TrustedContact)
    → has_contact_id id x ≡ true
    → status_of id (x ∷ xs) ≡ some x.access_status
unfolding status_of
status_of_here id x xs h = ground arith

status_of_there :
    (id : Text) (x : TrustedContact) (xs : List TrustedContact)
    → has_contact_id id x ≡ false
    → status_of id (x ∷ xs) ≡ status_of id xs
unfolding status_of
status_of_there id x xs h = ground arith

status_of_absent :
    (id : Text) (rows : List TrustedContact)
    → any (has_contact_id id) rows ≡ false
    → status_of id rows ≡ none
unfolding status_of
status_of_absent id [] h = refl
status_of_absent id (x ∷ xs) h = ground (arith, status_of_absent id xs)

module _ (inviting : Bool) (id : Text) (p : TrustedContact → Bool) where
  status_of-update :
      (f : TrustedContact → TrustedContact)
      → ((x : TrustedContact) → (f x).id ≡ x.id)
      → (rows : List TrustedContact) → All (λ x. p x ≡ true → Step inviting x (f x)) rows
      → Move inviting (status_of id rows) (status_of id (update p f rows))
  status_of-update f ids [] steps = Move.stays
  status_of-update f ids (x ∷ xs) steps =
      let later = status_of-update f ids xs steps.1 in
      elim (Bool-cases (has_contact_id id x)) [
        | inl here ↦ elim (Bool-cases (p x)) [
          | inl hit ↦
              rw
                (
                  hit,
                  status_of_here id x xs here,
                  status_of_here id (f x) (update p f xs) (ground (arith, ids x)),
                )
                (Edge-Move inviting x (f x) (steps.0 hit).edge)
          | inr miss ↦
              rw (miss, status_of_here id x xs here, status_of_here id x (update p f xs) here)
                Move.stays
        ]
        | inr there ↦ elim (Bool-cases (p x)) [
          | inl hit ↦
              rw
                (
                  hit,
                  status_of_there id x xs there,
                  status_of_there id (f x) (update p f xs) (ground (arith, ids x)),
                )
                later
          | inr miss ↦
              rw (miss, status_of_there id x xs there, status_of_there id x (update p f xs) there)
                later
        ]
      ]

  status_of-delete :
      (rows : List TrustedContact)
      → Distinct id_of rows
      → Move inviting (status_of id rows) (status_of id (delete p rows))
  status_of-delete [] distinct = Move.stays
  status_of-delete (x ∷ xs) distinct =
      let later = status_of-delete xs distinct.1 in
      elim (Bool-cases (has_contact_id id x)) [
        | inl here ↦ elim (Bool-cases (p x)) [
          | inl hit ↦
              let same : id ≡ x.id = ground arith in
              rw
                (
                  hit,
                  status_of_here id x xs here,
                  status_of_absent id (delete p xs)
                      (any-delete (has_contact_id id) p xs (rw same distinct.0)),
                )
                Move.deletes
          | inr miss ↦
              rw (miss, status_of_here id x xs here, status_of_here id x (delete p xs) here)
                Move.stays
        ]
        | inr there ↦ elim (Bool-cases (p x)) [
          | inl hit ↦ rw (hit, status_of_there id x xs there) later
          | inr miss ↦
              rw (miss, status_of_there id x xs there, status_of_there id x (delete p xs) there)
                later
        ]
      ]

Change-Move :
    (inviting : Bool) (id : Text) (rows rows' : List TrustedContact)
    → Distinct id_of rows
    → Change inviting rows rows'
    → Move inviting (status_of id rows) (status_of id rows')
Change-Move inviting id rows rows' distinct Change.unchanged = Move.stays
Change-Move inviting id rows rows' distinct (Change.invited c pending new) =
    elim (Bool-cases (has_contact_id id c)) [
      | inl here ↦
          let same : id ≡ c.id = ground arith in
          rw (status_of_here id c rows here, status_of_absent id rows (rw same new), pending)
            Move.invites
      | inr there ↦ rw (status_of_there id c rows there) Move.stays
    ]
Change-Move inviting id rows rows' distinct (Change.changed p f ids steps) =
    status_of-update inviting id p f ids rows steps
Change-Move inviting id rows rows' distinct (Change.removed p) =
    status_of-delete inviting id p rows distinct

-- Where contacts have different ids, every call moves the status of every contact along an edge of the
-- diagram or leaves it as it is; only the owner's creation makes a contact pending.
pub run_moves :
    (call : Call) (db : Db) (id : Text)
    → HasContactKey db
    → Move
        (is_inviting call)
        (status_of id db.trusted_contacts)
        (status_of id (run call db).trusted_contacts)
run_moves call db id distinct =
    Change-Move (is_inviting call) id db.trusted_contacts (run call db).trusted_contacts distinct
      (run-Effect call db distinct).change
