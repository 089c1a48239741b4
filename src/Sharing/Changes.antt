-- ===== src/Sharing/Changes.antt =====
-- What the calls of sharing may do to a plan's contacts: the diagram of access_status, with who may
-- follow an edge, and the invariant that contacts have different ids.
use legacy_made_api.Prelude.{◌≡◌, refl, sym, ◌∙◌, Bool, true, false, some, List, ◌∷◌, Text, ◌==◌}
use legacy_made_api.Prelude.Tables.{All, any, find, update, delete, Distinct}
use legacy_made_api.TableLaws.{Distinct-update, Distinct-delete, found_is_only, All-map}
use legacy_made_api.Schema.{TrustedContact, AccessStatus, Db}
use legacy_made_api.TrustedContacts.{is_live}
use legacy_made_api.Sharing.Writes.{SameAccess}
use mathlib.Core.Path.{subst}

abbrev pub id_of : TrustedContact → Text
id_of c = c.id

-- The primary key of trusted_contacts.
abbrev pub HasContactKey : Db → Type 0
HasContactKey db = Distinct id_of db.trusted_contacts

-- An edge of the diagram for a row, before and after; only an invitation makes a row pending again.
pub data Edge : Bool → TrustedContact → TrustedContact → Type 0 where
  keeps :
      {inviting : Bool} {x y : TrustedContact}
      → y.access_status ≡ x.access_status
      → y.clerk_user_id ≡ x.clerk_user_id
      → Edge inviting x y
  reinvites :
      {x y : TrustedContact}
      → is_live x.access_status ≡ false
      → y.access_status ≡ AccessStatus.pending
      → Edge true x y
  accepts :
      {inviting : Bool} {x y : TrustedContact}
      → x.access_status ≡ AccessStatus.pending
      → y.access_status ≡ AccessStatus.accepted
      → Edge inviting x y
  declines :
      {inviting : Bool} {x y : TrustedContact}
      → x.access_status ≡ AccessStatus.pending
      → y.access_status ≡ AccessStatus.declined
      → Edge inviting x y
  revokes :
      {inviting : Bool} {x y : TrustedContact}
      → y.access_status ≡ AccessStatus.revoked_by_owner
      → Edge inviting x y
  leaves :
      {inviting : Bool} {x y : TrustedContact}
      → x.access_status ≡ AccessStatus.accepted
      → y.access_status ≡ AccessStatus.revoked_by_contact
      → Edge inviting x y

pub record Step (inviting : Bool) (x y : TrustedContact) : Type 0 where
  pub same_id : y.id ≡ x.id
  pub same_plan : y.plan_id ≡ x.plan_id
  pub edge : Edge inviting x y

-- A change of the table.
pub data Change : Bool → List TrustedContact → List TrustedContact → Type 0 where
  unchanged : {inviting : Bool} {rows : List TrustedContact} → Change inviting rows rows
  invited :
      {rows : List TrustedContact} (c : TrustedContact)
      → c.access_status ≡ AccessStatus.pending
      → any (λ (x : TrustedContact). x.id == c.id) rows ≡ false
      → Change true rows (c ∷ rows)
  changed :
      {inviting : Bool} {rows : List TrustedContact} (p : TrustedContact → Bool)
      (f : TrustedContact → TrustedContact)
      → ((x : TrustedContact) → (f x).id ≡ x.id)
      → All (λ x. p x ≡ true → Step inviting x (f x)) rows
      → Change inviting rows (update p f rows)
  removed :
      {inviting : Bool} {rows : List TrustedContact} (p : TrustedContact → Bool)
      → Change inviting rows (delete p rows)

pub Change-Distinct :
    (inviting : Bool) (rows rows' : List TrustedContact)
    → Change inviting rows rows'
    → Distinct id_of rows
    → Distinct id_of rows'
Change-Distinct inviting rows rows' Change.unchanged d = d
Change-Distinct inviting rows rows' (Change.invited c pending new) d = (new, d)
Change-Distinct inviting rows rows' (Change.changed p f ids steps) d =
    Distinct-update id_of p f ids rows d
Change-Distinct inviting rows rows' (Change.removed p) d = Distinct-delete id_of p rows d

-- What a call does to the plans and the contacts.
pub record Effect (inviting : Bool) (db db' : Db) : Type 0 where
  pub change : Change inviting db.trusted_contacts db'.trusted_contacts
  pub plans_kept : db'.plans ≡ db.plans

pub no-Effect : (inviting : Bool) (db : Db) → Effect inviting db db
no-Effect inviting db = record { change = Change.unchanged; plans_kept = refl }

pub Effect-SameAccess :
    (inviting : Bool) (a b c : Db) → Effect inviting a b → SameAccess b c → Effect inviting a c
Effect-SameAccess inviting a b c e (contacts, plans) = record {
  change = subst (Change inviting a.trusted_contacts) (sym contacts) e.change;
  plans_kept = plans ∙ e.plans_kept;
}

pub SameAccess-Effect :
    (inviting : Bool) (a b c : Db) → SameAccess a b → Effect inviting b c → Effect inviting a c
SameAccess-Effect inviting a b c (contacts, plans) e = record {
  change = subst (λ rows. Change inviting rows c.trusted_contacts) contacts e.change;
  plans_kept = e.plans_kept ∙ plans;
}

-- An UPDATE of the row that was found.
pub changed_found :
    (inviting : Bool) (rows : List TrustedContact) (q p : TrustedContact → Bool)
    (f : TrustedContact → TrustedContact) (c : TrustedContact)
    → Distinct id_of rows
    → find q rows ≡ some c
    → ((x : TrustedContact) → p x ≡ true → x.id ≡ c.id)
    → ((x : TrustedContact) → (f x).id ≡ x.id)
    → Step inviting c (f c)
    → Change inviting rows (update p f rows)
changed_found inviting rows q p f c distinct found same ids step = Change.changed p f ids (
    All-map (λ x. x.id ≡ c.id → x ≡ c) (λ x. p x ≡ true → Step inviting x (f x))
      (λ x only h. subst (λ y. Step inviting y (f y)) (sym (only (same x h))) step) rows
      (found_is_only id_of q rows c distinct found))
