-- ===== src/TrustedContacts.antt =====
-- The plan owner's side of sharing (src/trusted-contacts/trusted-contacts.service.ts). The id of a new
-- row is a parameter, and so is whether the mail of `resendInvitation` can be sent; the mail and the
-- push notification of the other methods, whose errors are only logged, and the token in the mail's
-- link are left out.
pub mod Manage
pub mod Lookup
use legacy_made_api.Prelude.{
  ℕ, Bool, true, false, ◌&&◌, ◌||◌, not, Option, none, some, List, [], ◌∷◌, Text, truthy, ◌==◌,
  if◌then◌else◌,
}
use legacy_made_api.Prelude.Results.{ok, err, ◌>>=◌, ◌>>◌, throw_if, or_throw}
use legacy_made_api.Prelude.Tables.{any, find, select, update, delete}
use legacy_made_api.Schema.{
  User, Plan, TrustedContact, EncryptedDek, AccessLevel, AccessTiming, AccessStatus, DekType,
  access_status_eq, dek_type_eq, Action, ResourceType, ActivityDetails, Db, Session,
  is_current_user, user_owns_plan, contact_readable, dek_readable,
}
use legacy_made_api.Errors.{
  Result, not_found, bad_request, internal, unique_violation, rls_violation,
}
use legacy_made_api.DbService.{Cls, Tx, Method, rls}
use legacy_made_api.ActivityLog.{LogActivityParams, log}
use legacy_made_api.Encryption.Statements.{find_plan}
use legacy_made_api.Encryption.Deks.{ContactDek, store_contact_dek_copies, delete_contact_dek_copy}

-- `CreateTrustedContactDto` without its copies of the DEK
pub record ContactFields : Type 0 where
  pub email : Text
  pub first_name : Text
  pub last_name : Text
  pub relationship : Option Text
  pub access_level : AccessLevel
  pub access_timing : AccessTiming
  pub notes : Option Text

pub record CreateTrustedContactDto : Type 0 where
  pub fields : ContactFields
  pub deks : List ContactDek

-- A column that the SET names, unless its value is undefined.
abbrev pub given : {A : Type 0} → Option A → A → A
given none old = old
given (some a) old = a

abbrev pub given_option : {A : Type 0} → Option A → Option A → Option A
given_option none old = old
given_option (some a) old = some a

abbrev pub new_contact : Text → Text → ContactFields → TrustedContact
new_contact id plan_id f = record {
  id = id;
  plan_id = plan_id;
  email = f.email;
  first_name = f.first_name;
  last_name = f.last_name;
  relationship = f.relationship;
  access_level = f.access_level;
  access_timing = f.access_timing;
  access_status = AccessStatus.pending;
  clerk_user_id = none;
  accepted_at = none;
  declined_at = none;
  revoked_at = none;
  notes = f.notes;
}

-- The SET of a re-invitation; clerk_user_id is kept.
abbrev pub reinvite : ContactFields → TrustedContact → TrustedContact
reinvite f c = record c {
  email = f.email;
  first_name = f.first_name;
  last_name = f.last_name;
  relationship = given_option f.relationship c.relationship;
  access_level = f.access_level;
  access_timing = f.access_timing;
  access_status = AccessStatus.pending;
  accepted_at = none;
  declined_at = none;
  revoked_at = none;
  notes = given_option f.notes c.notes;
}

abbrev pub has_email : Session → Db → Text → Text → TrustedContact → Bool
has_email s db plan_id email c = contact_readable s db c && c.plan_id == plan_id && c.email == email

-- `id = … AND plan_id = …`, as far as the policies show it
abbrev pub has_id : Session → Db → Text → Text → TrustedContact → Bool
has_id s db id plan_id c = contact_readable s db c && c.id == id && c.plan_id == plan_id

-- UPDATE … WHERE id = …, as far as the owner's policy allows it
abbrev pub is_writable : Session → Db → Text → TrustedContact → Bool
is_writable s db id c = user_owns_plan s db c.plan_id && c.id == id

abbrev pub update_contact : Session → Text → (TrustedContact → TrustedContact) → Db → Db
update_contact s id f db = record db {
  trusted_contacts = update (is_writable s db id) f db.trusted_contacts;
}

-- `pending` or `accepted`
abbrev pub is_live : AccessStatus → Bool
is_live t = access_status_eq t AccessStatus.pending || access_status_eq t AccessStatus.accepted

-- INSERT INTO trusted_contacts: the policy, the primary key and the unique e-mail of a plan. That
-- the plan exists is part of the policy, unless it is bypassed.
unfoldable pub insert_contact : Session → TrustedContact → Db → Result Db
insert_contact s c db =
    throw_if (not (user_owns_plan s db c.plan_id)) rls_violation
    >> throw_if
        (any
          (λ (x : TrustedContact). x.id == c.id || (x.plan_id == c.plan_id && x.email == c.email))
          db.trusted_contacts)
        unique_violation
    >> ok (record db { trusted_contacts = c ∷ db.trusted_contacts })

-- The contact that a creation writes, by the one that is there.
unfoldable pub write_contact :
    Text
    → ContactFields
    → Text
    → Option TrustedContact
    → Session
    → Db
    → Result (Option TrustedContact × Db)
write_contact new_id f plan_id none s db =
    insert_contact s (new_contact new_id plan_id f) db >>= λ db₁.
    ok (some (new_contact new_id plan_id f), db₁)
write_contact new_id f plan_id (some c) s db =
    throw_if (is_live c.access_status) bad_request
    >> ok (
      if is_writable s db c.id c then some (reinvite f c) else none,
      update_contact s c.id (reinvite f) db,
    )

-- The plan with its owner: an inner join of plans and users.
abbrev pub find_owner : Session → Plan → Db → Option User
find_owner s p db = find (λ (x : User). is_current_user s x.id && x.id == p.user_id) db.users

abbrev pub contact_activity : Text → Text → Action → ActivityDetails → LogActivityParams
contact_activity plan_id id action details = record {
  plan_id = plan_id;
  action = action;
  resource_type = ResourceType.contact;
  resource_id = id;
  details = details;
}

unfoldable pub creation_activity : Text → Option TrustedContact → TrustedContact → LogActivityParams
creation_activity plan_id none c =
    contact_activity plan_id c.id Action.created ActivityDetails.no_activity_details
creation_activity plan_id (some _) c =
    contact_activity plan_id c.id Action.updated ActivityDetails.reinvited

-- The rest of `create`, by the contact with the same e-mail.
unfoldable pub create_with :
    Cls
    → Text
    → CreateTrustedContactDto
    → Text
    → Option TrustedContact
    → Session
    → Tx TrustedContact
unfolding creation_activity
create_with cls new_id dto plan_id existing s db =
    write_contact new_id dto.fields plan_id existing s db >>= λ w.
    or_throw (find_plan s plan_id w.1) not_found >>= λ plan.
    or_throw (find_owner s plan w.1) not_found >>= λ owner.
    store_contact_dek_copies plan_id plan.user_id dto.deks s w.1 >>= λ db₁.
    or_throw w.0 internal >>= λ c.
    log cls (creation_activity plan_id existing c) s db₁ >>= λ db₂. ok (c, db₂)

unfoldable pub create_tx : Cls → Text → CreateTrustedContactDto → Text → Session → Tx TrustedContact
create_tx cls new_id dto plan_id s db =
    create_with cls new_id dto plan_id
      (find (has_email s db plan_id dto.fields.email) db.trusted_contacts) s db

-- `create`
unfoldable pub create : Text → CreateTrustedContactDto → Text → Cls → Method TrustedContact
create new_id dto plan_id cls = rls cls (create_tx cls new_id dto plan_id)
