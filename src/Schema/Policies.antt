-- ===== src/Schema/Policies.antt =====
-- The row-level security policies of src/schema.ts that the modelled services meet. A transaction
-- either has a user in `app.user_id` or has `app.bypass_rls_status` on (src/db/db.service.ts); the
-- bypass policy stands on every table.
use legacy_made_api.Prelude.{Bool, true, false, ◌&&◌, ◌||◌, Text, ◌==◌, some, none, Option, List}
use legacy_made_api.Prelude.Tables.{any}
use legacy_made_api.Schema.Enums.{
  AccessLevels, AccessStatus, access_status_eq, is_immediate, only_edit, edit_or_full_view,
  every_level,
}
use legacy_made_api.Schema.Rows.{Plan, Item, File, EncryptedDek, TrustedContact, Db}

-- The security context of a transaction.
pub data Session : Type 0 where
  as_user : Text → Session
  bypassing : Session

-- `isCurrentUser(column)`, or the bypass policy.
abbrev pub is_current_user : Session → Text → Bool
is_current_user (as_user u) column = column == u
is_current_user bypassing column = true

-- `userOwnsPlan(column)`, or the bypass policy.
abbrev pub user_owns_plan : Session → Db → Text → Bool
user_owns_plan (as_user u) db plan_id =
    any (λ (p : Plan). p.id == plan_id && p.user_id == u) db.plans
user_owns_plan bypassing db plan_id = true

-- encrypted_deks_owner, for every command
abbrev pub dek_owned : Session → EncryptedDek → Bool
dek_owned s d = is_current_user s d.owner_id

-- encrypted_deks_owner and encrypted_deks_recipient_read, for SELECT
abbrev pub dek_readable : Session → EncryptedDek → Bool
dek_readable s d = is_current_user s d.owner_id || is_current_user s d.recipient_id

-- the WITH CHECK of encrypted_deks_owner
abbrev pub dek_insertable : Session → Db → EncryptedDek → Bool
dek_insertable s db d = is_current_user s d.owner_id && user_owns_plan s db d.plan_id

-- `column = …` for a column that may be NULL
abbrev pub is_user : Text → Option Text → Bool
is_user u none = false
is_user u (some c) = c == u

-- `clerk_user_id = app.user_id`, or the bypass policy
abbrev is_current_contact : Session → Option Text → Bool
is_current_contact (as_user u) c = is_user u c
is_current_contact bypassing c = true

-- the plan owner's policy on trusted_contacts and trusted_contacts_self_read, for SELECT
abbrev pub contact_readable : Session → Db → TrustedContact → Bool
contact_readable s db c = user_owns_plan s db c.plan_id || is_current_contact s c.clerk_user_id

-- `userHasAccessToPlan(column, levels)`
abbrev pub gives_access : Text → AccessLevels → Text → TrustedContact → Bool
gives_access u levels plan_id c =
    c.plan_id == plan_id
    && is_user u c.clerk_user_id
    && access_status_eq c.access_status AccessStatus.accepted
    && is_immediate c.access_timing
    && levels c.access_level

abbrev pub user_has_access : Text → AccessLevels → Db → Text → Bool
user_has_access u levels db plan_id = any (gives_access u levels plan_id) db.trusted_contacts

-- `ownerOrTrustedContactPolicy(column, …)` with the levels of a command, or the bypass policy
abbrev pub owner_or_contact : Session → AccessLevels → Db → Text → Bool
owner_or_contact (as_user u) levels db plan_id =
    user_owns_plan (as_user u) db plan_id || user_has_access u levels db plan_id
owner_or_contact bypassing levels db plan_id = true

-- A row of entries, wishes or messages, as far as the policies of its table and of the plan's contacts
-- show it at these levels.
abbrev pub has_item : Session → AccessLevels → Db → List Item → Text → Bool
has_item s levels db items id =
    any (λ (i : Item). i.id == id && owner_or_contact s levels db i.plan_id) items

abbrev pub has_parent : Session → AccessLevels → Db → List Item → Option Text → Bool
has_parent s levels db items none = false
has_parent s levels db items (some id) = has_item s levels db items id

-- The policy of files, by the levels for the files of entries and for the other files, or the bypass
-- policy.
abbrev file_allowed : Session → AccessLevels → AccessLevels → Db → File → Bool
file_allowed bypassing entry_levels levels db f = true
file_allowed (as_user u) entry_levels levels db f =
    has_parent (as_user u) entry_levels db db.entries f.entry_id
    || has_parent (as_user u) levels db db.wishes f.wish_id
    || has_parent (as_user u) levels db db.messages f.message_id

abbrev pub file_readable : Session → Db → File → Bool
file_readable s db f = file_allowed s edit_or_full_view every_level db f

abbrev pub file_modifiable : Session → Db → File → Bool
file_modifiable s db f = file_allowed s only_edit only_edit db f
