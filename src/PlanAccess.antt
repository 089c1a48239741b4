-- ===== src/PlanAccess.antt =====
-- Who may do what on a plan (src/plan-access): `getPlanAccess`, the guard and the permissions of an
-- access level. A route's parameters and decorators are arguments.
use legacy_made_api.Prelude.{
  Bool, true, false, ◌&&◌, not, Option, none, some, Text, truthy, ◌==◌, if◌then◌else◌,
}
use legacy_made_api.Prelude.Results.{ok, err, ◌>>◌, throw_if}
use legacy_made_api.Prelude.Tables.{any, find}
use legacy_made_api.Schema.{
  Plan, TrustedContact, AccessLevel, PlanAccessRole, only_edit, gives_access, every_level, Db,
}
use legacy_made_api.Errors.{Result, forbidden}
use legacy_made_api.DbService.{Cls}

pub record PlanAccessContext : Type 0 where
  pub role : PlanAccessRole
  pub access_level : Option AccessLevel
  pub owner_id : Text

abbrev pub is_owned_plan : Text → Text → Plan → Bool
is_owned_plan plan_id u p = p.id == plan_id && p.user_id == u

abbrev pub has_plan_id : Text → Plan → Bool
has_plan_id plan_id p = p.id == plan_id

-- The row of the inner join of trusted_contacts and plans.
abbrev pub contact_access : Option Plan → Option TrustedContact → Option PlanAccessContext
contact_access none c = none
contact_access (some p) none = none
contact_access (some p) (some c) = some (record {
  role = PlanAccessRole.trusted_contact;
  access_level = some c.access_level;
  owner_id = p.user_id;
})

unfoldable pub access_of : Text → Text → Db → Option PlanAccessContext
access_of plan_id u db =
    if any (is_owned_plan plan_id u) db.plans
    then some (record { role = PlanAccessRole.owner; access_level = none; owner_id = u })
    else contact_access (find (has_plan_id plan_id) db.plans)
        (find (gives_access u every_level plan_id) db.trusted_contacts)

-- `getPlanAccess`, which reads in a bypassing transaction
unfoldable pub get_plan_access : Text → Cls → Db → Option PlanAccessContext
get_plan_access plan_id cls db = elim (truthy cls.user_id) [
  | none ↦ none
  | some u ↦ access_of plan_id u db
]

abbrev pub is_contact_role : PlanAccessRole → Bool
is_contact_role PlanAccessRole.owner = false
is_contact_role PlanAccessRole.trusted_contact = true

abbrev pub is_edit : Option AccessLevel → Bool
is_edit none = false
is_edit (some l) = only_edit l

-- `if (access.accessLevel)`, and the owner's id for a contact
abbrev pub set_access : PlanAccessContext → Cls → Cls
set_access a cls = record cls {
  plan_access_role = some a.role;
  plan_access_level = elim a.access_level [ some l ↦ some l | none ↦ cls.plan_access_level ];
  plan_owner_id = if is_contact_role a.role then some a.owner_id else cls.plan_owner_id;
}

-- The rest of `canActivate`, by the access: the context that the later guards and the handler see.
unfoldable pub admit : Option AccessLevel → Option PlanAccessContext → Cls → Result Cls
admit required none cls = err forbidden
admit required (some a) cls =
    throw_if (is_contact_role a.role && is_edit required && not (is_edit a.access_level)) forbidden
    >> ok (set_access a cls)

-- `canActivate`, by the plan's id and the required level; without an id the guard passes
unfoldable pub can_activate : Option Text → Option AccessLevel → Cls → Db → Result Cls
can_activate plan_id required cls db = elim (truthy plan_id) [
  | none ↦ ok cls
  | some p ↦ admit required (get_plan_access p cls db) cls
]

pub data PlanResource : Type 0 where
  entries wishes messages progress : PlanResource

pub record ResourcePermission : Type 0 where
  pub read : Bool
  pub write : Bool

-- `getPermissionsForAccessLevel`
unfoldable pub permissions : AccessLevel → PlanResource → ResourcePermission
permissions AccessLevel.full_edit r = record { read = true; write = true }
permissions AccessLevel.full_view r = record { read = true; write = false }
permissions AccessLevel.limited_view PlanResource.entries = record { read = false; write = false }
permissions AccessLevel.limited_view r = record { read = true; write = false }
