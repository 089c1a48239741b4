-- ===== src/SharedPlans.antt =====
-- Plans as the people they are shared with see them (src/shared-plans/shared-plans.service.ts). Of the
-- plan and its owner the answer keeps the ids; their names and pictures are left out, and so is the
-- order of the list, by the time of acceptance.
use legacy_made_api.Prelude.{
  ℕ, Bool, false, ◌&&◌, ◌||◌, Option, none, some, List, [], ◌∷◌, Text, truthy, ◌==◌,
}
use legacy_made_api.Prelude.Results.{ok, ◌>>=◌, or_throw}
use legacy_made_api.Prelude.Tables.{find, select}
use legacy_made_api.Schema.{
  User, Plan, TrustedContact, AccessLevel, AccessTiming, AccessStatus, access_status_eq,
  is_immediate, is_user, Db, Session,
}
use legacy_made_api.Errors.{Result, not_found}
use legacy_made_api.DbService.{Cls, Tx, Method, bypass_rls, with_user_id}
use legacy_made_api.PlanAccess.{has_plan_id, PlanResource, ResourcePermission, permissions}
use legacy_made_api.Invitations.{perform_accept}
use legacy_made_api.Invitations.Tokens.{decline_found}

pub record SharedPlan : Type 0 where
  pub plan_id : Text
  pub owner_id : Text
  pub access_level : AccessLevel
  pub access_timing : AccessTiming
  pub access_status : AccessStatus
  pub accepted_at : Option ℕ
  pub permissions_of : PlanResource → ResourcePermission

-- `user?.email ?? null`
abbrev email_of : Option User → Option Text
email_of none = none
email_of (some x) = x.email

-- `getUserEmail`
unfoldable pub get_user_email : Text → Db → Option Text
get_user_email u db = email_of (find (λ (x : User). x.id == u) db.users)

-- The condition on a pending row, which is left out where the user has no e-mail.
abbrev is_invited : Option Text → TrustedContact → Bool
is_invited none c = false
is_invited (some email) c =
    c.email == email && access_status_eq c.access_status AccessStatus.pending

abbrev pub is_shared : Text → Option Text → TrustedContact → Bool
is_shared u email c =
    is_immediate c.access_timing
    && ((is_user u c.clerk_user_id && access_status_eq c.access_status AccessStatus.accepted)
        || is_invited email c)

abbrev shared_plan : TrustedContact → Plan → SharedPlan
shared_plan c p = record {
  plan_id = p.id;
  owner_id = p.user_id;
  access_level = c.access_level;
  access_timing = c.access_timing;
  access_status = c.access_status;
  accepted_at = c.accepted_at;
  permissions_of = permissions c.access_level;
}

-- The plan of a contact with its owner, a row of the users: the inner joins.
abbrev has_user_id : Text → User → Bool
has_user_id id x = x.id == id

joined_owner : Db → Plan → Option User → Option Plan
joined_owner db p none = none
joined_owner db p (some _) = some p

joined_plan : Db → Option Plan → Option Plan
unfolding joined_owner
joined_plan db none = none
joined_plan db (some p) = joined_owner db p (find (has_user_id p.user_id) db.users)

abbrev cons_shared : TrustedContact → Option Plan → List SharedPlan → List SharedPlan
cons_shared c none rest = rest
cons_shared c (some p) rest = shared_plan c p ∷ rest

unfoldable pub shared_rows : Db → List TrustedContact → List SharedPlan
unfolding joined_plan
shared_rows db [] = []
shared_rows db (c ∷ contacts) =
    cons_shared c (joined_plan db (find (has_plan_id c.plan_id) db.plans)) (shared_rows db contacts)

-- `findAll`
unfoldable pub find_all_shared : Cls → Method (List SharedPlan)
find_all_shared cls = with_user_id cls (λ u. bypass_rls (λ s db.
    ok (
      shared_rows db (select (is_shared u (truthy (get_user_email u db))) db.trusted_contacts),
      db,
    )))

abbrev head : List SharedPlan → Option SharedPlan
head [] = none
head (x ∷ _) = some x

abbrev is_shared_plan : Text → Text → Option Text → TrustedContact → Bool
is_shared_plan plan_id u email c = c.plan_id == plan_id && is_shared u email c

-- `findOne`
unfoldable pub find_one_shared : Text → Cls → Method SharedPlan
find_one_shared plan_id cls = with_user_id cls (λ u. bypass_rls (λ s db.
    or_throw
      (head (
        shared_rows db
          (select (is_shared_plan plan_id u (truthy (get_user_email u db))) db.trusted_contacts)))
      not_found
    >>= λ row. ok (row, db)))

abbrev pub is_pending_for : Text → Text → TrustedContact → Bool
is_pending_for plan_id email c =
    c.plan_id == plan_id
    && c.email == email
    && access_status_eq c.access_status AccessStatus.pending

-- `findPendingInvitation`
unfoldable pub find_pending_invitation : Text → Text → Db → Result TrustedContact
find_pending_invitation plan_id u db =
    or_throw (truthy (get_user_email u db)) not_found >>= λ email.
    or_throw (find (is_pending_for plan_id email) db.trusted_contacts) not_found

unfoldable pub accept_shared_tx : ℕ → Cls → Text → Text → Session → Tx TrustedContact
accept_shared_tx now cls plan_id u s db =
    find_pending_invitation plan_id u db >>= λ c. perform_accept now cls c u db

-- `acceptInvitation`
unfoldable pub accept_shared : ℕ → Text → Cls → Method TrustedContact
accept_shared now plan_id cls =
    with_user_id cls (λ u. bypass_rls (accept_shared_tx now cls plan_id u))

-- `declineInvitation`
unfoldable pub decline_shared : ℕ → Text → Cls → Method (Unit {0})
decline_shared now plan_id cls =
    with_user_id cls (λ u db. decline_found now cls (find_pending_invitation plan_id u db) db)
