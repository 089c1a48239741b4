-- ===== src/ActivityLog.antt =====
-- The plan's activity log (src/activity-log/activity-log.service.ts), with the policy and the foreign
-- keys of plan_activity_log.
use legacy_made_api.Prelude.{◌&&◌, not, Option, none, some, ◌∷◌, Text, truthy, ◌==◌}
use legacy_made_api.Prelude.Results.{ok, ◌>>◌, throw_if}
use legacy_made_api.Prelude.Tables.{any}
use legacy_made_api.Schema.{
  User, Plan, PlanAccessRole, Action, ResourceType, ActivityDetails, Activity, Db, Session,
  every_level, owner_or_contact,
}
use legacy_made_api.Errors.{Result, foreign_key_violation, rls_violation}
use legacy_made_api.DbService.{Cls}

pub record LogActivityParams : Type 0 where
  pub plan_id : Text
  pub action : Action
  pub resource_type : ResourceType
  pub resource_id : Text
  pub details : ActivityDetails

-- `this.cls.get('planAccessRole') ?? 'owner'`
abbrev pub actor_type : Option PlanAccessRole → PlanAccessRole
actor_type none = PlanAccessRole.owner
actor_type (some role) = role

abbrev pub activity : Cls → Text → LogActivityParams → Activity
activity cls u p = record {
  plan_id = p.plan_id;
  actor_user_id = u;
  actor_type = actor_type cls.plan_access_role;
  action = p.action;
  resource_type = p.resource_type;
  resource_id = p.resource_id;
  details = p.details;
}

-- INSERT INTO plan_activity_log
unfoldable pub insert_activity : Session → Activity → Db → Result Db
insert_activity s a db =
    throw_if (not (owner_or_contact s every_level db a.plan_id)) rls_violation
    >> throw_if
        (not (
          any (λ (p : Plan). p.id == a.plan_id) db.plans
          && any (λ (x : User). x.id == a.actor_user_id) db.users))
        foreign_key_violation
    >> ok (record db { plan_activity_log = a ∷ db.plan_activity_log })

-- `log`
unfoldable pub log : Cls → LogActivityParams → Session → Db → Result Db
unfolding insert_activity
log cls p s db = elim (truthy cls.user_id) [
  | none ↦ ok db
  | some u ↦ insert_activity s (activity cls u p) db
]
