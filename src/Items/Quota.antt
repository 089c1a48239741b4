-- ===== src/Items/Quota.antt =====
-- The route that creates an entry, a wish or a message keeps the plan's quota.
use legacy_made_api.Prelude.{
  ℕ, ◌≤◌, ◌≡◌, refl, ap, ◌∙◌, sym, none, some, List, ◌∷◌, arith, Text, truthy, inl, inr,
  Option-cases,
}
use legacy_made_api.Prelude.Results.{ok, err, >>=-returned}
use legacy_made_api.Schema.{
  Item, Activity, TrustedContact, Db, Session, as_user, Action, AccessLevel, AccessTiming,
  AccessStatus, SubscriptionTier,
}
use legacy_made_api.Errors.{Result}
use legacy_made_api.DbService.{Cls}
use legacy_made_api.DbService.Keeps.{rls-signed_in, transaction-ok}
use legacy_made_api.ActivityLog.{log, insert_activity, LogActivityParams}
use legacy_made_api.Sharing.Writes.{returning, ok_state}
use legacy_made_api.PlanAccess.{can_activate}
use legacy_made_api.Entitlements.Types.{QuotaFeature, Pillar, at_most}
use legacy_made_api.Entitlements.Config.{tier_config}
use legacy_made_api.Entitlements.Usage.{count_usage, stored_bytes}
use legacy_made_api.Entitlements.UsageProofs.{HasPlanKey, with_row}
use legacy_made_api.Entitlements.QuotaProofs.{counted_usage, require_quota_keeps_limit}
use legacy_made_api.Entitlements.Service.{
  in_entitlement_tx, get_entitlement_user_id, is_checking_plan_owner, can_use_quota_in_tx,
  with_entitlement_tx, get_tier_in_tx, get_usage_in_tx, require_quota_in_tx,
}
use legacy_made_api.Entitlements.Guard.{
  check_guard_entitlements, run_guard, run_checks, check_pillar, check_view_pillar, check_quota,
}
use legacy_made_api.Items.Kinds.{Kind, items, set_items, pillar, quota_feature}
use legacy_made_api.Items.Writes.{
  CreateItemDto, item_row, item_activity, insert_item, create_item, create_item_tx,
}
use legacy_made_api.Items.Routes.{entitled, guarded, create_route}
use legacy_made_api.Items.LockedRows.{insert_item-shape}

-- The guard's check of a quota is the service's, in the same context.
guard-require_quota :
    (now : ℕ) (cls : Cls) (p v : Pillar) (q : QuotaFeature) (u : Text) (db db' : Db)
    → truthy cls.user_id ≡ some u
    → check_guard_entitlements now cls (some p) (some v) (some q) db ≡ (ok tt, db')
    → (db' ≡ db) × (require_quota_in_tx now cls q (as_user u) db ≡ ok tt)
unfolding check_guard_entitlements run_guard run_checks check_pillar check_view_pillar check_quota
    in_entitlement_tx get_entitlement_user_id is_checking_plan_owner require_quota_in_tx
    can_use_quota_in_tx get_tier_in_tx get_usage_in_tx with_entitlement_tx
guard-require_quota now cls p v q u db db' signed_in h =
    elim (Option-cases (truthy cls.plan_owner_id)) [
      | inl mine ↦ (ground (arith, mine, signed_in), ground (arith, mine, signed_in))
      | inr (o, e) ↦ (ground (arith, e, signed_in), ground (arith, e, signed_in))
    ]

with_row-set_items :
    (kind : Kind) (i : Item) (c : TrustedContact) (db : Db)
    → with_row (quota_feature kind) i c db ≡ set_items kind (i ∷ items kind db) db
with_row-set_items Kind.entry i c db = refl
with_row-set_items Kind.wish i c db = refl
with_row-set_items Kind.message i c db = refl

log-shape :
    (cls : Cls) (p : LogActivityParams) (s : Session) (db db' : Db)
    → log cls p s db ≡ ok db'
    → record db { plan_activity_log = db'.plan_activity_log } ≡ db'
unfolding log insert_activity
log-shape cls p s db db' h = ground arith

count_usage-lines :
    (s : Session) (u : Text) (feature : QuotaFeature) (lines : List Activity) (db : Db)
    → count_usage s (record db { plan_activity_log = lines }) u feature ≡ count_usage s db u feature
unfolding count_usage stored_bytes
count_usage-lines s u QuotaFeature.entries lines db = refl
count_usage-lines s u QuotaFeature.wishes lines db = refl
count_usage-lines s u QuotaFeature.trusted_contacts lines db = refl
count_usage-lines s u QuotaFeature.family_profiles lines db = refl
count_usage-lines s u QuotaFeature.legacy_messages lines db = refl
count_usage-lines s u QuotaFeature.storage_mb lines db = refl

-- The laws of a new row speak of a contact too, which does not matter here.
any_contact : Text → TrustedContact
any_contact plan_id = record {
  id = 0;
  plan_id = plan_id;
  email = 0;
  first_name = 0;
  last_name = 0;
  relationship = none;
  access_level = AccessLevel.full_edit;
  access_timing = AccessTiming.immediate;
  access_status = AccessStatus.pending;
  clerk_user_id = none;
  accepted_at = none;
  declined_at = none;
  revoked_at = none;
  notes = none;
}

-- What the route's guard and handler did, where the route returned.
create_route-returned :
    (now : ℕ) (kind : Kind) (fresh_id plan_id : Text) (dto : CreateItemDto) (cls cls' : Cls)
    (u : Text) (db db' : Db) (i : Item)
    → can_activate (some plan_id) (some AccessLevel.full_edit) cls db ≡ ok cls'
    → truthy cls'.user_id ≡ some u
    → create_route now kind fresh_id plan_id dto cls db ≡ (ok i, db')
    → (require_quota_in_tx now cls' (quota_feature kind) (as_user u) db ≡ ok tt)
      × (create_item_tx kind fresh_id plan_id dto cls' (as_user u) db ≡ ok (i, db'))
unfolding create_route guarded entitled create_item
create_route-returned now kind fresh_id plan_id dto cls cls' u db db' i admitted signed_in h =
    by_check (checked.0) (checked.1) refl
  where
    checked : Result (Unit {0}) × Db
    checked =
        check_guard_entitlements now cls' (some (pillar kind)) (some (pillar kind))
          (some (quota_feature kind)) db

    by_check :
        (r : Result (Unit {0})) (m : Db)
        → checked ≡ (r, m)
        → (require_quota_in_tx now cls' (quota_feature kind) (as_user u) db ≡ ok tt)
          × (create_item_tx kind fresh_id plan_id dto cls' (as_user u) db ≡ ok (i, db'))
    by_check (err e) m q =
        let step : create_route now kind fresh_id plan_id dto cls db ≡ (err e, m) =
          rw (create_route, guarded, admitted, entitled, ap (λ r. r.0) q, ap (λ r. r.1) q) refl in
        absurd cc
    by_check (ok _) m q =
        let (same, passed) =
          guard-require_quota now cls' (pillar kind) (pillar kind) (quota_feature kind) u db m
            signed_in q in
        let step : create_route now kind fresh_id plan_id dto cls db
            ≡ create_item kind fresh_id plan_id dto cls' db =
          rw (create_route, guarded, admitted, entitled, ap (λ r. r.0) q, ap (λ r. r.1) q, same)
            refl in
        let body = create_item_tx kind fresh_id plan_id dto cls' in
        (
          passed,
          transaction-ok (body (as_user u)) db db'
              (sym (rls-signed_in cls' body u db signed_in) ∙ sym step ∙ h),
        )

-- If a request to create an entry, a wish or a message returns, and n is the limit of its kind at the
-- tier in force for the plan, then the usage that the entitlements count in the context of the
-- request is at most n afterwards. Plan ids are distinct.
pub create_route_keeps_limit :
    (now n k : ℕ) (kind : Kind) (fresh_id plan_id : Text) (dto : CreateItemDto) (cls cls' : Cls)
    (u : Text) (db db' : Db) (i : Item) (tier : SubscriptionTier)
    → HasPlanKey db
    → can_activate (some plan_id) (some AccessLevel.full_edit) cls db ≡ ok cls'
    → truthy cls'.user_id ≡ some u
    → get_tier_in_tx now cls' (as_user u) db ≡ ok tier
    → (tier_config tier).quotas (quota_feature kind) ≡ at_most n
    → create_route now kind fresh_id plan_id dto cls db ≡ (ok i, db')
    → get_usage_in_tx cls' (quota_feature kind) (as_user u) db' ≡ ok k
    → k ≤ n
unfolding create_item_tx
create_route_keeps_limit now n k kind fresh_id plan_id dto cls cls' u db db' i tier d admitted
      signed_in t l h used =
    let (passed, created) =
      create_route-returned now kind fresh_id plan_id dto cls cls' u db db' i admitted signed_in
        h in
    let row = item_row kind fresh_id plan_id cls'.user_id dto in
    let line = item_activity kind plan_id Action.created row.id in
    let (m, e, rest) = >>=-returned (insert_item kind row (as_user u) db) _ created in
    let (after, logged, last) = >>=-returned (log cls' line (as_user u) m) (returning row) rest in
    let shape = (insert_item-shape kind row (as_user u) db m e).0 in
    let (s', v, counted) = counted_usage now cls' (as_user u) db tier t in
    let feature = quota_feature kind in
    let same : count_usage s' db' v feature ≡ count_usage s' m v feature =
      ap (λ x. count_usage s' x v feature)
        (ok_state (returning row after) i row db' after last refl
          ∙ sym (log-shape cls' line (as_user u) m after logged))
      ∙ count_usage-lines s' v feature after.plan_activity_log m in
    let grown : with_row feature row (any_contact plan_id) db ≡ m =
      with_row-set_items kind row (any_contact plan_id) db ∙ shape in
    let usage : get_usage_in_tx cls' feature (as_user u)
          (with_row feature row (any_contact plan_id) db)
        ≡ ok k =
      ap (get_usage_in_tx cls' feature (as_user u)) grown
      ∙ counted feature m
      ∙ ap ok (sym same)
      ∙ sym (counted feature db')
      ∙ used in
    require_quota_keeps_limit now n k cls' feature (as_user u) row (any_contact plan_id) db tier d t
      l passed usage
