-- ===== src/Tests/Items.antt =====
-- Examples for src/entries, src/wishes and src/messages.
use legacy_made_api.Prelude.{Bool, ◌≡◌, refl, ◌≤◌, ◌==◌, none, some, List, [], ◌∷◌, Text}
use legacy_made_api.Prelude.Order.{pos, negsuc}
use legacy_made_api.Prelude.Results.{ok}
use legacy_made_api.Schema.{
  Json, json_null, json_value, json_object, no_fields, json_field, object, Item, Action, Db,
  as_user, SubscriptionTier,
}
use legacy_made_api.Items.Kinds.{Kind, items}
use legacy_made_api.Items.Metadata.{merge_metadata}
use legacy_made_api.Items.Merging.{lookup, lookup-merge_metadata}
use legacy_made_api.Items.Writes.{
  item_row, insert_item, create_item_tx, CreateItemDto, UpdateItemDto, item_activity, create_item,
  update_item, remove_item,
}
use legacy_made_api.Items.Reads.{find_all_items, find_one_item}
use legacy_made_api.Items.Listing.{own_response, one_by_one, find_all_items-eq-one_by_one}
use legacy_made_api.Items.LockedRows.{locked_rows}
use legacy_made_api.Items.Editing.{ItemCall, after_calls, after_calls-locked_rows}
use legacy_made_api.Items.Returned.{created_is_found}
use legacy_made_api.Items.Silent.{with_line, writes_without_edit}
use legacy_made_api.Items.Quota.{create_route_keeps_limit}
use legacy_made_api.Tests.{alice, bob, plan_of_alice, entry, photo, database, request}
use legacy_made_api.Tests.Files.{client, viewed_db}

abbrev is_image : Text → Bool
is_image type = type == 3

abbrev metadata : List (Text × Json)
metadata = (1, json_value 5) ∷ (2, json_object (json_field 8 (json_value 6) no_fields)) ∷ []

abbrev patch : List (Text × Json)
patch = (2, json_object (json_field 9 json_null no_fields)) ∷ (3, json_null) ∷ []

lookup-merge_metadata_example :
    lookup 2 (merge_metadata (object metadata) (some patch))
    ≡ some (json_object (json_field 9 json_null no_fields))
lookup-merge_metadata_example =
    lookup-merge_metadata 2 (object metadata) patch (refl, (refl, tt)) (refl, (refl, tt))

-- Two entries, the newer one first in order; the newer file of the older one stands first.
abbrev two_entries : Db
two_entries = record database {
  entries = entry 20 ∷ record (entry 21) { sort_order = negsuc 0 } ∷ [];
  files = photo 31 7 ∷ photo 30 2000000 ∷ [];
}

find_all_items-eq-one_by_one_example :
    find_all_items client is_image 100 Kind.entry plan_of_alice none (request alice) two_entries ≡ (
      one_by_one client is_image 100 Kind.entry plan_of_alice none
          (request alice)
          alice
          two_entries,
      two_entries,
    )
find_all_items-eq-one_by_one_example =
    find_all_items-eq-one_by_one client is_image 100 Kind.entry plan_of_alice none (request alice)
      alice two_entries refl

abbrev new_entry : CreateItemDto
new_entry = record {
  id = some 22;
  task_key = 4;
  title = some 5;
  notes = none;
  sort_order = pos 1;
  completion_status = none;
  metadata = metadata;
  metadata_schema = none;
}

abbrev no_change : UpdateItemDto
no_change = record {
  id = none;
  task_key = none;
  title = none;
  notes = none;
  sort_order = none;
  completion_status = none;
  metadata = some patch;
  metadata_schema = none;
}

after_calls-locked_rows_example :
    locked_rows (request bob) viewed_db (
      items Kind.entry (
        after_calls
          (request bob)
          (ItemCall.create Kind.entry 23 plan_of_alice new_entry
            ∷ ItemCall.change Kind.entry 20 no_change
            ∷ ItemCall.remove Kind.entry 20
            ∷ [])
          viewed_db))
    ≡ entry 20 ∷ []
after_calls-locked_rows_example =
    after_calls-locked_rows (request bob)
      (ItemCall.create Kind.entry 23 plan_of_alice new_entry
        ∷ ItemCall.change Kind.entry 20 no_change
        ∷ ItemCall.remove Kind.entry 20
        ∷ [])
      Kind.entry viewed_db

writes_without_edit_example :
    (update_item Kind.entry 20 no_change (request bob) viewed_db ≡ (
      ok none,
      with_line
          (request bob)
          bob
          (item_activity Kind.entry plan_of_alice Action.updated 20)
          viewed_db,
    ))
    × (remove_item Kind.entry 20 (request bob) viewed_db ≡ (
      ok tt,
      with_line
          (request bob)
          bob
          (item_activity Kind.entry plan_of_alice Action.deleted 20)
          viewed_db,
    ))
writes_without_edit_example =
    writes_without_edit Kind.entry 20 (request bob) bob (entry 20) viewed_db refl (refl, tt) refl
      refl no_change refl refl

abbrev created : Item
created = item_row Kind.entry 23 plan_of_alice (some alice) new_entry

created_is_found_example :
    find_one_item client is_image Kind.entry 22
      (request alice)
      (create_item Kind.entry 23 plan_of_alice new_entry (request alice) database).1
    ≡ (
      ok (
          own_response client is_image Kind.entry
            (as_user alice)
            (create_item Kind.entry 23 plan_of_alice new_entry (request alice) database).1
            created),
      (create_item Kind.entry 23 plan_of_alice new_entry (request alice) database).1,
    )
unfolding create_item create_item_tx insert_item legacy_made_api.ActivityLog.log
created_is_found_example =
    created_is_found Kind.entry (request alice) alice refl client is_image 23 plan_of_alice
      new_entry database _ created refl

-- Without a subscription.
abbrev free_db : Db
free_db = record database { subscriptions = [] }

create_route_keeps_limit_example : 2 ≤ 5
unfolding legacy_made_api.PlanAccess.can_activate legacy_made_api.PlanAccess.admit
    legacy_made_api.PlanAccess.get_plan_access legacy_made_api.PlanAccess.access_of
    legacy_made_api.Entitlements.Service.get_tier_in_tx
    legacy_made_api.Entitlements.Service.with_entitlement_tx
    legacy_made_api.Entitlements.Service.current_tier
    legacy_made_api.Entitlements.Service.get_subscription legacy_made_api.Items.Routes.create_route
    legacy_made_api.Items.Routes.guarded legacy_made_api.Items.Routes.entitled
    legacy_made_api.Entitlements.Guard.check_guard_entitlements
    legacy_made_api.Entitlements.Guard.run_guard legacy_made_api.Entitlements.Guard.run_checks
    legacy_made_api.Entitlements.Evaluate.evaluate_pillar_access
    legacy_made_api.Entitlements.Evaluate.evaluate_view_pillar_access
    legacy_made_api.Entitlements.Evaluate.evaluate_quota legacy_made_api.ActivityLog.insert_activity
    legacy_made_api.ActivityLog.log legacy_made_api.Entitlements.Guard.check_pillar
    legacy_made_api.Entitlements.Guard.check_quota
    legacy_made_api.Entitlements.Guard.check_view_pillar
    legacy_made_api.Entitlements.Service.get_entitlement_user_id
    legacy_made_api.Entitlements.Service.in_entitlement_tx
    legacy_made_api.Entitlements.Service.is_checking_plan_owner
    legacy_made_api.Entitlements.Usage.count_rows legacy_made_api.Entitlements.Usage.count_usage
    legacy_made_api.Entitlements.Usage.joined create_item create_item_tx insert_item
    legacy_made_api.Entitlements.Service.get_usage_in_tx
create_route_keeps_limit_example =
    create_route_keeps_limit 100 5 2 Kind.entry 23 plan_of_alice new_entry (request alice) _ alice
      free_db _ created SubscriptionTier.free (refl, tt) refl refl refl refl refl refl
