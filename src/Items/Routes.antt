-- ===== src/Items/Routes.antt =====
-- The routes of `EntriesController` (src/entries/entries.controller.ts), `WishesController`
-- (src/wishes/wishes.controller.ts) and `MessagesController` (src/messages/messages.controller.ts):
-- the guards that Nest runs before a handler, and the handler. The context that `PlanAccessGuard`
-- sets is the one that the later calls of the request see.
use legacy_made_api.Prelude.{ℕ, Bool, Option, none, some, Text}
use legacy_made_api.Prelude.Results.{ok, err}
use legacy_made_api.Schema.{AccessLevel, Item}
use legacy_made_api.DbService.{Cls, Method}
use legacy_made_api.PlanAccess.{can_activate}
use legacy_made_api.Entitlements.Types.{Pillar, QuotaFeature}
use legacy_made_api.Entitlements.Guard.{check_guard_entitlements}
use legacy_made_api.Files.Storage.{Client}
use legacy_made_api.Items.Kinds.{Kind, pillar, quota_feature}
use legacy_made_api.Items.Writes.{
  CreateItemDto, UpdateItemDto, create_item, update_item, remove_item,
}
use legacy_made_api.Items.Reads.{ItemResponseDto, ItemsListResponse, find_all_items, find_one_item}

-- `EntitlementsGuard`, then the handler
unfoldable pub entitled :
    {A : Type 0}
    → ℕ
    → Option Pillar
    → Option Pillar
    → Option QuotaFeature
    → (Cls → Method A)
    → Cls
    → Method A
entitled now pillar view_pillar quota handler cls db =
    let (checked, db') = check_guard_entitlements now cls pillar view_pillar quota db in
    elim checked [ err e ↦ (err e, db') | ok _ ↦ handler cls db' ]

-- `@UseGuards(PlanAccessGuard, EntitlementsGuard)`
unfoldable pub guarded :
    {A : Type 0}
    → ℕ
    → Text
    → Option AccessLevel
    → Option Pillar
    → Option Pillar
    → Option QuotaFeature
    → (Cls → Method A)
    → Cls
    → Method A
guarded now plan_id level pillar view_pillar quota handler cls db =
    elim (can_activate (some plan_id) level cls db) [
      | err e ↦ (err e, db)
      | ok cls' ↦ entitled now pillar view_pillar quota handler cls' db
    ]

-- POST /plans/:planId/entries, wishes or messages
unfoldable pub create_route : ℕ → Kind → Text → Text → CreateItemDto → Cls → Method Item
create_route now kind fresh_id plan_id dto =
    guarded now plan_id (some AccessLevel.full_edit) (some (pillar kind)) (some (pillar kind))
      (some (quota_feature kind)) (create_item kind fresh_id plan_id dto)

-- PATCH /plans/:planId/entries/:id
unfoldable pub update_route : ℕ → Kind → Text → Text → UpdateItemDto → Cls → Method (Option Item)
update_route now kind plan_id id dto =
    guarded now plan_id (some AccessLevel.full_edit) (some (pillar kind)) (some (pillar kind)) none
      (update_item kind id dto)

-- DELETE /plans/:planId/entries/:id
unfoldable pub remove_route : ℕ → Kind → Text → Text → Cls → Method (Unit {0})
remove_route now kind plan_id id =
    guarded now plan_id (some AccessLevel.full_edit) (some (pillar kind)) (some (pillar kind)) none
      (remove_item kind id)

module _ (client : Client) (is_image : Text → Bool) where
  -- GET /plans/:planId/entries
  unfoldable pub find_all_route : ℕ → Kind → Text → Option Text → Cls → Method ItemsListResponse
  find_all_route now kind plan_id task_key =
      guarded now plan_id none none (some (pillar kind)) none
        (find_all_items client is_image now kind plan_id task_key)

  -- GET /plans/:planId/entries/:id
  unfoldable pub find_one_route : ℕ → Kind → Text → Text → Cls → Method ItemResponseDto
  find_one_route now kind plan_id id =
      guarded now plan_id none none (some (pillar kind)) none
        (find_one_item client is_image kind id)
