-- ===== src/Items/Controllers.antt =====
-- The routes of `WishesController` (src/wishes/wishes.controller.ts) and of `MessagesController`
-- (src/messages/messages.controller.ts).
use legacy_made_api.Prelude.{ℕ, Bool, Option, Text}
use legacy_made_api.Schema.{Item}
use legacy_made_api.DbService.{Cls, Method}
use legacy_made_api.Files.Storage.{Client}
use legacy_made_api.Items.Kinds.{Kind}
use legacy_made_api.Items.Writes.{CreateItemDto, UpdateItemDto}
use legacy_made_api.Items.Reads.{ItemResponseDto, ItemsListResponse}
use legacy_made_api.Items.Routes.{
  create_route, update_route, remove_route, find_all_route, find_one_route,
}

unfoldable create_wish_route : ℕ → Text → Text → CreateItemDto → Cls → Method Item
create_wish_route now = create_route now Kind.wish

unfoldable create_message_route : ℕ → Text → Text → CreateItemDto → Cls → Method Item
create_message_route now = create_route now Kind.message

unfoldable update_wish_route : ℕ → Text → Text → UpdateItemDto → Cls → Method (Option Item)
update_wish_route now = update_route now Kind.wish

unfoldable update_message_route : ℕ → Text → Text → UpdateItemDto → Cls → Method (Option Item)
update_message_route now = update_route now Kind.message

unfoldable remove_wish_route : ℕ → Text → Text → Cls → Method (Unit {0})
remove_wish_route now = remove_route now Kind.wish

unfoldable remove_message_route : ℕ → Text → Text → Cls → Method (Unit {0})
remove_message_route now = remove_route now Kind.message

module _ (client : Client) (is_image : Text → Bool) where
  unfoldable find_all_wishes_route : ℕ → Text → Option Text → Cls → Method ItemsListResponse
  find_all_wishes_route now = find_all_route client is_image now Kind.wish

  unfoldable find_all_messages_route : ℕ → Text → Option Text → Cls → Method ItemsListResponse
  find_all_messages_route now = find_all_route client is_image now Kind.message

  unfoldable find_one_wish_route : ℕ → Text → Text → Cls → Method ItemResponseDto
  find_one_wish_route now = find_one_route client is_image now Kind.wish

  unfoldable find_one_message_route : ℕ → Text → Text → Cls → Method ItemResponseDto
  find_one_message_route now = find_one_route client is_image now Kind.message
