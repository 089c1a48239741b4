-- ===== src/Items/Services.antt =====
-- The operations of `EntriesService`, `WishesService` and `MessagesService`.
use legacy_made_api.Prelude.{ℕ, Bool, Option, Text}
use legacy_made_api.Schema.{Item}
use legacy_made_api.DbService.{Cls, Method}
use legacy_made_api.Files.Storage.{Client}
use legacy_made_api.Items.Kinds.{Kind}
use legacy_made_api.Items.Writes.{
  CreateItemDto, UpdateItemDto, create_item, update_item, remove_item,
}
use legacy_made_api.Items.Reads.{ItemResponseDto, ItemsListResponse, find_all_items, find_one_item}

unfoldable create_entry : Text → Text → CreateItemDto → Cls → Method Item
create_entry = create_item Kind.entry

unfoldable create_wish : Text → Text → CreateItemDto → Cls → Method Item
create_wish = create_item Kind.wish

unfoldable create_message : Text → Text → CreateItemDto → Cls → Method Item
create_message = create_item Kind.message

unfoldable update_entry : Text → UpdateItemDto → Cls → Method (Option Item)
update_entry = update_item Kind.entry

unfoldable update_wish : Text → UpdateItemDto → Cls → Method (Option Item)
update_wish = update_item Kind.wish

unfoldable update_message : Text → UpdateItemDto → Cls → Method (Option Item)
update_message = update_item Kind.message

unfoldable remove_entry : Text → Cls → Method (Unit {0})
remove_entry = remove_item Kind.entry

unfoldable remove_wish : Text → Cls → Method (Unit {0})
remove_wish = remove_item Kind.wish

unfoldable remove_message : Text → Cls → Method (Unit {0})
remove_message = remove_item Kind.message

module _ (client : Client) (is_image : Text → Bool) where
  unfoldable find_all_entries : ℕ → Text → Option Text → Cls → Method ItemsListResponse
  find_all_entries now = find_all_items client is_image now Kind.entry

  unfoldable find_all_wishes : ℕ → Text → Option Text → Cls → Method ItemsListResponse
  find_all_wishes now = find_all_items client is_image now Kind.wish

  unfoldable find_all_messages : ℕ → Text → Option Text → Cls → Method ItemsListResponse
  find_all_messages now = find_all_items client is_image now Kind.message

  unfoldable find_one_entry : Text → Cls → Method ItemResponseDto
  find_one_entry = find_one_item client is_image Kind.entry

  unfoldable find_one_wish : Text → Cls → Method ItemResponseDto
  find_one_wish = find_one_item client is_image Kind.wish

  unfoldable find_one_message : Text → Cls → Method ItemResponseDto
  find_one_message = find_one_item client is_image Kind.message
