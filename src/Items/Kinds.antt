-- ===== src/Items/Kinds.antt =====
-- What the services of src/entries, src/wishes and src/messages differ in: their table in
-- src/schema.ts, with the levels of its policy, the resource type of the activity log, the quota
-- feature, and the column of files that refers to the table.
use legacy_made_api.Prelude.{Bool, ◌&&◌, Option, none, List, Text, ◌==◌}
use legacy_made_api.Schema.{
  Item, File, ResourceType, Db, Session, AccessLevels, owner_or_contact, edit_or_full_view,
  every_level, only_edit,
}
use legacy_made_api.Entitlements.Types.{QuotaFeature, Pillar}

pub data Kind : Type 0 where
  entry wish message : Kind

abbrev pub items : Kind → Db → List Item
items Kind.entry db = db.entries
items Kind.wish db = db.wishes
items Kind.message db = db.messages

abbrev pub set_items : Kind → List Item → Db → Db
set_items Kind.entry rows db = record db { entries = rows }
set_items Kind.wish rows db = record db { wishes = rows }
set_items Kind.message rows db = record db { messages = rows }

abbrev pub read_levels : Kind → AccessLevels
read_levels Kind.entry = edit_or_full_view
read_levels Kind.wish = every_level
read_levels Kind.message = every_level

abbrev pub resource_type : Kind → ResourceType
resource_type Kind.entry = ResourceType.entry
resource_type Kind.wish = ResourceType.wish
resource_type Kind.message = ResourceType.message

abbrev pub quota_feature : Kind → QuotaFeature
quota_feature Kind.entry = QuotaFeature.entries
quota_feature Kind.wish = QuotaFeature.wishes
quota_feature Kind.message = QuotaFeature.legacy_messages

abbrev pub pillar : Kind → Pillar
pillar Kind.entry = Pillar.important_info
pillar Kind.wish = Pillar.wishes
pillar Kind.message = Pillar.messages

abbrev pub file_column : Kind → File → Option Text
file_column Kind.entry f = f.entry_id
file_column Kind.wish f = f.wish_id
file_column Kind.message f = f.message_id

-- completion_status, which the table of wishes does not have
abbrev pub completion_status_of : Kind → Option Text → Option Text
completion_status_of Kind.entry c = c
completion_status_of Kind.wish c = none
completion_status_of Kind.message c = c

-- the id in a request's body, which the DTOs of wishes do not have
abbrev pub id_of_dto : Kind → Option Text → Option Text
id_of_dto Kind.entry id = id
id_of_dto Kind.wish id = none
id_of_dto Kind.message id = id

-- The policy of the table for SELECT, and for the other commands.
abbrev pub item_readable : Kind → Session → Db → Item → Bool
item_readable kind s db i = owner_or_contact s (read_levels kind) db i.plan_id

abbrev pub item_modifiable : Session → Db → Item → Bool
item_modifiable s db i = owner_or_contact s only_edit db i.plan_id

-- WHERE id = …, as far as the policies show the row, and as far as they let it be changed
abbrev pub is_item : Kind → Session → Db → Text → Item → Bool
is_item kind s db id i = item_readable kind s db i && i.id == id

abbrev pub is_changed_item : Kind → Session → Db → Text → Item → Bool
is_changed_item kind s db id i = item_modifiable s db i && is_item kind s db id i
