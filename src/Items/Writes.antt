-- ===== src/Items/Writes.antt =====
-- `create`, `update` and `remove` of the services of entries, wishes and messages, with the policies
-- and the keys of their tables. `fresh_id` is the random id that the database gives a row.
use legacy_made_api.Prelude.{
  Bool, ◌&&◌, not, Option, none, some, List, ◌∷◌, Text, ◌==◌, if◌then◌else◌,
}
use legacy_made_api.Prelude.Order.{ℤ}
use legacy_made_api.Prelude.Results.{ok, ◌>>=◌, ◌>>◌, throw_if, or_throw}
use legacy_made_api.Prelude.Tables.{any, find, update, delete}
use legacy_made_api.Schema.{
  Json, object, Item, File, Action, ActivityDetails, Db, Session, owner_or_contact, only_edit,
}
use legacy_made_api.Errors.{
  Result, not_found, unique_violation, foreign_key_violation, rls_violation,
}
use legacy_made_api.DbService.{Cls, Tx, Method, rls}
use legacy_made_api.ActivityLog.{LogActivityParams, log}
use legacy_made_api.Encryption.Statements.{plan_exists, user_exists}
use legacy_made_api.Files.Removal.{without_orphans}
use legacy_made_api.Items.Kinds.{
  Kind, items, set_items, resource_type, file_column, completion_status_of, id_of_dto, is_item,
  is_changed_item,
}
use legacy_made_api.Items.Metadata.{merge_metadata}

-- `CreateEntryDto`, `CreateWishDto` and `CreateMessageDto`, after their defaults
pub record CreateItemDto : Type 0 where
  pub id : Option Text
  pub task_key : Text
  pub title : Option Text
  pub notes : Option Text
  pub sort_order : ℤ
  pub completion_status : Option Text
  pub metadata : List (Text × Json)
  pub metadata_schema : Option Text

-- `UpdateEntryDto`, `UpdateWishDto` and `UpdateMessageDto`: `none` is a property that is absent,
-- and `some none` is null.
pub record UpdateItemDto : Type 0 where
  pub id : Option Text
  pub task_key : Option Text
  pub title : Option (Option Text)
  pub notes : Option (Option Text)
  pub sort_order : Option ℤ
  pub completion_status : Option (Option Text)
  pub metadata : Option (List (Text × Json))
  pub metadata_schema : Option (Option Text)

-- `...dto` in a SET: an absent property leaves the column.
abbrev pub or_kept : {A : Type 0} → Option A → A → A
or_kept none old = old
or_kept (some new) old = new

abbrev pub item_activity : Kind → Text → Action → Text → LogActivityParams
item_activity kind plan_id action id = record {
  plan_id = plan_id;
  action = action;
  resource_type = resource_type kind;
  resource_id = id;
  details = ActivityDetails.no_activity_details;
}

abbrev pub has_item_id : Text → Item → Bool
has_item_id id i = i.id == id

abbrev pub item_row : Kind → Text → Text → Option Text → CreateItemDto → Item
item_row kind fresh_id plan_id user dto = record {
  id = or_kept (id_of_dto kind dto.id) fresh_id;
  plan_id = plan_id;
  task_key = dto.task_key;
  title = dto.title;
  notes = dto.notes;
  sort_order = dto.sort_order;
  completion_status = completion_status_of kind dto.completion_status;
  metadata = object dto.metadata;
  metadata_schema = dto.metadata_schema;
  modified_by = user;
}

abbrev pub modifier_exists : Option Text → Db → Bool
modifier_exists none db = Bool.true
modifier_exists (some u) db = user_exists u db

-- INSERT INTO entries, wishes or messages
unfoldable pub insert_item : Kind → Item → Session → Db → Result Db
insert_item kind i s db =
    throw_if (not (owner_or_contact s only_edit db i.plan_id)) rls_violation
    >> throw_if (any (has_item_id i.id) (items kind db)) unique_violation
    >> throw_if (not (plan_exists i.plan_id db && modifier_exists i.modified_by db))
        foreign_key_violation
    >> ok (set_items kind (i ∷ items kind db) db)

unfoldable pub create_item_tx : Kind → Text → Text → CreateItemDto → Cls → Session → Tx Item
create_item_tx kind fresh_id plan_id dto cls s db =
    let i = item_row kind fresh_id plan_id cls.user_id dto in
    insert_item kind i s db >>= λ db₁.
    log cls (item_activity kind plan_id Action.created i.id) s db₁ >>= λ db₂. ok (i, db₂)

-- `create`
unfoldable pub create_item : Kind → Text → Text → CreateItemDto → Cls → Method Item
create_item kind fresh_id plan_id dto cls = rls cls (create_item_tx kind fresh_id plan_id dto cls)

-- `findOneInTx`
unfoldable pub find_one_item_in_tx : Kind → Text → Session → Db → Result Item
find_one_item_in_tx kind id s db = or_throw (find (is_item kind s db id) (items kind db)) not_found

-- The SET of `update`.
abbrev pub patched : Kind → Option Text → List (Text × Json) → UpdateItemDto → Item → Item
patched kind user metadata dto i = record i {
  id = or_kept (id_of_dto kind dto.id) i.id;
  task_key = or_kept dto.task_key i.task_key;
  title = or_kept dto.title i.title;
  notes = or_kept dto.notes i.notes;
  sort_order = or_kept dto.sort_order i.sort_order;
  completion_status = completion_status_of kind (or_kept dto.completion_status i.completion_status);
  metadata = object metadata;
  metadata_schema = or_kept dto.metadata_schema i.metadata_schema;
  modified_by = user;
}

abbrev pub refers_to_item : Kind → Text → File → Bool
refers_to_item kind id f = elim (file_column kind f) [ none ↦ Bool.false | some r ↦ r == id ]

-- What the primary key and the keys of other tables say to a new id of a row.
unfoldable pub check_item_id : Kind → Text → Text → Db → Result (Unit {0})
check_item_id kind id new_id db =
    throw_if (not (new_id == id) && any (has_item_id new_id) (items kind db)) unique_violation
    >> throw_if (not (new_id == id) && any (refers_to_item kind id) db.files) foreign_key_violation

-- UPDATE … SET … WHERE id = … RETURNING, the row that it changed if any
unfoldable pub update_item_row :
    Kind
    → Text
    → Option Text
    → List (Text × Json)
    → UpdateItemDto
    → Session
    → Db
    → Result (Option Item × Db)
update_item_row kind id user metadata dto s db =
    elim (find (is_changed_item kind s db id) (items kind db)) [
      | none ↦ ok (none, db)
      | some i ↦
          check_item_id kind id (or_kept (id_of_dto kind dto.id) id) db
          >> throw_if (not (modifier_exists user db)) foreign_key_violation
          >> ok (
            some (patched kind user metadata dto i),
            set_items kind
                (update (is_changed_item kind s db id) (patched kind user metadata dto)
                  (items kind db))
                db,
          )
    ]

unfoldable pub update_item_tx : Kind → Text → UpdateItemDto → Cls → Session → Tx (Option Item)
update_item_tx kind id dto cls s db = find_one_item_in_tx kind id s db >>= λ existing.
    update_item_row kind id cls.user_id (merge_metadata existing.metadata dto.metadata) dto s db
    >>= λ r. log cls (item_activity kind existing.plan_id Action.updated id) s r.1 >>= λ db₂.
        ok (r.0, db₂)

-- `update`; `none` is the undefined that it returns where no row was updated
unfoldable pub update_item : Kind → Text → UpdateItemDto → Cls → Method (Option Item)
update_item kind id dto cls = rls cls (update_item_tx kind id dto cls)

-- DELETE … WHERE id = …; the files of a row that it deletes go with it, by the foreign keys
unfoldable pub delete_item_row : Kind → Text → Session → Db → Db
delete_item_row kind id s db =
    if any (is_changed_item kind s db id) (items kind db)
    then set_items kind (delete (is_changed_item kind s db id) (items kind db))
        (record db { files = without_orphans (delete (refers_to_item kind id) db.files) })
    else db

unfoldable pub remove_item_tx : Kind → Text → Cls → Session → Tx (Unit {0})
remove_item_tx kind id cls s db = find_one_item_in_tx kind id s db >>= λ existing.
    log cls (item_activity kind existing.plan_id Action.deleted id) s (delete_item_row kind id s db)
    >>= λ db₂. ok (tt, db₂)

-- `remove`
unfoldable pub remove_item : Kind → Text → Cls → Method (Unit {0})
remove_item kind id cls = rls cls (remove_item_tx kind id cls)
