-- ===== src/Items/Reads.antt =====
-- `findAll` and `findOne` of the services of entries, wishes and messages. `now` is what
-- `Date.now()` returns, and `client` the storage that signs the URLs of files.
use legacy_made_api.Prelude.{
  ℕ, Bool, true, ◌&&◌, Option, none, some, List, [], ◌∷◌, map, Text, truthy, ◌==◌,
}
use legacy_made_api.Prelude.Order.{ℤ, order_by}
use legacy_made_api.Prelude.Results.{ok, err, ◌>>=◌}
use legacy_made_api.Prelude.Tables.{select}
use legacy_made_api.Schema.{Metadata, Item, File, Db, Session}
use legacy_made_api.DbService.{Cls, Tx, Method, rls}
use legacy_made_api.Entitlements.Status.{QuotaStatus, get_quota_status_in_tx}
use legacy_made_api.Files.{FileResponseDto, find_by_ids, find_all_for, to_file_responses}
use legacy_made_api.Files.Storage.{Client}
use legacy_made_api.Items.Kinds.{Kind, items, item_readable, file_column, quota_feature}
use legacy_made_api.Items.Grouping.{group_by, group}
use legacy_made_api.Items.Writes.{find_one_item_in_tx}

-- `EntryResponseDto`, `WishResponseDto` and `MessageResponseDto`
pub record ItemResponseDto : Type 0 where
  pub id : Text
  pub plan_id : Text
  pub task_key : Text
  pub title : Option Text
  pub notes : Option Text
  pub sort_order : ℤ
  pub completion_status : Option Text
  pub metadata : Metadata
  pub metadata_schema : Option Text
  pub files : List FileResponseDto

-- `EntriesListResponse`, `WishesListResponse` and `MessagesListResponse`
pub record ItemsListResponse : Type 0 where
  pub data_list : List ItemResponseDto
  pub quota : QuotaStatus

-- `toEntryResponse`, `toWishResponse` and `toMessageResponse`
unfoldable pub to_item_response : Item → List FileResponseDto → ItemResponseDto
to_item_response i files = record {
  id = i.id;
  plan_id = i.plan_id;
  task_key = i.task_key;
  title = i.title;
  notes = i.notes;
  sort_order = i.sort_order;
  completion_status = i.completion_status;
  metadata = i.metadata;
  metadata_schema = i.metadata_schema;
  files = files;
}

-- `if (query?.taskKey)` and its condition
abbrev pub has_task_key : Option Text → Item → Bool
has_task_key none i = true
has_task_key (some k) i = i.task_key == k

abbrev pub is_listed : Kind → Session → Db → Text → Option Text → Item → Bool
is_listed kind s db plan_id task_key i =
    item_readable kind s db i && (i.plan_id == plan_id && has_task_key (truthy task_key) i)

abbrev pub item_ids : List Item → List Text
item_ids [] = []
item_ids (i ∷ rest) = i.id ∷ item_ids rest

abbrev pub sort_order_of : Item → ℤ
sort_order_of i = i.sort_order

-- The rows of the query of `findAll`.
unfoldable pub listed_items : Kind → Text → Option Text → Session → Db → List Item
listed_items kind plan_id task_key s db =
    order_by sort_order_of (select (is_listed kind s db plan_id task_key) (items kind db))

unfoldable pub find_all_items_tx :
    ℕ → Kind → Text → Option Text → Cls → Session → Tx (List Item × QuotaStatus)
find_all_items_tx now kind plan_id task_key cls s db =
    get_quota_status_in_tx now cls (quota_feature kind) s db >>= λ quota.
    ok ((listed_items kind plan_id task_key s db, quota), db)

-- the response of one row of the list, by the grouped files
abbrev pub grouped_response :
    Client → (Text → Bool) → List (Option Text × List File) → Item → ItemResponseDto
grouped_response client is_image groups i =
    to_item_response i (to_file_responses client is_image (group groups (some i.id)))

-- The part of `findAll` behind its early return.
unfoldable pub with_files :
    Client → (Text → Bool) → Kind → List Item → QuotaStatus → Cls → Method ItemsListResponse
with_files client is_image kind [] quota cls db =
    (ok (record { data_list = []; quota = quota }), db)
with_files client is_image kind (i ∷ rest) quota cls db =
    let (files, db') = find_by_ids (file_column kind) (item_ids (i ∷ rest)) cls db in
    elim files [
      | err e ↦ (err e, db')
      | ok all_files ↦ (
        ok (record {
          data_list =
              map (grouped_response client is_image (group_by all_files (file_column kind)))
                (i ∷ rest);
          quota = quota;
        }),
        db',
      )
    ]

-- `findAll`
unfoldable pub find_all_items :
    Client → (Text → Bool) → ℕ → Kind → Text → Option Text → Cls → Method ItemsListResponse
find_all_items client is_image now kind plan_id task_key cls db =
    let (found, db') = rls cls (find_all_items_tx now kind plan_id task_key cls) db in
    elim found [ err e ↦ (err e, db') | ok r ↦ with_files client is_image kind r.0 r.1 cls db' ]

unfoldable pub find_item_tx : Kind → Text → Session → Tx Item
find_item_tx kind id s db = find_one_item_in_tx kind id s db >>= λ i. ok (i, db)

-- The part of `findOne` behind its transaction.
unfoldable pub with_own_files :
    Client → (Text → Bool) → Kind → Item → Text → Cls → Method ItemResponseDto
with_own_files client is_image kind i id cls db =
    let (files, db') = find_all_for (file_column kind) id cls db in
    elim files [
      | err e ↦ (err e, db')
      | ok own ↦ (ok (to_item_response i (to_file_responses client is_image own)), db')
    ]

-- `findOne`
unfoldable pub find_one_item : Client → (Text → Bool) → Kind → Text → Cls → Method ItemResponseDto
find_one_item client is_image kind id cls db =
    let (found, db') = rls cls (find_item_tx kind id) db in
    elim found [ err e ↦ (err e, db') | ok i ↦ with_own_files client is_image kind i id cls db' ]
