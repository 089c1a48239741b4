-- ===== src/Items/Listing.antt =====
-- `findAll` against `findOne` (src/entries, src/wishes, src/messages).
use legacy_made_api.Prelude.{
  ℕ, ◌≡◌, refl, ◌∙◌, ap, Bool, true, ◌&&◌, Option, some, List, [], ◌∷◌, map, arith, Text, truthy,
  ◌==◌,
}
use mathlib.Core.Path.{ap₂}
use legacy_made_api.Prelude.Results.{ok, err}
use legacy_made_api.Prelude.Tables.{any, select, All}
use legacy_made_api.Prelude.Order.{order_by}
use legacy_made_api.TableLaws.{All-map}
use legacy_made_api.TableLaws.Ordered.{select-order_by}
use legacy_made_api.Schema.{Item, File, Db, Session, as_user, file_readable}
use legacy_made_api.Errors.{Result}
use legacy_made_api.DbService.{Cls, rls, transaction}
use legacy_made_api.Entitlements.Status.{QuotaStatus, get_quota_status_in_tx}
use legacy_made_api.Files.{refers, refers_to_any, find_by_ids, created_at_of, to_file_responses}
use legacy_made_api.Files.Storage.{Client}
use legacy_made_api.Items.Kinds.{Kind, file_column, quota_feature}
use legacy_made_api.Items.Grouping.{group_by, option_eq}
use legacy_made_api.Items.Batch.{group-group_by, select_one_of}
use legacy_made_api.Items.Reads.{
  ItemResponseDto, ItemsListResponse, item_ids, to_item_response, listed_items, grouped_response,
  with_files, find_all_items_tx, find_all_items,
}

-- The files of a row, by a query of its own.
abbrev pub own_files : Kind → Session → Db → Item → List File
own_files kind s db i =
    select (λ f. file_readable s db f && refers i.id (file_column kind f)) db.files

own_ids : (rows : List Item) → All (λ j. any (λ id. j.id == id) (item_ids rows) ≡ true) rows
own_ids [] = tt
own_ids (i ∷ rest) = (
  ground arith,
  All-map (λ j. any (λ id. j.id == id) (item_ids rest) ≡ true)
      (λ j. any (λ id. j.id == id) (item_ids (i ∷ rest)) ≡ true) (λ j h. ground (arith, h)) rest
      (own_ids rest),
)

module _ (client : Client) (is_image : Text → Bool) where
  -- The response of a row with a query of its own for its files.
  abbrev pub own_response : Kind → Session → Db → Item → ItemResponseDto
  own_response kind s db i =
      to_item_response i (to_file_responses client is_image (own_files kind s db i))

  -- The same with the files in the order of their creation.
  abbrev pub listed_response : Kind → Session → Db → Item → ItemResponseDto
  listed_response kind s db i =
      to_item_response i
        (to_file_responses client is_image (order_by created_at_of (own_files kind s db i)))

  -- The files of several rows, as the batch finds them.
  abbrev found_files : Kind → Session → Db → List Text → List File
  found_files kind s db ids =
      select (λ f. file_readable s db f && refers_to_any ids (file_column kind f)) db.files

  abbrev batch_files : Kind → Session → Db → List Text → List File
  batch_files kind s db ids = order_by created_at_of (found_files kind s db ids)

  grouped-own :
      (kind : Kind) (s : Session) (db : Db) (ids : List Text) (i : Item)
      → any (λ id. i.id == id) ids ≡ true
      → grouped_response client is_image (group_by (batch_files kind s db ids) (file_column kind)) i
        ≡ listed_response kind s db i
  grouped-own kind s db ids i there =
      ap (λ files. to_item_response i (to_file_responses client is_image files))
        (group-group_by (batch_files kind s db ids) (file_column kind) (some i.id)
          ∙ select-order_by created_at_of (λ f. option_eq (file_column kind f) (some i.id))
              (found_files kind s db ids)
          ∙ ap (order_by created_at_of)
              (select_one_of (file_readable s db) (file_column kind) ids i.id there db.files))

  map-own :
      (kind : Kind) (s : Session) (db : Db) (ids : List Text) (rows : List Item)
      → All (λ j. any (λ id. j.id == id) ids ≡ true) rows
      → map
          (grouped_response client is_image
            (group_by (batch_files kind s db ids) (file_column kind)))
          rows
        ≡ map (listed_response kind s db) rows
  map-own kind s db ids [] h = refl
  map-own kind s db ids (i ∷ rows) h =
      ap₂ ◌∷◌ (grouped-own kind s db ids i h.0) (map-own kind s db ids rows h.1)

  with_files-own :
      (kind : Kind) (rows : List Item) (quota : QuotaStatus) (cls : Cls) (u : Text) (db : Db)
      → truthy cls.user_id ≡ some u
      → with_files client is_image kind rows quota cls db ≡ (
        ok (record { data_list = map (listed_response kind (as_user u) db) rows; quota = quota }),
        db,
      )
  unfolding with_files find_by_ids
  with_files-own kind [] quota cls u db h = refl
  with_files-own kind (i ∷ rest) quota cls u db h =
      let ids = item_ids (i ∷ rest) in
      let found : find_by_ids (file_column kind) ids cls db
          ≡ (ok (batch_files kind (as_user u) db ids), db) =
        rw (find_by_ids, rls, h) refl in
      rw
        (
          with_files,
          ap (λ r. r.0) found,
          ap (λ r. r.1) found,
          map-own kind (as_user u) db ids (i ∷ rest) (own_ids (i ∷ rest)),
        )
        refl

  -- What `findAll` answers, with a query for each row in place of the batch.
  abbrev pub one_by_one : ℕ → Kind → Text → Option Text → Cls → Text → Db → Result ItemsListResponse
  one_by_one now kind plan_id task_key cls u db =
      elim (get_quota_status_in_tx now cls (quota_feature kind) (as_user u) db) [
        | err e ↦ err e
        | ok quota ↦ ok (record {
          data_list =
              map (listed_response kind (as_user u) db)
                (listed_items kind plan_id task_key (as_user u) db);
          quota = quota;
        })
      ]

  -- For a signed-in user, `findAll` answers with the visible rows of the plan and of the task key, in
  -- their order, each with the files that a query of its own would find, in the order of their
  -- creation, or with the error of the quota; it changes nothing.
  pub find_all_items-eq-one_by_one :
      (now : ℕ) (kind : Kind) (plan_id : Text) (task_key : Option Text) (cls : Cls) (u : Text)
      (db : Db)
      → truthy cls.user_id ≡ some u
      → find_all_items client is_image now kind plan_id task_key cls db
        ≡ (one_by_one now kind plan_id task_key cls u db, db)
  unfolding find_all_items find_all_items_tx
  find_all_items-eq-one_by_one now kind plan_id task_key cls u db h =
      by_quota (get_quota_status_in_tx now cls (quota_feature kind) (as_user u) db) refl
    where
      by_quota :
          (r : Result QuotaStatus)
          → get_quota_status_in_tx now cls (quota_feature kind) (as_user u) db ≡ r
          → find_all_items client is_image now kind plan_id task_key cls db
            ≡ (one_by_one now kind plan_id task_key cls u db, db)
      by_quota (err e) q =
          let found : rls cls (find_all_items_tx now kind plan_id task_key cls) db ≡ (err e, db) =
            rw (rls, h, transaction, q) refl in
          rw (find_all_items, ap (λ r. r.0) found, ap (λ r. r.1) found, one_by_one, q) refl
      by_quota (ok quota) q =
          let rows = listed_items kind plan_id task_key (as_user u) db in
          let found : rls cls (find_all_items_tx now kind plan_id task_key cls) db
              ≡ (ok (rows, quota), db) =
            rw (rls, h, transaction, q) refl in
          rw
            (
              find_all_items,
              ap (λ r. r.0) found,
              ap (λ r. r.1) found,
              with_files-own kind rows quota cls u db h,
              one_by_one,
              q,
            )
            refl
