-- ===== src/Items/Returned.antt =====
-- A row that `create` or `update` returned is found by `findOne` (src/entries, src/wishes,
-- src/messages).
use legacy_made_api.Prelude.{◌≡◌, refl, ◌∙◌, ap, sym, Bool, true, some, ◌∷◌, arith, Text, truthy}
use mathlib.Core.Path.{subst, ap₂}
use legacy_made_api.Prelude.Results.{ok, >>=-returned}
use legacy_made_api.Schema.{Item, Db, as_user, Action, owner_or_contact, only_edit}
use legacy_made_api.Errors.{Result}
use legacy_made_api.DbService.{Cls}
use legacy_made_api.DbService.Keeps.{rls-signed_in, transaction-ok}
use legacy_made_api.ActivityLog.{log}
use legacy_made_api.Sharing.Writes.{SameAccess, SameAccess-trans, log-SameAccess, returning}
use legacy_made_api.Files.Storage.{Client}
use legacy_made_api.Items.Kinds.{Kind, items, item_readable}
use legacy_made_api.Items.Writes.{
  CreateItemDto, item_row, item_activity, insert_item, create_item, create_item_tx,
}
use legacy_made_api.Items.Reads.{find_one_item}
use legacy_made_api.Items.Listing.{own_response}
use legacy_made_api.Items.Agreement.{find_one-own}
use legacy_made_api.Items.Levels.{editor_reads}
use legacy_made_api.Items.LockedRows.{
  log-items, insert_item-shape, items-set_items, set_items-SameAccess,
}

returned_pair : (r : Result (Item × Db)) (p q : Item × Db) → r ≡ ok p → r ≡ ok q → p ≡ q
returned_pair r p q g h = cc

readable_as_before :
    (kind : Kind) (u : Text) (db db' : Db) (i : Item)
    → SameAccess db db'
    → item_readable kind (as_user u) db' i ≡ item_readable kind (as_user u) db i
readable_as_before kind u db db' i (contacts, plans) =
    ap₂ (λ c p. item_readable kind (as_user u) (record db { trusted_contacts = c; plans = p }) i)
      contacts plans

module _ (kind : Kind) (cls : Cls) (u : Text) (signed_in : truthy cls.user_id ≡ some u) where
  created_item :
      (fresh_id plan_id : Text) (dto : CreateItemDto) (db db' : Db) (i : Item)
      → create_item_tx kind fresh_id plan_id dto cls (as_user u) db ≡ ok (i, db')
      → (i ≡ item_row kind fresh_id plan_id cls.user_id dto)
        × (items kind db' ≡ i ∷ items kind db)
        × (owner_or_contact (as_user u) only_edit db i.plan_id ≡ true)
        × SameAccess db db'
  unfolding create_item_tx
  created_item fresh_id plan_id dto db db' i h =
      let row = item_row kind fresh_id plan_id cls.user_id dto in
      let line = item_activity kind plan_id Action.created row.id in
      let (m, e, k) = >>=-returned (insert_item kind row (as_user u) db) _ h in
      let (d, l, k') = >>=-returned (log cls line (as_user u) m) (returning row) k in
      let (shape, allowed) = insert_item-shape kind row (as_user u) db m e in
      let stored =
        log-items cls line (as_user u) kind m d l
        ∙ sym (ap (items kind) shape)
        ∙ items-set_items kind (row ∷ items kind db) db in
      let same : SameAccess db d =
        SameAccess-trans db m d
          (subst (SameAccess db) shape (set_items-SameAccess kind (row ∷ items kind db) db))
          (log-SameAccess cls line (as_user u) m d l) in
      subst
        (λ (r : Item × Db).
          (r.0 ≡ row)
          × (items kind r.1 ≡ r.0 ∷ items kind db)
          × (owner_or_contact (as_user u) only_edit db r.0.plan_id ≡ true)
          × SameAccess db r.1)
        (returned_pair (returning row d) (row, d) (i, db') refl k') (refl, stored, allowed, same)

  -- What `create` returned is the row that `findOne` then finds for its id, with its files.
  pub created_is_found :
      (client : Client) (is_image : Text → Bool) (fresh_id plan_id : Text) (dto : CreateItemDto)
      (db db' : Db) (i : Item)
      → create_item kind fresh_id plan_id dto cls db ≡ (ok i, db')
      → find_one_item client is_image kind i.id cls db'
        ≡ (ok (own_response client is_image kind (as_user u) db' i), db')
  unfolding create_item
  created_is_found client is_image fresh_id plan_id dto db db' i h =
      let body = create_item_tx kind fresh_id plan_id dto cls in
      let (_, stored, allowed, same) = created_item fresh_id plan_id dto db db' i (
        transaction-ok (body (as_user u)) db db'
          (sym (rls-signed_in cls body u db signed_in) ∙ h)) in
      let readable : item_readable kind (as_user u) db' i ≡ true =
        readable_as_before kind u db db' i same ∙ editor_reads kind u db i.plan_id allowed in
      find_one-own client is_image kind cls u db' i signed_in (rw stored (ground (arith, readable)))
