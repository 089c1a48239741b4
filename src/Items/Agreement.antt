-- ===== src/Items/Agreement.antt =====
-- What `findOne` answers (src/entries, src/wishes, src/messages) for a row that is there.
use legacy_made_api.Prelude.{ℕ, ◌≡◌, refl, ap, Bool, some, Text, truthy}
use legacy_made_api.Prelude.Results.{ok}
use legacy_made_api.Prelude.Tables.{find}
use legacy_made_api.Schema.{Item, Db, as_user}
use legacy_made_api.DbService.{Cls, rls, transaction}
use legacy_made_api.Files.{find_all_for}
use legacy_made_api.Files.Storage.{Client}
use legacy_made_api.Items.Kinds.{Kind, items, is_item, file_column}
use legacy_made_api.Items.Writes.{find_one_item_in_tx}
use legacy_made_api.Items.Reads.{find_item_tx, with_own_files, find_one_item}
use legacy_made_api.Items.Listing.{own_files, own_response}

abbrev pub item_key : Item → ℕ
item_key i = i.id

module _ (client : Client) (is_image : Text → Bool) (kind : Kind) (cls : Cls) (u : Text)
    (db : Db) where
  pub find_one-own :
      (i : Item)
      → truthy cls.user_id ≡ some u
      → find (is_item kind (as_user u) db i.id) (items kind db) ≡ some i
      → find_one_item client is_image kind i.id cls db
        ≡ (ok (own_response client is_image kind (as_user u) db i), db)
  unfolding find_one_item find_item_tx find_one_item_in_tx find_all_for with_own_files
  find_one-own i h e =
      let found : rls cls (find_item_tx kind i.id) db ≡ (ok i, db) =
        rw (rls, h, transaction, e) refl in
      let files : find_all_for (file_column kind) i.id cls db
          ≡ (ok (own_files kind (as_user u) db i), db) =
        rw (find_all_for, rls, h) refl in
      let own : with_own_files client is_image kind i i.id cls db
          ≡ (ok (own_response client is_image kind (as_user u) db i), db) =
        rw (with_own_files, ap (λ r. r.0) files, ap (λ r. r.1) files) refl in
      rw (find_one_item, ap (λ r. r.0) found, ap (λ r. r.1) found) own
