-- ===== src/Items/Editing.antt =====
-- What the calls of a user on entries, wishes and messages (src/entries, src/wishes, src/messages)
-- cannot touch.
use legacy_made_api.Prelude.{
  ◌≡◌, refl, ◌∙◌, ap, sym, true, false, not, Option, none, some, List, [], ◌∷◌, arith, Text, truthy,
  Bool-cases, Option-cases, inl, inr,
}
use mathlib.Core.Path.{subst}
use legacy_made_api.Prelude.Results.{ok, ◌>>=◌, >>=-returned}
use legacy_made_api.Prelude.Tables.{update, delete, any, find}
use legacy_made_api.Schema.{Item, Json, Db, Session, as_user, Action}
use legacy_made_api.DbService.{Cls, Tx, rls}
use legacy_made_api.DbService.Keeps.{rls-signed_in, transaction_keeps}
use legacy_made_api.ActivityLog.{LogActivityParams, log}
use legacy_made_api.Sharing.Writes.{returning, ok_state}
use legacy_made_api.Files.Removal.{without_orphans}
use legacy_made_api.Items.Kinds.{Kind, items, set_items, is_changed_item}
use legacy_made_api.Items.Metadata.{merge_metadata}
use legacy_made_api.Items.Writes.{
  CreateItemDto, UpdateItemDto, item_row, patched, item_activity, insert_item, create_item,
  create_item_tx, update_item_row, update_item, update_item_tx, refers_to_item, delete_item_row,
  remove_item, remove_item_tx, find_one_item_in_tx,
}
use legacy_made_api.Items.LockedRows.{
  insert_item-shape, may_edit, locked_rows, select-update, select-delete, Locked, log-Locked,
  set_items-Locked, Locked-refl, items-files, Locked-trans,
}

-- A call of one of the services.
pub data ItemCall : Type 0 where
  create : Kind → Text → Text → CreateItemDto → ItemCall
  change : Kind → Text → UpdateItemDto → ItemCall
  remove : Kind → Text → ItemCall

-- The database after a call, whatever it answers.
unfoldable pub after_call : Cls → ItemCall → Db → Db
after_call cls (ItemCall.create kind fresh_id plan_id dto) db =
    (create_item kind fresh_id plan_id dto cls db).1
after_call cls (ItemCall.change kind id dto) db = (update_item kind id dto cls db).1
after_call cls (ItemCall.remove kind id) db = (remove_item kind id cls db).1

unfoldable pub after_calls : Cls → List ItemCall → Db → Db
after_calls cls [] db = db
after_calls cls (call ∷ calls) db = after_calls cls calls (after_call cls call db)

module _ (cls : Cls) (u : Text) (signed_in : truthy cls.user_id ≡ some u) where
  changed_may_edit :
      (kind : Kind) (id : Text) (db : Db) (i : Item)
      → is_changed_item kind (as_user u) db id i ≡ true
      → not (may_edit cls db i) ≡ false
  changed_may_edit kind id db i h = ground (arith, signed_in)

  insert_item-Locked :
      (kind : Kind) (i : Item) (db db' : Db)
      → insert_item kind i (as_user u) db ≡ ok db'
      → Locked cls db db'
  insert_item-Locked kind i db db' h =
      let (e, allowed) = insert_item-shape kind i (as_user u) db db' h in
      let editable : not (may_edit cls db i) ≡ false = ground (arith, signed_in, allowed) in
      subst (Locked cls db) e (
        set_items-Locked cls kind (i ∷ items kind db) db db (Locked-refl cls db) (rw editable refl))

  update_item_row-Locked :
      (kind : Kind) (id : Text) (user : Option Text) (metadata : List (Text × Json))
      (dto : UpdateItemDto) (db : Db) (r : Option Item × Db)
      → update_item_row kind id user metadata dto (as_user u) db ≡ ok r
      → Locked cls db r.1
  unfolding update_item_row
  update_item_row-Locked kind id user metadata dto db r h =
      elim (Option-cases (find (is_changed_item kind (as_user u) db id) (items kind db))) [
        | inl absent ↦ let e : r ≡ (none, db) = ground arith in rw e (Locked-refl cls db)
        | inr (i, found) ↦
            let set = patched kind user metadata dto in
            let rows = update (is_changed_item kind (as_user u) db id) set (items kind db) in
            let e : set_items kind rows db ≡ r.1 = ground arith in
            subst (Locked cls db) e (
              set_items-Locked cls kind rows db db (Locked-refl cls db) (
                select-update (λ j. not (may_edit cls db j))
                  (is_changed_item kind (as_user u) db id) set (changed_may_edit kind id db)
                  (λ j. refl) (items kind db)))
      ]

  delete_item_row-Locked :
      (kind : Kind) (id : Text) (db : Db) → Locked cls db (delete_item_row kind id (as_user u) db)
  unfolding delete_item_row
  delete_item_row-Locked kind id db =
      elim (Bool-cases (any (is_changed_item kind (as_user u) db id) (items kind db))) [
        | inr absent ↦ rw (delete_item_row, absent) (Locked-refl cls db)
        | inl there ↦
            let files = without_orphans (delete (refers_to_item kind id) db.files) in
            let m = record db { files = files } in
            let same : (k : Kind) → items k m ≡ items k db = λ k. items-files k files db in
            rw (delete_item_row, there)
              (set_items-Locked cls kind
                (delete (is_changed_item kind (as_user u) db id) (items kind db)) db m
                ((refl, refl), λ k. ap (locked_rows cls db) (same k))
                (select-delete (λ j. not (may_edit cls db j))
                    (is_changed_item kind (as_user u) db id) (changed_may_edit kind id db)
                    (items kind db)
                  ∙ ap (locked_rows cls db) (sym (same kind))))
      ]

  logged-Locked :
      {A : Type 0} (p : LogActivityParams) (db m db' : Db) (a b : A)
      → Locked cls db m
      → (log cls p (as_user u) m >>= returning a) ≡ ok (b, db')
      → Locked cls db db'
  logged-Locked p db m db' a b locked h =
      let (d, e, k) = >>=-returned (log cls p (as_user u) m) (returning a) h in
      log-Locked cls p (as_user u) db m db' locked
        (e ∙ ap ok (ok_state (returning a d) a b d db' refl k))

  create_item_tx-Locked :
      (kind : Kind) (fresh_id plan_id : Text) (dto : CreateItemDto) (db db' : Db) (b : Item)
      → create_item_tx kind fresh_id plan_id dto cls (as_user u) db ≡ ok (b, db')
      → Locked cls db db'
  unfolding create_item_tx
  create_item_tx-Locked kind fresh_id plan_id dto db db' b h =
      let i = item_row kind fresh_id plan_id cls.user_id dto in
      let (m, e, k) = >>=-returned (insert_item kind i (as_user u) db) _ h in
      logged-Locked (item_activity kind plan_id Action.created i.id) db m db' i b
        (insert_item-Locked kind i db m e) k

  update_item_tx-Locked :
      (kind : Kind) (id : Text) (dto : UpdateItemDto) (db db' : Db) (b : Option Item)
      → update_item_tx kind id dto cls (as_user u) db ≡ ok (b, db')
      → Locked cls db db'
  unfolding update_item_tx
  update_item_tx-Locked kind id dto db db' b h =
      let (old, _, k) = >>=-returned (find_one_item_in_tx kind id (as_user u) db) _ h in
      let metadata = merge_metadata old.metadata dto.metadata in
      let (r, e, k') =
        >>=-returned (update_item_row kind id cls.user_id metadata dto (as_user u) db) _ k in
      logged-Locked (item_activity kind old.plan_id Action.updated id) db r.1 db' r.0 b
        (update_item_row-Locked kind id cls.user_id metadata dto db r e) k'

  remove_item_tx-Locked :
      (kind : Kind) (id : Text) (db db' : Db) (b : Unit {0})
      → remove_item_tx kind id cls (as_user u) db ≡ ok (b, db')
      → Locked cls db db'
  unfolding remove_item_tx
  remove_item_tx-Locked kind id db db' b h =
      let (old, _, k) = >>=-returned (find_one_item_in_tx kind id (as_user u) db) _ h in
      let m = delete_item_row kind id (as_user u) db in
      logged-Locked (item_activity kind old.plan_id Action.deleted id) db m db' tt b
        (delete_item_row-Locked kind id db) k

  signed_in_keeps :
      {A : Type 0} (body : Session → Tx A) (db : Db)
      → ((a : A) (db' : Db) → body (as_user u) db ≡ ok (a, db') → Locked cls db db')
      → Locked cls db (rls cls body db).1
  signed_in_keeps body db step =
      subst (λ r. Locked cls db r.1) (sym (rls-signed_in cls body u db signed_in))
        (transaction_keeps (body (as_user u)) db (Locked cls db) (Locked-refl cls db) step)

  signed_in_call-Locked : (call : ItemCall) (db : Db) → Locked cls db (after_call cls call db)
  unfolding after_call create_item update_item remove_item
  signed_in_call-Locked (ItemCall.create kind fresh_id plan_id dto) db =
      signed_in_keeps (create_item_tx kind fresh_id plan_id dto cls) db
        (λ b db' h. create_item_tx-Locked kind fresh_id plan_id dto db db' b h)
  signed_in_call-Locked (ItemCall.change kind id dto) db =
      signed_in_keeps (update_item_tx kind id dto cls) db
        (λ b db' h. update_item_tx-Locked kind id dto db db' b h)
  signed_in_call-Locked (ItemCall.remove kind id) db =
      signed_in_keeps (remove_item_tx kind id cls) db
        (λ b db' h. remove_item_tx-Locked kind id db db' b h)

after_call-nobody :
    (cls : Cls) (call : ItemCall) (db : Db)
    → truthy cls.user_id ≡ none
    → after_call cls call db ≡ db
unfolding after_call create_item update_item remove_item
after_call-nobody cls (ItemCall.create kind fresh_id plan_id dto) db h =
    rw (after_call, rls, h) refl
after_call-nobody cls (ItemCall.change kind id dto) db h = rw (after_call, rls, h) refl
after_call-nobody cls (ItemCall.remove kind id) db h = rw (after_call, rls, h) refl

after_call-Locked : (cls : Cls) (call : ItemCall) (db : Db) → Locked cls db (after_call cls call db)
after_call-Locked cls call db = elim (Option-cases (truthy cls.user_id)) [
  | inl nobody ↦ rw (after_call-nobody cls call db nobody) (Locked-refl cls db)
  | inr (u, e) ↦ signed_in_call-Locked cls u e call db
]

after_calls-Locked :
    (cls : Cls) (calls : List ItemCall) (db : Db) → Locked cls db (after_calls cls calls db)
unfolding after_calls
after_calls-Locked cls [] db = Locked-refl cls db
after_calls-Locked cls (call ∷ calls) db =
    Locked-trans cls db (after_call cls call db) (after_calls cls calls (after_call cls call db))
      (after_call-Locked cls call db) (after_calls-Locked cls calls (after_call cls call db))

-- Whatever sequence of calls a request's user makes to create, update and remove entries, wishes and
-- messages, the rows of each table that lie in the plans which the user neither owns nor may edit as
-- a contact stay as they are, in their order.
pub after_calls-locked_rows :
    (cls : Cls) (calls : List ItemCall) (kind : Kind) (db : Db)
    → locked_rows cls db (items kind (after_calls cls calls db))
      ≡ locked_rows cls db (items kind db)
after_calls-locked_rows cls calls kind db = (after_calls-Locked cls calls db).1 kind
