-- ===== src/Items/Silent.antt =====
-- `update` and `remove` (src/entries, src/wishes, src/messages) of a row that the policies show but do
-- not let be changed.
use legacy_made_api.Prelude.{
  ◌≡◌, refl, Bool, true, false, none, some, List, [], ◌∷◌, arith, Text, truthy, Bool-cases, inl,
  inr,
}
use mathlib.Core.Path.{subst}
use legacy_made_api.Prelude.Results.{ok}
use legacy_made_api.Prelude.Tables.{any, find, Distinct}
use legacy_made_api.TableLaws.{found_is_only}
use legacy_made_api.Schema.{Item, Db, as_user, Action}
use legacy_made_api.DbService.{Cls, rls, transaction}
use legacy_made_api.Items.Kinds.{Kind, items, read_levels, is_item}
use legacy_made_api.Items.Writes.{item_activity}
use legacy_made_api.Items.Levels.{wider_levels}
use legacy_made_api.Items.Kinds.{item_modifiable, is_changed_item}
use legacy_made_api.Items.Writes.{
  UpdateItemDto, update_item, update_item_tx, update_item_row, remove_item, remove_item_tx,
  delete_item_row, find_one_item_in_tx,
}
use legacy_made_api.Items.Agreement.{item_key}
use legacy_made_api.Prelude.Tables.{All}
use legacy_made_api.TableLaws.{All-map, find_sound}
use legacy_made_api.Encryption.Statements.{user_exists}
use legacy_made_api.PlanAccess.{has_plan_id}
use legacy_made_api.Sharing.Writes.{log_returns}
use legacy_made_api.ActivityLog.{activity, LogActivityParams}
use legacy_made_api.Schema.{every_level}

module _ {A : Type 0} (p : A → Bool) where
  none_found : (xs : List A) → All (λ x. p x ≡ false) xs → (find p xs ≡ none) × (any p xs ≡ false)
  none_found [] h = (refl, refl)
  none_found (x ∷ xs) h = ground (arith, none_found xs h.1)

-- The database with one more line in the activity log.
abbrev pub with_line : Cls → Text → LogActivityParams → Db → Db
with_line cls u p db = record db { plan_activity_log = activity cls u p ∷ db.plan_activity_log }

module _ (kind : Kind) (id : Text) (cls : Cls) (u : Text) (i : Item) (db : Db)
    (signed_in : truthy cls.user_id ≡ some u) (keys : Distinct item_key (items kind db))
    (found : find (is_item kind (as_user u) db id) (items kind db) ≡ some i)
    (locked : item_modifiable (as_user u) db i ≡ false) where
  nothing_changes : All (λ x. is_changed_item kind (as_user u) db id x ≡ false) (items kind db)
  nothing_changes =
      All-map (λ x. item_key x ≡ item_key i → x ≡ i)
        (λ x. is_changed_item kind (as_user u) db id x ≡ false)
        (λ x only. elim (Bool-cases (is_changed_item kind (as_user u) db id x)) [
          | inr other ↦ other
          | inl changed ↦
              let same = find_sound (is_item kind (as_user u) db id) (items kind db) found in
              let e : x ≡ i = only (ground arith) in
              let editable : item_modifiable (as_user u) db i ≡ true =
                subst (λ j. item_modifiable (as_user u) db j ≡ true) e (ground arith) in
              absurd (ground (arith, editable, locked))
        ])
        (items kind db)
        (found_is_only item_key (is_item kind (as_user u) db id) (items kind db) i keys found)

  -- If the user may read a row but not edit its plan, `update` and `remove` answer without an
  -- error, the one with no row and the other as if it had deleted; they leave every row as it is and
  -- write a line into the plan's activity log. Ids are distinct, the user and the plan exist.
  pub writes_without_edit :
      (dto : UpdateItemDto)
      → user_exists u db ≡ true
      → any (has_plan_id i.plan_id) db.plans ≡ true
      → (update_item kind id dto cls db
          ≡ (ok none, with_line cls u (item_activity kind i.plan_id Action.updated id) db))
        × (remove_item kind id cls db
            ≡ (ok tt, with_line cls u (item_activity kind i.plan_id Action.deleted id) db))
  unfolding update_item update_item_tx update_item_row remove_item remove_item_tx delete_item_row
      find_one_item_in_tx
  writes_without_edit dto user plan =
      let (no_row, none_there) =
        none_found (is_changed_item kind (as_user u) db id) (items kind db) nothing_changes in
      let here = find_sound (is_item kind (as_user u) db id) (items kind db) found in
      let visible =
        wider_levels (read_levels kind) every_level (λ l h. refl) u db i.plan_id (ground arith) in
      let line = λ (action : Action).
        log_returns cls (item_activity kind i.plan_id action id) (as_user u) u db signed_in visible
          plan user in
      let changed : update_item_tx kind id dto cls (as_user u) db
          ≡ ok (none, with_line cls u (item_activity kind i.plan_id Action.updated id) db) =
        rw (found, update_item_row, no_row, line Action.updated) refl in
      let removed : remove_item_tx kind id cls (as_user u) db
          ≡ ok (tt, with_line cls u (item_activity kind i.plan_id Action.deleted id) db) =
        rw (found, delete_item_row, none_there, line Action.deleted) refl in
      (
        rw (rls, signed_in, transaction, changed) refl,
        rw (rls, signed_in, transaction, removed) refl,
      )
