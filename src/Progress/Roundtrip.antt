-- ===== src/Progress/Roundtrip.antt =====
-- What is stored, found and removed by src/progress/progress.service.ts.
use legacy_made_api.Prelude.{
  ◌≡◌, refl, ◌∙◌, ap, Bool, true, false, none, some, List, [], ◌∷◌, Text, truthy, arith, Bool-cases,
  inl, inr, if◌then◌else◌,
}
use legacy_made_api.Prelude.Results.{ok, err}
use legacy_made_api.Prelude.Tables.{any, find, update, delete}
use legacy_made_api.TableLaws.{updated, find-delete-none}
use legacy_made_api.Schema.{
  TrustedContact, Progress, Db, as_user, owner_or_contact, only_edit, every_level, gives_access,
}
use legacy_made_api.Errors.{not_found}
use legacy_made_api.DbService.{Cls, rls, transaction}
use legacy_made_api.Encryption.Statements.{plan_exists}
use legacy_made_api.Progress.{
  has_key, is_visible_key, is_deletable_key, set_data, progress_row, upsert_tx, upsert,
  find_progress_tx, find_progress, remove_progress_tx, remove_progress,
}

edit_is_any :
    (u plan_id : Text) (contacts : List TrustedContact)
    → any (gives_access u only_edit plan_id) contacts ≡ true
    → any (gives_access u every_level plan_id) contacts ≡ true
edit_is_any u plan_id [] h = cc
edit_is_any u plan_id (c ∷ cs) h = ground (arith, edit_is_any u plan_id cs)

writer_reads :
    (u plan_id : Text) (db : Db)
    → owner_or_contact (as_user u) only_edit db plan_id ≡ true
    → owner_or_contact (as_user u) every_level db plan_id ≡ true
writer_reads u plan_id db h = ground (arith, edit_is_any u plan_id db.trusted_contacts)

-- The stored record is the first one that a condition selects, where it selects the record and only
-- rows with its key.
module _ (plan_id key json : Text) (sel : Progress → Bool)
    (good : sel (progress_row plan_id key json) ≡ true)
    (only : (p : Progress) → has_key plan_id key p ≡ false → sel p ≡ false) where
  find_written :
      (rows : List Progress)
      → any (has_key plan_id key) rows ≡ true
      → find sel (update (has_key plan_id key) (set_data json) rows)
        ≡ some (progress_row plan_id key json)
  find_written [] h = cc
  find_written (p ∷ rows) h = elim (Bool-cases (has_key plan_id key p)) [
    | inl hit ↦
        let same : p.plan_id ≡ plan_id = ground arith in
        let named : p.key ≡ key = ground arith in
        let row : updated (has_key plan_id key) (set_data json) p ≡ progress_row plan_id key json =
          rw hit (rw (same, named) refl) in
        ap (λ x. find sel (x ∷ update (has_key plan_id key) (set_data json) rows)) row
        ∙ rw good refl
    | inr miss ↦ rw (miss, only p miss) (find_written rows (ground arith))
  ]

  find_stored :
      (rows : List Progress)
      → find sel (
          if any (has_key plan_id key) rows
          then update (has_key plan_id key) (set_data json) rows
          else progress_row plan_id key json ∷ rows)
        ≡ some (progress_row plan_id key json)
  find_stored rows = elim (Bool-cases (any (has_key plan_id key) rows)) [
    | inl old ↦ rw old (find_written rows old)
    | inr new ↦ rw (new, good) refl
  ]

abbrev stored_db : Text → Text → Text → Db → Db
stored_db plan_id key json db = record db {
  progress =
      if any (has_key plan_id key) db.progress
      then update (has_key plan_id key) (set_data json) db.progress
      else progress_row plan_id key json ∷ db.progress;
}

upsert_tx_returns :
    (plan_id key json u : Text) (db : Db)
    → owner_or_contact (as_user u) only_edit db plan_id ≡ true
    → plan_exists plan_id db ≡ true
    → upsert_tx plan_id key json (as_user u) db
      ≡ ok (progress_row plan_id key json, stored_db plan_id key json db)
unfolding upsert_tx
upsert_tx_returns plan_id key json u db writer there = ground arith

-- Where the policies let a signed-in user write to a plan that exists, a record that the user stores
-- under a key is what the user then finds under this key, whether or not there was one, and after the
-- user has removed it nothing is found.
pub upsert_find_remove :
    (plan_id key json u : Text) (cls : Cls) (db : Db)
    → truthy cls.user_id ≡ some u
    → owner_or_contact (as_user u) only_edit db plan_id ≡ true
    → plan_exists plan_id db ≡ true
    → let (stored, db') = upsert plan_id key json cls db in
      let (removed, db'') = remove_progress plan_id key cls db' in
      (stored ≡ ok (progress_row plan_id key json))
      × ((find_progress plan_id key cls db').0 ≡ ok (progress_row plan_id key json))
      × (removed ≡ ok tt)
      × ((find_progress plan_id key cls db'').0 ≡ err not_found)
unfolding upsert find_progress find_progress_tx remove_progress remove_progress_tx
upsert_find_remove plan_id key json u cls db signed_in writer there =
    let s = as_user u in
    let db' = stored_db plan_id key json db in
    let found : find (is_visible_key s db' plan_id key) db'.progress
        ≡ some (progress_row plan_id key json) =
      find_stored plan_id key json (is_visible_key s db' plan_id key)
        (ground (arith, writer_reads u plan_id db writer)) (λ p h. ground arith) db.progress in
    let deletable : find (is_deletable_key s db' plan_id key) db'.progress
        ≡ some (progress_row plan_id key json) =
      find_stored plan_id key json (is_deletable_key s db' plan_id key) (ground arith)
        (λ p h. ground arith) db.progress in
    let left = delete (is_deletable_key s db' plan_id key) db'.progress in
    let gone : find (is_visible_key s db' plan_id key) left ≡ none =
      find-delete-none (is_visible_key s db' plan_id key) (is_deletable_key s db' plan_id key)
        (λ p h.
          let same : p.plan_id ≡ plan_id = ground arith in
          let named : p.key ≡ key = ground arith in rw (same, named, writer) (ground arith))
        db'.progress in
    let db'' : Db = record db' { progress = left } in
    let e₁ : upsert plan_id key json cls db ≡ (ok (progress_row plan_id key json), db') =
      rw (rls, signed_in, transaction, upsert_tx_returns plan_id key json u db writer there) refl in
    let e₂ : find_progress plan_id key cls db' ≡ (ok (progress_row plan_id key json), db') =
      rw (rls, signed_in, transaction, found) refl in
    let e₃ : remove_progress plan_id key cls db' ≡ (ok tt, db'') =
      rw (rls, signed_in, transaction, deletable) refl in
    let e₄ : (find_progress plan_id key cls db'').0 ≡ err not_found =
      rw (rls, signed_in, transaction, gone) refl in
    rw (e₁, e₂, e₃, e₄) (refl, refl, refl, refl)
