-- ===== src/Files/Links.antt =====
-- How long a share link of src/files/files.service.ts works.
use legacy_made_api.Prelude.{
  ◌≡◌, refl, ◌∙◌, ap, ℕ, Bool, true, false, some, List, [], ◌∷◌, Text, truthy, ltb, arith,
  Bool-cases, inl, inr, if◌then◌else◌,
}
use legacy_made_api.Prelude.Results.{ok, err}
use legacy_made_api.Prelude.Tables.{any, find, update}
use legacy_made_api.TableLaws.{map_option}
use legacy_made_api.Schema.{File, UploadStatus, Db, as_user}
use legacy_made_api.Errors.{not_found}
use legacy_made_api.DbService.{Cls, rls, transaction}
use legacy_made_api.Files.{Access, is_changed_file, update_file, find_one_with_pillar_check}
use legacy_made_api.Files.Storage.{Client, create_presigned_download_url}
use legacy_made_api.Files.Share.{
  share_expiry, set_shared, create_share_tx, create_share_link, is_shared_by, access_shared_file,
}

-- The rows that an UPDATE makes meet a condition that no row met before.
find-update_new :
    {A : Type 0} (g p : A → Bool) (f : A → A)
    → ((x : A) → p x ≡ true → g (f x) ≡ true)
    → (xs : List A) → any g xs ≡ false
    → find g (update p f xs) ≡ map_option f (find p xs)
find-update_new g p f makes [] h = refl
find-update_new g p f makes (x ∷ xs) h = ground (arith, makes x, find-update_new g p f makes xs)

abbrev pub shared_db : ℕ → Text → Text → ℕ → Text → Db → Db
shared_db now token id hours u db =
    update_file (as_user u) id (set_shared token (share_expiry now hours)) db

create_share_link_returns :
    (now : ℕ) (token id u : Text) (hours : ℕ) (cls : Cls) (f : File) (db : Db)
    → truthy cls.user_id ≡ some u
    → find_one_with_pillar_check now cls id Access.modify (as_user u) db ≡ ok f
    → f.upload_status ≡ UploadStatus.complete
    → create_share_link now token id hours cls db ≡ (
      ok (record { share_token = token; expires_at = share_expiry now hours }),
      shared_db now token id hours u db,
    )
unfolding create_share_link create_share_tx
create_share_link_returns now token id u hours cls f db signed_in found complete =
    rw (rls, signed_in, transaction, found, complete) refl

-- Where a user passes the checks of `createShareLink` for a complete file that the policies let the
-- user change, and no file has the new token, the link gives the download URL of the file up to the time
-- of its expiration, and is not found after it.
pub share_link_lasts :
    (client : Client) (now later : ℕ) (token id u url : Text) (hours : ℕ) (cls : Cls) (f : File)
    (db : Db)
    → truthy cls.user_id ≡ some u
    → find_one_with_pillar_check now cls id Access.modify (as_user u) db ≡ ok f
    → find (is_changed_file (as_user u) db id) db.files ≡ some f
    → f.upload_status ≡ UploadStatus.complete
    → any (is_shared_by token) db.files ≡ false
    → client.sign_get f.storage_key ≡ some url
    → let (r, db') = create_share_link now token id hours cls db in
      (r ≡ ok (record { share_token = token; expires_at = share_expiry now hours }))
      × ((access_shared_file client later token db').0
          ≡ (if ltb (share_expiry now hours) later then err not_found else ok url))
unfolding access_shared_file create_presigned_download_url
share_link_lasts client now later token id u url hours cls f db signed_in found changed complete new
      signed =
    let shared : find (is_shared_by token) (shared_db now token id hours u db).files
        ≡ some (set_shared token (share_expiry now hours) f) =
      find-update_new (is_shared_by token) (is_changed_file (as_user u) db id)
        (set_shared token (share_expiry now hours)) (λ x h. ground arith) db.files new
      ∙ ap (map_option (set_shared token (share_expiry now hours))) changed in
    rw (create_share_link_returns now token id u hours cls f db signed_in found complete) (
      refl,
      elim (Bool-cases (ltb (share_expiry now hours) later)) [
        | inl late ↦ rw (transaction, shared, late) refl
        | inr soon ↦ rw (transaction, shared, soon, signed) refl
      ],
    )
