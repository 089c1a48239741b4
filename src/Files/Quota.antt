-- ===== src/Files/Quota.antt =====
-- `initiateUpload` of src/files/files.service.ts beside the quota of storage of
-- src/entitlements/entitlements.service.ts.
use legacy_made_api.Prelude.{
  ◌≡◌, refl, sym, ◌∙◌, ap, ℕ, ◌≤◌, Bool, true, false, Option, some, ◌∷◌, Text, truthy, ltb, ◌==◌,
  arith, Bool-cases, inl, inr,
}
use mathlib.Core.Path.{subst}
use legacy_made_api.Prelude.Results.{ok, ◌>>◌, >>=-returned}
use legacy_made_api.Prelude.Tables.{any, update}
use legacy_made_api.TableLaws.{update_none, All-of_not_any, All-map}
use legacy_made_api.Schema.{File, Db, Session, as_user, SubscriptionTier}
use legacy_made_api.DbService.{Cls}
use legacy_made_api.DbService.Keeps.{transaction-ok, rls-signed_in}
use legacy_made_api.Entitlements.Types.{QuotaFeature, at_most}
use legacy_made_api.Entitlements.Config.{tier_config}
use legacy_made_api.Entitlements.Service.{
  get_tier_in_tx, get_usage_in_tx, require_file_size_quota_in_tx,
}
use legacy_made_api.Entitlements.UsageProofs.{HasPlanKey, HasItemKeys, HasOneParent}
use legacy_made_api.Entitlements.QuotaProofs.{require_file_size_keeps_limit}
use legacy_made_api.Files.{is_changed_file, update_file}
use legacy_made_api.Files.Storage.{
  Client, create_multipart_upload, get_part_upload_urls, create_presigned_upload_url,
}
use legacy_made_api.Files.Upload.{
  FileParent, InitiateUploadDto, UploadInitResult, num_parts, verify_parent_exists,
  find_parent_file, new_file, insert_file, set_uploading, start_upload, initiate_tx,
  initiate_upload,
}

new_file-HasOneParent :
    (now : ℕ) (id storage_key : Text) (parent : FileParent) (parent_file_id : Option Text)
    (dto : InitiateUploadDto)
    → HasOneParent (new_file now id storage_key parent parent_file_id dto)
new_file-HasOneParent now id storage_key (FileParent.entry i) p dto = inl (refl, refl)
new_file-HasOneParent now id storage_key (FileParent.wish i) p dto = inr (inl (refl, refl))
new_file-HasOneParent now id storage_key (FileParent.message i) p dto = inr (inr (refl, refl))

start_upload_adds :
    (client : Client) (now : ℕ) (multipart : Bool) (s : Session) (f : File) (db db' : Db)
    (r : UploadInitResult)
    → any (λ (x : File). x.id == f.id) db.files ≡ false
    → start_upload client now multipart s f (record db { files = f ∷ db.files }) ≡ ok (r, db')
    → (f' : File) × (db' ≡ record db { files = f' ∷ db.files })
      × (f'.size_bytes ≡ f.size_bytes)
      × (HasOneParent f → HasOneParent f')
unfolding start_upload
start_upload_adds client now false s f db db' r new h =
    let (url, _, k) =
      >>=-returned (create_presigned_upload_url client f.storage_key f.mime_type) _ h in
    let same : db' ≡ record db { files = f ∷ db.files } = cc in (f, same, refl, λ one. one)
start_upload_adds client now true s f db db' r new h =
    let (upload_id, _, k) =
      >>=-returned (create_multipart_upload client f.storage_key f.mime_type) _ h in
    let (parts, _, k₁) =
      >>=-returned (get_part_upload_urls client f.storage_key upload_id (num_parts f.size_bytes)) _
        k in
    let added : Db = record db { files = f ∷ db.files } in
    let p = is_changed_file s added f.id in
    let same : db' ≡ update_file s f.id set_uploading added = cc in
    let rest : update p set_uploading db.files ≡ db.files = update_none p set_uploading db.files (
      All-map (λ x. (x.id == f.id) ≡ false) (λ x. p x ≡ false) (λ x other. ground arith) db.files
        (All-of_not_any (λ (x : File). x.id == f.id) db.files new)) in
    elim (Bool-cases (p f)) [
      | inl hit ↦ (set_uploading f, same ∙ rw (hit, rest) refl, refl, λ one. one)
      | inr miss ↦ (f, same ∙ rw (miss, rest) refl, refl, λ one. one)
    ]

insert_file_adds :
    (s : Session) (f : File) (db db' : Db)
    → insert_file s f db ≡ ok db'
    → (any (λ (x : File). x.id == f.id) db.files ≡ false)
      × (db' ≡ record db { files = f ∷ db.files })
unfolding insert_file
insert_file_adds s f db db' h = (ground arith, ground arith)

-- Where `initiateUpload` returns for a signed-in user whose tier limits the storage to n megabytes, the
-- megabytes in use afterwards, the new file's counted in, are at most n. Plan and item ids are distinct.
pub initiate_upload_keeps_limit :
    (client : Client) (threshold now n k : ℕ) (id storage_key u : Text) (parent : FileParent)
    (dto : InitiateUploadDto) (cls : Cls) (db db' : Db) (tier : SubscriptionTier)
    (r : UploadInitResult)
    → HasPlanKey db
    → HasItemKeys db
    → truthy cls.user_id ≡ some u
    → get_tier_in_tx now cls (as_user u) db ≡ ok tier
    → (tier_config tier).quotas QuotaFeature.storage_mb ≡ at_most n
    → initiate_upload client threshold now id storage_key parent dto cls db ≡ (ok r, db')
    → get_usage_in_tx cls QuotaFeature.storage_mb (as_user u) db' ≡ ok k
    → k ≤ n
unfolding initiate_upload initiate_tx
initiate_upload_keeps_limit client threshold now n k id storage_key u parent dto cls db db' tier r
      plans items signed_in t limit h used =
    let s = as_user u in
    let h₀ : initiate_tx client threshold now id storage_key parent dto cls s db ≡ ok (r, db') =
      transaction-ok (initiate_tx client threshold now id storage_key parent dto cls s) db db' (
        sym (
          rls-signed_in cls (initiate_tx client threshold now id storage_key parent dto cls) u db
            signed_in)
        ∙ h) in
    let (parent_file, e₁, h₁) =
      >>=-returned
        (verify_parent_exists s db parent
          >> require_file_size_quota_in_tx now cls dto.size_bytes s db
          >> find_parent_file (truthy dto.parent_file_id) parent s db)
        _ h₀ in
    let f = new_file now id storage_key parent parent_file dto in
    let (_, fits, _) =
      >>=-returned
        (verify_parent_exists s db parent
          >> require_file_size_quota_in_tx now cls dto.size_bytes s db)
        _ e₁ in
    let (_, _, quota) = >>=-returned (verify_parent_exists s db parent) _ fits in
    let (db₁, e₂, h₂) = >>=-returned (insert_file s f db) _ h₁ in
    let (new, added) = insert_file_adds s f db db₁ e₂ in
    let (f', same, size, one) =
      start_upload_adds client now (ltb threshold dto.size_bytes) s f db db' r new
        (ap (start_upload client now (ltb threshold dto.size_bytes) s f) (sym added) ∙ h₂) in
    require_file_size_keeps_limit now n k cls s f' db tier plans items
      (one (new_file-HasOneParent now id storage_key parent parent_file dto)) t limit
      (rw size quota)
      (subst (λ d. get_usage_in_tx cls QuotaFeature.storage_mb s d ≡ ok k) same used)
