-- ===== src/Files/Upload.antt =====
-- `initiateUpload` and `completeUpload` of src/files/files.service.ts. The new row's id and storage key
-- and the configured threshold are parameters.
use legacy_made_api.Prelude.{
  ℕ, ◌+◌, ◌*◌, ◌-◌, ◌/◌, Bool, true, false, not, Option, none, some, List, [], ◌∷◌, Text, truthy,
  ltb, ◌==◌, if◌then◌else◌,
}
use legacy_made_api.Prelude.Results.{ok, err, ◌>>=◌, ◌>>◌, throw_if, or_throw}
use legacy_made_api.Prelude.Tables.{any, find}
use legacy_made_api.Schema.{
  File, UploadStatus, FileAccess, is_complete, Db, Session, has_item, file_modifiable,
  edit_or_full_view, every_level,
}
use legacy_made_api.Errors.{
  Result, not_found, bad_request, internal, unique_violation, rls_violation,
}
use legacy_made_api.DbService.{Cls, Tx, Method, rls}
use legacy_made_api.Entitlements.Service.{require_file_size_quota_in_tx}
use legacy_made_api.Files.{
  Access, is_file, is_changed_file, update_file, find_one_with_pillar_check, FileResponseDto,
  to_file_response,
}
use legacy_made_api.Files.Storage.{
  Client, CompletedPart, MultipartUploadPart, create_multipart_upload, get_part_upload_urls,
  create_presigned_upload_url,
}

-- `FileParent`
pub data FileParent : Type 0 where
  entry wish message : Text → FileParent

pub record InitiateUploadDto : Type 0 where
  pub role : Text
  pub parent_file_id : Option Text
  pub filename : Text
  pub mime_type : Text
  pub size_bytes : ℕ
  pub is_encrypted : Bool

pub record UploadInitResult : Type 0 where
  pub file_id : Text
  pub upload_url : Option Text
  pub expires_at : ℕ
  pub upload_id : Option Text
  pub parts : Option (List MultipartUploadPart)

-- PART_SIZE
abbrev pub part_size : ℕ
part_size = 100 * 1024 * 1024

-- `Math.ceil(sizeBytes / PART_SIZE)`
unfoldable pub num_parts : ℕ → ℕ
num_parts size_bytes = (size_bytes + (part_size - 1)) / part_size

abbrev pub parent_id : FileParent → Text
parent_id (FileParent.entry id) = id
parent_id (FileParent.wish id) = id
parent_id (FileParent.message id) = id

-- The SELECT of `verifyParentExists`, under the policies of the three tables
unfoldable pub parent_exists : Session → Db → FileParent → Bool
parent_exists s db (FileParent.entry id) = has_item s edit_or_full_view db db.entries id
parent_exists s db (FileParent.wish id) = has_item s every_level db db.wishes id
parent_exists s db (FileParent.message id) = has_item s every_level db db.messages id

-- `verifyParentExists`
abbrev pub verify_parent_exists : Session → Db → FileParent → Result (Unit {0})
verify_parent_exists s db parent = throw_if (not (parent_exists s db parent)) not_found

-- `entryId ?? wishId ?? messageId`
abbrev first_of : Option Text → Option Text → Option Text
first_of none b = b
first_of (some a) b = some a

abbrev pub pillar_parent : File → Option Text
pillar_parent f = first_of f.entry_id (first_of f.wish_id f.message_id)

abbrev is_parent : FileParent → Option Text → Bool
is_parent parent none = false
is_parent parent (some id) = id == parent_id parent

-- The parent file of the request, if it names one, which must belong to the same item.
unfoldable pub find_parent_file : Option Text → FileParent → Session → Db → Result (Option Text)
find_parent_file none parent s db = ok none
find_parent_file (some id) parent s db =
    or_throw (find (is_file s db id) db.files) not_found >>= λ file.
    throw_if (not (is_parent parent (pillar_parent file))) bad_request >> ok (some file.id)

abbrev entry_of : FileParent → Option Text
entry_of (FileParent.entry id) = some id
entry_of _ = none

abbrev wish_of : FileParent → Option Text
wish_of (FileParent.wish id) = some id
wish_of _ = none

abbrev message_of : FileParent → Option Text
message_of (FileParent.message id) = some id
message_of _ = none

abbrev pub new_file : ℕ → Text → Text → FileParent → Option Text → InitiateUploadDto → File
new_file now id storage_key parent parent_file_id dto = record {
  id = id;
  entry_id = entry_of parent;
  wish_id = wish_of parent;
  message_id = message_of parent;
  parent_file_id = parent_file_id;
  role = dto.role;
  filename = dto.filename;
  mime_type = dto.mime_type;
  size_bytes = dto.size_bytes;
  storage_key = storage_key;
  upload_status = UploadStatus.pending;
  is_encrypted = dto.is_encrypted;
  access_level = FileAccess.private;
  share_token = none;
  share_expires_at = none;
  created_at = now;
}

-- INSERT INTO files: the policy and the primary key; that the item and the parent file exist was
-- verified in the same transaction.
unfoldable pub insert_file : Session → File → Db → Result Db
insert_file s f db =
    throw_if (not (file_modifiable s db f)) rls_violation
    >> throw_if (any (λ (x : File). x.id == f.id) db.files) unique_violation
    >> ok (record db { files = f ∷ db.files })

abbrev pub set_uploading : File → File
set_uploading f = record f { upload_status = UploadStatus.uploading }

-- The URLs of the answer, with the upload in parts or in one.
unfoldable pub start_upload : Client → ℕ → Bool → Session → File → Tx UploadInitResult
start_upload client now false s f db =
    create_presigned_upload_url client f.storage_key f.mime_type >>= λ url. ok (
      record {
        file_id = f.id;
        upload_url = some url;
        expires_at = now + 3600 * 1000;
        upload_id = none;
        parts = none;
      },
      db,
    )
start_upload client now true s f db =
    create_multipart_upload client f.storage_key f.mime_type >>= λ upload_id.
    get_part_upload_urls client f.storage_key upload_id (num_parts f.size_bytes) >>= λ parts. ok (
      record {
        file_id = f.id;
        upload_url = none;
        expires_at = now + 3600 * 1000;
        upload_id = some upload_id;
        parts = some parts;
      },
      update_file s f.id set_uploading db,
    )

unfoldable pub initiate_tx :
    Client
    → ℕ
    → ℕ
    → Text
    → Text
    → FileParent
    → InitiateUploadDto
    → Cls
    → Session
    → Tx UploadInitResult
initiate_tx client threshold now id storage_key parent dto cls s db =
    verify_parent_exists s db parent
    >> require_file_size_quota_in_tx now cls dto.size_bytes s db
    >> find_parent_file (truthy dto.parent_file_id) parent s db
    >>= λ parent_file_id.
        insert_file s (new_file now id storage_key parent parent_file_id dto) db >>= λ db₁.
        start_upload client now (ltb threshold dto.size_bytes) s
          (new_file now id storage_key parent parent_file_id dto) db₁

-- `initiateUpload`
unfoldable pub initiate_upload :
    Client → ℕ → ℕ → Text → Text → FileParent → InitiateUploadDto → Cls → Method UploadInitResult
initiate_upload client threshold now id storage_key parent dto cls =
    rls cls (initiate_tx client threshold now id storage_key parent dto cls)

pub record CompleteUploadDto : Type 0 where
  pub upload_id : Option Text
  pub parts : List CompletedPart

-- `completeMultipartUpload`, where the request has parts
unfoldable pub complete_parts :
    Client → File → CompleteUploadDto → List CompletedPart → Result (Unit {0})
complete_parts client f dto [] = ok tt
complete_parts client f dto (p ∷ parts) =
    or_throw (truthy dto.upload_id) bad_request >>= λ upload_id.
    throw_if (not (client.send_complete f.storage_key upload_id (p ∷ parts))) internal

abbrev pub set_complete : File → File
set_complete f = record f { upload_status = UploadStatus.complete }

abbrev pub updated_row : (File → File) → Option File → Option File
updated_row set none = none
updated_row set (some f) = some (set f)

-- The row of the answer, undefined where the policies let no row be changed.
unfoldable pub complete_found : Client → CompleteUploadDto → File → Session → Tx (Option File)
complete_found client dto f s db =
    if is_complete f.upload_status
    then ok (some f, db)
    else (complete_parts client f dto dto.parts
        >> ok (
          updated_row set_complete (find (is_changed_file s db f.id) db.files),
          update_file s f.id set_complete db,
        ))

unfoldable pub complete_tx :
    Client → ℕ → Text → CompleteUploadDto → Cls → Session → Tx (Option File)
complete_tx client now id dto cls s db =
    find_one_with_pillar_check now cls id Access.modify s db >>= λ f.
    complete_found client dto f s db

-- `toFileResponse` of what the transaction returned; undefined is a TypeError.
unfoldable pub respond : Client → (Text → Bool) → Result (Option File) → Result FileResponseDto
respond client is_image (err e) = err e
respond client is_image (ok none) = err internal
respond client is_image (ok (some f)) = ok (to_file_response client is_image f)

-- `completeUpload`
unfoldable pub complete_upload :
    Client → (Text → Bool) → ℕ → Text → CompleteUploadDto → Cls → Method FileResponseDto
unfolding respond
complete_upload client is_image now id dto cls db =
    let (r, db') = rls cls (complete_tx client now id dto cls) db in
    (respond client is_image r, db')
