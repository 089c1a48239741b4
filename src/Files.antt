-- ===== src/Files.antt =====
-- `FilesService` (src/files/files.service.ts): how a file is found, with the checks of its pillar, and
-- what the other parts share. `now` is what `Date.now()` returns; random ids, keys and tokens are
-- parameters. The column storage_type, which is always 'r2', is left out.
pub mod Storage
pub mod Upload
pub mod Share
pub mod Removal
pub mod Removed
pub mod Links
pub mod Parts
pub mod Quota
use legacy_made_api.Prelude.{
  ℕ, Bool, true, false, ◌&&◌, not, Option, none, some, List, [], ◌∷◌, Text, truthy, ◌==◌,
  if◌then◌else◌,
}
use legacy_made_api.Prelude.Order.{ℤ, pos, order_by}
use legacy_made_api.Prelude.Results.{ok, err, ◌>>=◌, ◌>>◌, throw_if, or_throw}
use legacy_made_api.Prelude.Tables.{any, find, select, update}
use legacy_made_api.Schema.{
  File, UploadStatus, is_complete, Db, Session, file_readable, file_modifiable,
}
use legacy_made_api.Errors.{Result, not_found, bad_request}
use legacy_made_api.DbService.{Cls, Tx, Method, rls}
use legacy_made_api.Entitlements.Types.{Pillar}
use legacy_made_api.Entitlements.Service.{
  require_pillar_access_in_tx, require_view_pillar_access_in_tx,
}
use legacy_made_api.Files.Storage.{Client, create_presigned_download_url}

pub data Access : Type 0 where
  view modify : Access

-- WHERE id = …, as far as the policies show the row, and as far as they let it be changed
abbrev pub is_file : Session → Db → Text → File → Bool
is_file s db id f = file_readable s db f && f.id == id

abbrev pub is_changed_file : Session → Db → Text → File → Bool
is_changed_file s db id f = file_modifiable s db f && f.id == id

abbrev pub update_file : Session → Text → (File → File) → Db → Db
update_file s id set db = record db { files = update (is_changed_file s db id) set db.files }

-- `findOneInTx`
unfoldable pub find_one_in_tx : Text → Session → Db → Result File
find_one_in_tx id s db = or_throw (find (is_file s db id) db.files) not_found

pillar_of : Option Text → Option Text → Option Text → Pillar
pillar_of (some _) w m = Pillar.important_info
pillar_of none (some _) m = Pillar.wishes
pillar_of none none (some _) = Pillar.messages
pillar_of none none none = Pillar.wishes

-- `getFilePillar`
unfoldable pub get_file_pillar : File → Pillar
unfolding pillar_of
get_file_pillar f = pillar_of (truthy f.entry_id) (truthy f.wish_id) (truthy f.message_id)

unfoldable pub check_pillar_access : ℕ → Cls → Access → Pillar → Session → Db → Result (Unit {0})
check_pillar_access now cls Access.view p s db = require_view_pillar_access_in_tx now cls p s db
check_pillar_access now cls Access.modify p s db = require_pillar_access_in_tx now cls p s db

-- `findOneWithPillarCheck`
unfoldable pub find_one_with_pillar_check : ℕ → Cls → Text → Access → Session → Db → Result File
unfolding get_file_pillar check_pillar_access
find_one_with_pillar_check now cls id access s db = find_one_in_tx id s db >>= λ file.
    check_pillar_access now cls access (get_file_pillar file) s db >> ok file

-- `findOne`
unfoldable pub find_one_file : ℕ → Text → Cls → Method File
find_one_file now id cls =
    rls cls
      (λ s db. find_one_with_pillar_check now cls id Access.view s db >>= λ file. ok (file, db))

-- `getDownloadUrl`, without the constant `expiresIn`
unfoldable pub get_download_url : Client → ℕ → Text → Cls → Method Text
get_download_url client now id cls = rls cls (λ s db.
    find_one_with_pillar_check now cls id Access.view s db >>= λ file.
    throw_if (not (is_complete file.upload_status)) bad_request
    >> create_presigned_download_url client file.storage_key
    >>= λ url. ok (url, db))

abbrev pub refers : Text → Option Text → Bool
refers id none = false
refers id (some r) = r == id

-- `findAllForEntry`, `findAllForWish` and `findAllForMessage`, by the column
unfoldable pub find_all_for : (File → Option Text) → Text → Cls → Method (List File)
find_all_for column id cls =
    rls cls (λ s db. ok (select (λ f. file_readable s db f && refers id (column f)) db.files, db))

abbrev pub refers_to_any : List Text → Option Text → Bool
refers_to_any ids none = false
refers_to_any ids (some r) = any (λ id. r == id) ids

-- the column of ORDER BY; rows of one time stay in the order of the table
abbrev pub created_at_of : File → ℤ
created_at_of f = pos f.created_at

-- `findByEntryIds`, `findByWishIds` and `findByMessageIds`, by the column
unfoldable pub find_by_ids : (File → Option Text) → List Text → Cls → Method (List File)
find_by_ids column [] cls db = (ok [], db)
find_by_ids column (id ∷ ids) cls db =
    rls cls
      (λ s db₁. ok (
        order_by created_at_of
            (select (λ f. file_readable s db₁ f && refers_to_any (id ∷ ids) (column f)) db₁.files),
        db₁,
      ))
      db

pub record FileResponseDto : Type 0 where
  pub id : Text
  pub role : Text
  pub parent_file_id : Option Text
  pub filename : Text
  pub mime_type : Text
  pub size_bytes : ℕ
  pub upload_status : UploadStatus
  pub is_encrypted : Bool
  pub download_url : Option Text
  pub thumbnail_url : Option Text

abbrev response : File → Option Text → Option Text → FileResponseDto
response f download_url thumbnail_url = record {
  id = f.id;
  role = f.role;
  parent_file_id = f.parent_file_id;
  filename = f.filename;
  mime_type = f.mime_type;
  size_bytes = f.size_bytes;
  upload_status = f.upload_status;
  is_encrypted = f.is_encrypted;
  download_url = download_url;
  thumbnail_url = thumbnail_url;
}

-- The URL, or null where the signing throws.
url_or_null : Result Text → Option Text
url_or_null (ok url) = some url
url_or_null (err _) = none

-- `toFileResponse`; `is_image` is `startsWith('image/')`
unfoldable pub to_file_response : Client → (Text → Bool) → File → FileResponseDto
unfolding url_or_null
to_file_response client is_image f =
    let url = url_or_null (create_presigned_download_url client f.storage_key) in
    if is_complete f.upload_status
    then response f url (if is_image f.mime_type then url else none)
    else response f none none

-- `toFileResponses`
unfoldable pub to_file_responses : Client → (Text → Bool) → List File → List FileResponseDto
to_file_responses client is_image [] = []
to_file_responses client is_image (f ∷ rest) =
    to_file_response client is_image f ∷ to_file_responses client is_image rest
