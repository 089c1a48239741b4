-- ===== src/Files/Storage.antt =====
-- `R2Service` (src/files/r2.service.ts). The client of R2 and the signing of URLs are parameters; a
-- call of theirs that throws is `none`, or `false` where it has no result.
use legacy_made_api.Prelude.{ℕ, zero, suc, Bool, Option, List, [], ◌∷◌, Text, truthy}
use legacy_made_api.Prelude.Results.{ok, ◌>>=◌, or_throw}
use legacy_made_api.Errors.{Result, internal}

pub record CompletedPart : Type 0 where
  pub part_number : ℕ
  pub etag : Text

pub record MultipartUploadPart : Type 0 where
  pub part_number : ℕ
  pub upload_url : Text

pub record Client : Type 0 where
  -- `getSignedUrl` for the commands that put an object of a type, get it, and upload a part
  pub sign_put : Text → Text → Option Text
  pub sign_get : Text → Option Text
  pub sign_part : Text → Text → ℕ → Option Text
  -- `send` for the commands that create a multipart upload, with `response.UploadId`, and complete it
  pub send_create : Text → Text → Option (Option Text)
  pub send_complete : Text → Text → List CompletedPart → Bool

unfoldable pub create_presigned_upload_url : Client → Text → Text → Result Text
create_presigned_upload_url client key content_type =
    or_throw (client.sign_put key content_type) internal

unfoldable pub create_presigned_download_url : Client → Text → Result Text
create_presigned_download_url client key = or_throw (client.sign_get key) internal

unfoldable pub create_multipart_upload : Client → Text → Text → Result Text
create_multipart_upload client key content_type =
    or_throw (client.send_create key content_type) internal >>= λ upload_id.
    or_throw (truthy upload_id) internal

-- The rest of the loop, from a part's number on, for as many parts.
unfoldable pub part_urls : Client → Text → Text → ℕ → ℕ → Result (List MultipartUploadPart)
part_urls client key upload_id from zero = ok []
part_urls client key upload_id from (suc count) =
    let rest = part_urls client key upload_id (suc from) count in
    or_throw (client.sign_part key upload_id from) internal >>= λ url.
    rest >>= λ parts. ok (record { part_number = from; upload_url = url } ∷ parts)

-- `getPartUploadUrls`
unfoldable pub get_part_upload_urls : Client → Text → Text → ℕ → Result (List MultipartUploadPart)
unfolding part_urls
get_part_upload_urls client key upload_id num_parts = part_urls client key upload_id 1 num_parts
