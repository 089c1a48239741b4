-- ===== src/Files/Parts.antt =====
-- The parts of an upload of src/files/files.service.ts and src/files/r2.service.ts.
use legacy_made_api.Prelude.{
  ◌≡◌, refl, ap, ℕ, zero, suc, ◌+◌, ◌*◌, ◌≤◌, ◌<◌, List, [], ◌∷◌, Text, arith,
}
use legacy_made_api.Prelude.Results.{ok, or_throw, >>=-returned}
use legacy_made_api.Prelude.Tables.{length}
use legacy_made_api.Errors.{internal}
use legacy_made_api.Files.Storage.{Client, MultipartUploadPart, part_urls, get_part_upload_urls}
use legacy_made_api.Files.Upload.{part_size, num_parts}

-- Consecutive numbers from the first one.
abbrev pub Numbered : ℕ → List MultipartUploadPart → Type 0
Numbered from [] = Unit
Numbered from (p ∷ parts) = (p.part_number ≡ from) × Numbered (suc from) parts

part_urls-Numbered :
    (client : Client) (key upload_id : Text) (from count : ℕ) (parts : List MultipartUploadPart)
    → part_urls client key upload_id from count ≡ ok parts
    → Numbered from parts × (length parts ≡ count)
unfolding part_urls
part_urls-Numbered client key upload_id from zero parts h =
    let same : parts ≡ [] = cc in rw same (tt, refl)
part_urls-Numbered client key upload_id from (suc count) parts h =
    let (url, _, h₁) = >>=-returned (or_throw (client.sign_part key upload_id from) internal) _ h in
    let (rest, e, h₂) = >>=-returned (part_urls client key upload_id (suc from) count) _ h₁ in
    let (numbered, counted) = part_urls-Numbered client key upload_id (suc from) count rest e in
    let same : parts ≡ record { part_number = from; upload_url = url } ∷ rest = cc in
    rw same ((refl, numbered), ap suc counted)

num_parts_cover :
    (size_bytes : ℕ)
    → size_bytes ≤ num_parts size_bytes * part_size
      × num_parts size_bytes * part_size < size_bytes + part_size
unfolding num_parts
num_parts_cover size_bytes = (omega arith, omega arith)

-- Where the URLs of the parts of an upload are returned, the parts are numbered from 1, they are enough
-- for the file, and one fewer would not be.
pub get_part_upload_urls_cover :
    (client : Client) (key upload_id : Text) (size_bytes : ℕ) (parts : List MultipartUploadPart)
    → get_part_upload_urls client key upload_id (num_parts size_bytes) ≡ ok parts
    → Numbered 1 parts
      × (size_bytes ≤ length parts * part_size)
      × (length parts * part_size < size_bytes + part_size)
unfolding get_part_upload_urls
get_part_upload_urls_cover client key upload_id size_bytes parts h =
    let (numbered, counted) =
      part_urls-Numbered client key upload_id 1 (num_parts size_bytes) parts h in
    let (enough, least) = num_parts_cover size_bytes in
    (numbered, rw counted enough, rw counted least)
