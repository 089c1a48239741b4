-- ===== src/Files/Share.antt =====
-- Share links of src/files/files.service.ts: `createShareLink`, `revokeShareLink` and
-- `accessSharedFile`. The random token is a parameter.
use legacy_made_api.Prelude.{
  ℕ, ◌+◌, ◌*◌, Bool, true, false, ◌&&◌, not, Option, none, some, Text, ltb, ◌==◌,
}
use legacy_made_api.Prelude.Results.{ok, ◌>>=◌, ◌>>◌, throw_if, or_throw}
use legacy_made_api.Prelude.Tables.{find}
use legacy_made_api.Schema.{File, FileAccess, is_shareable, is_complete, Session}
use legacy_made_api.Errors.{not_found, bad_request}
use legacy_made_api.DbService.{Cls, Tx, Method, rls, bypass_rls}
use legacy_made_api.Files.{Access, is_changed_file, update_file, find_one_with_pillar_check}
use legacy_made_api.Files.Storage.{Client, create_presigned_download_url}
use legacy_made_api.Files.Upload.{updated_row}

pub record ShareLinkResult : Type 0 where
  pub share_token : Text
  pub expires_at : ℕ

-- `Date.now() + dto.expiresInHours * 60 * 60 * 1000`
abbrev pub share_expiry : ℕ → ℕ → ℕ
share_expiry now hours = now + hours * 60 * 60 * 1000

abbrev pub set_shared : Text → ℕ → File → File
set_shared token expires_at f = record f {
  access_level = FileAccess.shareable;
  share_token = some token;
  share_expires_at = some expires_at;
}

unfoldable pub create_share_tx : ℕ → Text → Text → ℕ → Cls → Session → Tx ShareLinkResult
create_share_tx now token id hours cls s db =
    find_one_with_pillar_check now cls id Access.modify s db >>= λ f.
    throw_if (not (is_complete f.upload_status)) bad_request
    >> ok (
      record { share_token = token; expires_at = share_expiry now hours },
      update_file s id (set_shared token (share_expiry now hours)) db,
    )

-- `createShareLink`
unfoldable pub create_share_link : ℕ → Text → Text → ℕ → Cls → Method ShareLinkResult
create_share_link now token id hours cls = rls cls (create_share_tx now token id hours cls)

abbrev pub set_private : File → File
set_private f = record f {
  access_level = FileAccess.private;
  share_token = none;
  share_expires_at = none;
}

unfoldable pub revoke_share_tx : ℕ → Text → Cls → Session → Tx (Option File)
revoke_share_tx now id cls s db = find_one_with_pillar_check now cls id Access.modify s db >>= λ f.
    ok (
      updated_row set_private (find (is_changed_file s db id) db.files),
      update_file s id set_private db,
    )

-- `revokeShareLink`; undefined where the policies let no row be changed
unfoldable pub revoke_share_link : ℕ → Text → Cls → Method (Option File)
revoke_share_link now id cls = rls cls (revoke_share_tx now id cls)

abbrev has_token : Text → Option Text → Bool
has_token token none = false
has_token token (some t) = t == token

abbrev pub is_shared_by : Text → File → Bool
is_shared_by token f = has_token token f.share_token && is_shareable f.access_level

-- `!file.shareExpiresAt || file.shareExpiresAt < new Date()`
abbrev pub is_expired : ℕ → Option ℕ → Bool
is_expired now none = true
is_expired now (some t) = ltb t now

-- `accessSharedFile`
unfoldable pub access_shared_file : Client → ℕ → Text → Method Text
access_shared_file client now token = bypass_rls (λ s db.
    or_throw (find (is_shared_by token) db.files) not_found >>= λ f.
    throw_if (is_expired now f.share_expires_at) not_found
    >> create_presigned_download_url client f.storage_key
    >>= λ url. ok (url, db))
