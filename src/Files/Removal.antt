-- ===== src/Files/Removal.antt =====
-- `remove` of src/files/files.service.ts, with the foreign key parent_file_id, on which a deletion
-- cascades whatever the policies say. The answer is the list of the storage keys whose objects the
-- method deletes in R2; an error of a deletion there is only logged.
use legacy_made_api.Prelude.{
  ℕ, zero, suc, Bool, false, ◌&&◌, not, Option, none, some, List, [], ◌∷◌, Text, ◌==◌,
}
use legacy_made_api.Prelude.Results.{ok, ◌>>=◌}
use legacy_made_api.Prelude.Tables.{any, select, delete, length}
use legacy_made_api.Schema.{File, Db, Session, file_readable}
use legacy_made_api.DbService.{Cls, Tx, Method, rls}
use legacy_made_api.Files.{Access, is_changed_file, find_one_with_pillar_check}

abbrev pub refers_to_file : Text → Option Text → Bool
refers_to_file id none = false
refers_to_file id (some p) = p == id

abbrev pub is_child : Session → Db → Text → File → Bool
is_child s db id f = file_readable s db f && refers_to_file id f.parent_file_id

abbrev pub storage_keys : List File → List Text
storage_keys [] = []
storage_keys (f ∷ files) = f.storage_key ∷ storage_keys files

-- A row whose parent file is not there.
abbrev misses_parent : List File → Option Text → Bool
misses_parent files none = false
misses_parent files (some p) = not (any (λ (x : File). x.id == p) files)

abbrev pub is_orphan : List File → File → Bool
is_orphan files f = misses_parent files f.parent_file_id

-- ON DELETE CASCADE: rows whose parent is gone go, until there is none, in so many rounds.
unfoldable pub cascade : ℕ → List File → List File
cascade zero files = files
cascade (suc rounds) files = cascade rounds (delete (is_orphan files) files)

abbrev pub without_orphans : List File → List File
without_orphans files = cascade (length files) files

unfoldable pub remove_tx : ℕ → Text → Cls → Session → Tx (List Text)
remove_tx now id cls s db = find_one_with_pillar_check now cls id Access.modify s db >>= λ f. ok (
  storage_keys (f ∷ select (is_child s db id) db.files),
  record db { files = without_orphans (delete (is_changed_file s db id) db.files) },
)

-- `remove`
unfoldable pub remove : ℕ → Text → Cls → Method (List Text)
remove now id cls = rls cls (remove_tx now id cls)
