-- ===== src/Progress.antt =====
-- `ProgressService` (src/progress/progress.service.ts): a record for each plan and key.
pub mod Roundtrip
use legacy_made_api.Prelude.{Bool, ◌&&◌, not, Option, List, ◌∷◌, Text, ◌==◌, if◌then◌else◌}
use legacy_made_api.Prelude.Results.{ok, ◌>>=◌, ◌>>◌, throw_if, or_throw}
use legacy_made_api.Prelude.Tables.{any, find, select, update, delete}
use legacy_made_api.Schema.{Progress, Db, Session, owner_or_contact, only_edit, every_level}
use legacy_made_api.Errors.{not_found, foreign_key_violation, rls_violation}
use legacy_made_api.DbService.{Cls, Tx, Method, rls}
use legacy_made_api.Encryption.Statements.{plan_exists}

-- the columns of the unique index
abbrev pub has_key : Text → Text → Progress → Bool
has_key plan_id key p = p.plan_id == plan_id && p.key == key

abbrev pub is_visible_key : Session → Db → Text → Text → Progress → Bool
is_visible_key s db plan_id key p =
    owner_or_contact s every_level db p.plan_id && has_key plan_id key p

abbrev pub is_deletable_key : Session → Db → Text → Text → Progress → Bool
is_deletable_key s db plan_id key p =
    owner_or_contact s only_edit db p.plan_id && has_key plan_id key p

abbrev pub set_data : Text → Progress → Progress
set_data json p = record p { data_json = json }

abbrev pub progress_row : Text → Text → Text → Progress
progress_row plan_id key json = record { plan_id = plan_id; key = key; data_json = json }

-- INSERT … ON CONFLICT DO UPDATE, with the policy and the foreign key of the table
unfoldable pub upsert_tx : Text → Text → Text → Session → Tx Progress
upsert_tx plan_id key json s db =
    throw_if (not (owner_or_contact s only_edit db plan_id)) rls_violation
    >> throw_if (not (plan_exists plan_id db)) foreign_key_violation
    >> (if any (has_key plan_id key) db.progress
        then ok (
          progress_row plan_id key json,
          record db { progress = update (has_key plan_id key) (set_data json) db.progress },
        )
        else ok (
          progress_row plan_id key json,
          record db { progress = progress_row plan_id key json ∷ db.progress },
        ))

-- `upsert`
unfoldable pub upsert : Text → Text → Text → Cls → Method Progress
upsert plan_id key json cls = rls cls (upsert_tx plan_id key json)

abbrev is_progress_of : Session → Db → Text → Progress → Bool
is_progress_of s db plan_id p = owner_or_contact s every_level db p.plan_id && p.plan_id == plan_id

-- `findAll`
unfoldable find_all_progress : Text → Cls → Method (List Progress)
find_all_progress plan_id cls =
    rls cls (λ s db. ok (select (is_progress_of s db plan_id) db.progress, db))

unfoldable pub find_progress_tx : Text → Text → Session → Tx Progress
find_progress_tx plan_id key s db =
    or_throw (find (is_visible_key s db plan_id key) db.progress) not_found >>= λ p. ok (p, db)

-- `findOne`
unfoldable pub find_progress : Text → Text → Cls → Method Progress
find_progress plan_id key cls = rls cls (find_progress_tx plan_id key)

unfoldable pub remove_progress_tx : Text → Text → Session → Tx (Unit {0})
remove_progress_tx plan_id key s db =
    or_throw (find (is_deletable_key s db plan_id key) db.progress) not_found >>= λ _.
    ok (tt, record db { progress = delete (is_deletable_key s db plan_id key) db.progress })

-- `remove`
unfoldable pub remove_progress : Text → Text → Cls → Method (Unit {0})
remove_progress plan_id key cls = rls cls (remove_progress_tx plan_id key)
