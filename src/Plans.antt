-- ===== src/Plans.antt =====
-- `PlansService.getOrCreate` (src/plans/plans.service.ts). The new row's id is a parameter. The retries
-- that wait for the user's row read again what the first read reads, unless the row is committed in
-- between, which is a call after that.
pub mod Once
use legacy_made_api.Prelude.{
  ◌≡◌, refl, ◌∙◌, ap, Bool, true, false, Option, none, some, List, [], ◌∷◌, Text, truthy, ◌==◌,
  arith, Bool-cases, Option-cases, inl, inr,
}
use legacy_made_api.Prelude.Results.{ok, err, ◌>>=◌, ◌>>◌, throw_if, or_throw}
use legacy_made_api.Prelude.Tables.{any, find}
use legacy_made_api.TableLaws.{find_sound}
use legacy_made_api.Schema.{User, Plan, Db, Session, as_user, bypassing, is_current_user}
use legacy_made_api.Errors.{Result, internal, unique_violation}
use legacy_made_api.DbService.{Cls, Tx, Method, rls, transaction}

-- `current_setting('app.user_id', true)`
abbrev pub current_user : Session → Text
current_user (as_user u) = u
current_user bypassing = 0

abbrev pub is_own_plan : Session → Plan → Bool
is_own_plan s p = is_current_user s p.user_id

abbrev pub is_own_user : Session → User → Bool
is_own_user s x = is_current_user s x.id

abbrev pub new_plan : Text → Text → Plan
new_plan id u = record { id = id; user_id = u; e2ee_enabled = false }

-- INSERT INTO plans, for the user of the session, whom the policy lets do so
unfoldable pub insert_plan : Plan → Db → Result Db
insert_plan p db =
    throw_if (any (λ (x : Plan). x.id == p.id) db.plans) unique_violation
    >> ok (record db { plans = p ∷ db.plans })

-- The rest of `getOrCreate`, by the plan that is there.
unfoldable pub get_or_create_with : Text → Option Plan → Session → Tx Plan
get_or_create_with id (some p) s db = ok (p, db)
get_or_create_with id none s db = or_throw (find (is_own_user s) db.users) internal >>= λ _.
    insert_plan (new_plan id (current_user s)) db >>= λ db'. ok (new_plan id (current_user s), db')

unfoldable pub get_or_create_tx : Text → Session → Tx Plan
get_or_create_tx id s db = get_or_create_with id (find (is_own_plan s) db.plans) s db

-- `getOrCreate`
unfoldable pub get_or_create : Text → Cls → Method Plan
get_or_create id cls = rls cls (get_or_create_tx id)
