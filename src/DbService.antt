-- ===== src/DbService.antt =====
-- The request context (src/lib/api-cls.service.ts, src/lib/types/cls.ts) and transactions
-- (src/db/db.service.ts). The body of a transaction maps a database to a result and a database, or
-- throws; what it wrote before it threw is rolled back.
pub mod Keeps
use legacy_made_api.Prelude.{
  ◌≡◌, refl, Option, none, some, Text, truthy, ◌⊎◌, inl, inr, arith, Option-cases,
}
use legacy_made_api.Prelude.Results.{ok, err, or_throw}
use legacy_made_api.Schema.{Db, Session, as_user, bypassing, AccessLevel, PlanAccessRole}
use legacy_made_api.Errors.{Error, Result, unauthorized, internal}

-- `ApiClsStore`
pub record Cls : Type 0 where
  pub user_id : Option Text
  pub plan_access_role : Option PlanAccessRole
  pub plan_access_level : Option AccessLevel
  pub plan_owner_id : Option Text
  pub ip_address : Option Text
  pub user_agent : Option Text

-- The body of a transaction.
abbrev pub Tx : Type 0 → Type 0
Tx A = Db → Result (A × Db)

-- A method of a service: it returns or throws, beside the database that it leaves.
abbrev pub Method : Type 0 → Type 0
Method A = Db → Result A × Db

abbrev require_user_id : Cls → Result Text
require_user_id cls = or_throw (truthy cls.user_id) unauthorized

-- Commit what the body wrote, or roll it back.
abbrev pub transaction : {A : Type 0} → Tx A → Method A
transaction body db = elim (body db) [ ok r ↦ (ok r.0, r.1) | err e ↦ (err e, db) ]

abbrev pub rls : {A : Type 0} → Cls → (Session → Tx A) → Method A
rls cls body db = elim (truthy cls.user_id) [
  | none ↦ (err internal, db)
  | some u ↦ transaction (body (as_user u)) db
]

abbrev pub bypass_rls : {A : Type 0} → (Session → Tx A) → Method A
bypass_rls body = transaction (body bypassing)

-- `const userId = this.cls.requireUserId()` before the rest of a method
abbrev pub with_user_id : {A : Type 0} → Cls → (Text → Method A) → Method A
with_user_id cls f db = elim (require_user_id cls) [ ok u ↦ f u db | err e ↦ (err e, db) ]
