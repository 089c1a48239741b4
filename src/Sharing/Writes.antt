-- ===== src/Sharing/Writes.antt =====
-- What the statements beside those on trusted_contacts leave alone: the activity log's and those on
-- the copies of the DEK (src/activity-log, src/encryption/encryption.service.ts).
use legacy_made_api.Prelude.{
  ◌≡◌, refl, ◌∙◌, ap, true, Option, none, some, List, [], ◌∷◌, Text, truthy, arith, Bool-cases,
  Option-cases, inl, inr,
}
use legacy_made_api.Prelude.Results.{ok, ◌>>=◌, >>=-returned}
use legacy_made_api.Prelude.Tables.{any}
use legacy_made_api.Schema.{
  Activity, TrustedContact, EncryptedDek, Db, Session, owner_or_contact, every_level,
}
use legacy_made_api.Errors.{Result}
use legacy_made_api.DbService.{Cls}
use legacy_made_api.ActivityLog.{LogActivityParams, activity, insert_activity, log}
use legacy_made_api.Encryption.Statements.{same_copy, check_dek, upsert_dek, find_plan, user_exists}
use legacy_made_api.Encryption.Deks.{
  ContactDek, contact_dek, store_contact_dek_copies, delete_contact_dek_copy,
}
use legacy_made_api.PlanAccess.{has_plan_id}
use legacy_made_api.TrustedContacts.Manage.{delete_linked_copy}
use legacy_made_api.Invitations.{delete_shared_copy, invited_user}

-- Contacts and plans are as before.
abbrev pub SameAccess : Db → Db → Type 0
SameAccess db db' = (db'.trusted_contacts ≡ db.trusted_contacts) × (db'.plans ≡ db.plans)

pub SameAccess-trans : (a b c : Db) → SameAccess a b → SameAccess b c → SameAccess a c
SameAccess-trans a b c (e, f) (g, h) = (g ∙ e, h ∙ f)

pub ok_state :
    {A : Type 0} (r : Result (A × Db)) (a b : A) (db db' : Db)
    → r ≡ ok (a, db)
    → r ≡ ok (b, db')
    → db ≡ db'
ok_state r a b db db' g h = cc

insert_activity-SameAccess :
    (s : Session) (a : Activity) (db db' : Db) → insert_activity s a db ≡ ok db' → SameAccess db db'
unfolding insert_activity
insert_activity-SameAccess s a db db' h = (ground arith, ground arith)

pub log-SameAccess :
    (cls : Cls) (p : LogActivityParams) (s : Session) (db db' : Db)
    → log cls p s db ≡ ok db'
    → SameAccess db db'
unfolding log
log-SameAccess cls p s db db' h = elim (Option-cases (truthy cls.user_id)) [
  | inl nobody ↦ (ground arith, ground arith)
  | inr (u, e) ↦ insert_activity-SameAccess s (activity cls u p) db db' (ground arith)
]

abbrev pub returning : {A : Type 0} → A → Db → Result (A × Db)
returning a db = ok (a, db)

-- A transaction that ends with a line of the log.
pub logged-SameAccess :
    {A : Type 0} (cls : Cls) (p : LogActivityParams) (s : Session) (db db' : Db) (a b : A)
    → (log cls p s db >>= returning a) ≡ ok (b, db')
    → SameAccess db db'
logged-SameAccess cls p s db db' a b h =
    let (d, e, k) = >>=-returned (log cls p s db) (returning a) h in
    log-SameAccess cls p s db db' (e ∙ ap ok (ok_state (returning a d) a b d db' refl k))

upsert_dek-SameAccess :
    (s : Session) (d : EncryptedDek) (db db' : Db) → upsert_dek s d db ≡ ok db' → SameAccess db db'
unfolding upsert_dek
upsert_dek-SameAccess s d db db' h =
    let (_, _, k) = >>=-returned (check_dek s d db) _ h in
    elim (Bool-cases (any (λ c. same_copy c d) db.encrypted_deks)) [
      | inl there ↦ (ground arith, ground arith)
      | inr new ↦ (ground arith, ground arith)
    ]

pub store_contact_dek_copies-SameAccess :
    (plan_id owner_id : Text) (deks : List ContactDek) (s : Session) (db db' : Db)
    → store_contact_dek_copies plan_id owner_id deks s db ≡ ok db'
    → SameAccess db db'
unfolding store_contact_dek_copies
store_contact_dek_copies-SameAccess plan_id owner_id [] s db db' h = (ground arith, ground arith)
store_contact_dek_copies-SameAccess plan_id owner_id (d ∷ deks) s db db' h =
    let (m, e, k) = >>=-returned (upsert_dek s (contact_dek plan_id owner_id d) db) _ h in
    SameAccess-trans db m db' (upsert_dek-SameAccess s (contact_dek plan_id owner_id d) db m e)
      (store_contact_dek_copies-SameAccess plan_id owner_id deks s m db' k)

delete_contact_dek_copy-SameAccess :
    (plan_id u : Text) (s : Session) (db : Db)
    → SameAccess db (delete_contact_dek_copy plan_id u s db).1
unfolding delete_contact_dek_copy
delete_contact_dek_copy-SameAccess plan_id u s db = elim (Option-cases (find_plan s plan_id db)) [
  | inl e ↦ (ground arith, ground arith)
  | inr (p, e) ↦ (ground arith, ground arith)
]

pub delete_linked_copy-SameAccess :
    (plan_id : Text) (u : Option Text) (s : Session) (db : Db)
    → SameAccess db (delete_linked_copy plan_id u s db).1
unfolding delete_linked_copy
delete_linked_copy-SameAccess plan_id none s db = (refl, refl)
delete_linked_copy-SameAccess plan_id (some u) s db =
    delete_contact_dek_copy-SameAccess plan_id u s db

pub delete_shared_copy-SameAccess :
    (c : TrustedContact) (db : Db) → SameAccess db (delete_shared_copy c db)
unfolding delete_shared_copy
delete_shared_copy-SameAccess c db = elim (Option-cases (truthy (invited_user c db))) [
  | inl e ↦ (ground arith, ground arith)
  | inr (u, e) ↦
      let (same, plans) = delete_contact_dek_copy-SameAccess c.plan_id u _ db in
      (rw (e, delete_shared_copy) same, rw (e, delete_shared_copy) plans)
]

-- A line that the log takes.
pub log_returns :
    (cls : Cls) (p : LogActivityParams) (s : Session) (u : Text) (db : Db)
    → truthy cls.user_id ≡ some u
    → owner_or_contact s every_level db p.plan_id ≡ true
    → any (has_plan_id p.plan_id) db.plans ≡ true
    → user_exists u db ≡ true
    → log cls p s db
      ≡ ok (record db { plan_activity_log = activity cls u p ∷ db.plan_activity_log })
unfolding log insert_activity
log_returns cls p s u db signed_in allowed plan user = ground arith
