-- ===== src/DbService/Keeps.antt =====
-- Properties that a method keeps, from those that its transaction keeps.
use legacy_made_api.Prelude.{
  refl, ◌≡◌, ◌⊎◌, inl, inr, none, some, Text, truthy, arith, Option-cases,
}
use legacy_made_api.Prelude.Results.{ok, err}
use legacy_made_api.Errors.{Result}
use legacy_made_api.Schema.{Db, Session, as_user, bypassing}
use legacy_made_api.DbService.{Cls, Tx, Method, transaction, rls, bypass_rls, with_user_id}

module _ {A : Type 0} (cls : Cls) (body : Text → Session → Tx A) (db : Db) where
  -- A method of a signed-in user is one transaction as this user, or throws and changes nothing.
  pub user_method-cases :
      ((u : Text) × (truthy cls.user_id ≡ some u)
        × (with_user_id cls (λ v. rls cls (body v)) db ≡ transaction (body u (as_user u)) db))
      ⊎ ((truthy cls.user_id ≡ none) × ((with_user_id cls (λ v. rls cls (body v)) db).1 ≡ db))
  user_method-cases = elim (Option-cases (truthy cls.user_id)) [
    | inl nobody ↦ inr (nobody, ground arith)
    | inr (u, e) ↦ inl (u, e, ground arith)
  ]

  pub user_method-signed_in :
      (u : Text)
      → truthy cls.user_id ≡ some u
      → with_user_id cls (λ v. rls cls (body v)) db ≡ transaction (body u (as_user u)) db
  user_method-signed_in u h = ground arith

  pub user_method_keeps :
      (P : Db → Type 0)
      → P db
      → ((u : Text) → P (transaction (body u (as_user u)) db).1)
      → P (with_user_id cls (λ v. rls cls (body v)) db).1
  user_method_keeps P same step = elim user_method-cases [
    | inl (u, _, e) ↦ rw e (step u)
    | inr (_, e) ↦ rw e same
  ]

pub with_user_id-signed_in :
    {A : Type 0} (cls : Cls) (f : Text → Method A) (u : Text) (db : Db)
    → truthy cls.user_id ≡ some u
    → with_user_id cls f db ≡ f u db
with_user_id-signed_in cls f u db h = ground arith

committed :
    {A : Type 0} (r : Result (A × Db)) (db db' : Db) {a : A}
    → transaction (λ _. r) db ≡ (ok a, db')
    → r ≡ ok (a, db')
committed (ok (x, d)) db db' h = ground arith
committed (err e) db db' h = absurd (ground arith)

pub transaction-ok :
    {A : Type 0} (body : Tx A) (db db' : Db) {a : A}
    → transaction body db ≡ (ok a, db')
    → body db ≡ ok (a, db')
transaction-ok body db db' h = committed (body db) db db' h

-- What holds before a transaction and after every body that returns, holds afterwards.
pub transaction_keeps :
    {A : Type 0} (body : Tx A) (db : Db) (P : Db → Type 0)
    → P db
    → ((a : A) (db' : Db) → body db ≡ ok (a, db') → P db')
    → P (transaction body db).1
transaction_keeps body db P same step = result_keeps (body db) db P same step
  where
    result_keeps :
        {A : Type 0} (r : Result (A × Db)) (db : Db) (P : Db → Type 0)
        → P db
        → ((a : A) (db' : Db) → r ≡ ok (a, db') → P db')
        → P (transaction (λ _. r) db).1
    result_keeps (ok (a, d)) db P same step = step a d refl
    result_keeps (err e) db P same step = same

pub rls_keeps :
    {A : Type 0} (cls : Cls) (body : Session → Tx A) (db : Db) (P : Db → Type 0)
    → P db
    → ((u : Text) → P (transaction (body (as_user u)) db).1)
    → P (rls cls body db).1
rls_keeps cls body db P same step = elim (Option-cases (truthy cls.user_id)) [
  | inl nobody ↦ rw (nobody, rls) same
  | inr (u, e) ↦ rw (e, rls) (step u)
]

pub with_user_id_keeps :
    {A : Type 0} (cls : Cls) (f : Text → Method A) (db : Db) (P : Db → Type 0)
    → P db
    → ((u : Text) → P (f u db).1)
    → P (with_user_id cls f db).1
with_user_id_keeps cls f db P same step = elim (Option-cases (truthy cls.user_id)) [
  | inl nobody ↦ rw (nobody, with_user_id) same
  | inr (u, e) ↦ rw (e, with_user_id) (step u)
]

-- The same for a method that is one transaction as the user, and for one that bypasses the policies.
pub rls_body_keeps :
    {A : Type 0} (cls : Cls) (body : Session → Tx A) (db : Db) (P : Db → Type 0)
    → P db
    → ((u : Text) (a : A) (db' : Db) → body (as_user u) db ≡ ok (a, db') → P db')
    → P (rls cls body db).1
rls_body_keeps cls body db P same step =
    rls_keeps cls body db P same (λ u. transaction_keeps (body (as_user u)) db P same (step u))

pub bypass_body_keeps :
    {A : Type 0} (cls : Cls) (body : Text → Session → Tx A) (db : Db) (P : Db → Type 0)
    → P db
    → ((u : Text) (a : A) (db' : Db) → body u bypassing db ≡ ok (a, db') → P db')
    → P (with_user_id cls (λ u. bypass_rls (body u)) db).1
bypass_body_keeps cls body db P same step =
    with_user_id_keeps cls (λ u. bypass_rls (body u)) db P same
      (λ u. transaction_keeps (body u bypassing) db P same (step u))

pub rls-signed_in :
    {A : Type 0} (cls : Cls) (body : Session → Tx A) (u : Text) (db : Db)
    → truthy cls.user_id ≡ some u
    → rls cls body db ≡ transaction (body (as_user u)) db
rls-signed_in cls body u db h = rw (h, rls) refl

-- A method that is one transaction of its user.
pub with_user_id-rls :
    {A : Type 0} (cls : Cls) (body : Text → Session → Tx A) (u : Text) (db : Db)
    → truthy cls.user_id ≡ some u
    → with_user_id cls (λ v. rls cls (body v)) db ≡ transaction (body u (as_user u)) db
with_user_id-rls cls body u db h = rw (h, with_user_id) (rls-signed_in cls (body u) u db h)
