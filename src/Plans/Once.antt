-- ===== src/Plans/Once.antt =====
-- `getOrCreate` of src/plans/plans.service.ts called again.
use legacy_made_api.Prelude.{
  ◌≡◌, refl, true, false, some, List, [], ◌∷◌, Text, truthy, ◌==◌, arith, Bool-cases, Option-cases,
  inl, inr,
}
use legacy_made_api.Prelude.Results.{ok}
use legacy_made_api.Prelude.Tables.{any, find}
use legacy_made_api.TableLaws.{find_sound}
use legacy_made_api.Schema.{User, Plan, Db, as_user}
use legacy_made_api.DbService.{Cls, rls, transaction}
use legacy_made_api.Plans.{
  is_own_plan, is_own_user, new_plan, insert_plan, get_or_create_with, get_or_create_tx,
  get_or_create,
}

own_found :
    (u : Text) (plans : List Plan) (id : Text)
    → find (is_own_plan (as_user u)) (new_plan id u ∷ plans) ≡ some (new_plan id u)
own_found u plans id = ground arith

find_own_user :
    (u : Text) (users : List User)
    → any (λ (x : User). x.id == u) users ≡ true
    → (x : User) × (find (is_own_user (as_user u)) users ≡ some x)
find_own_user u [] h = cc
find_own_user u (x ∷ xs) h = elim (Bool-cases (x.id == u)) [
  | inl here ↦ (x, ground arith)
  | inr there ↦ let (y, e) = find_own_user u xs (ground arith) in (y, ground arith)
]

get_or_create_tx_returns :
    (id u : Text) (db : Db)
    → any (λ (x : User). x.id == u) db.users ≡ true
    → any (λ (p : Plan). p.id == id) db.plans ≡ false
    → (p : Plan) × (db' : Db) × (get_or_create_tx id (as_user u) db ≡ ok (p, db'))
      × (find (is_own_plan (as_user u)) db'.plans ≡ some p)
unfolding get_or_create_tx get_or_create_with insert_plan
get_or_create_tx_returns id u db user fresh =
    elim (Option-cases (find (is_own_plan (as_user u)) db.plans)) [
      | inr (p, e) ↦ (p, db, rw e refl, e)
      | inl missing ↦
          let (x, e) = find_own_user u db.users user in
          (
            new_plan id u,
            record db { plans = new_plan id u ∷ db.plans },
            rw (missing, e, fresh) refl,
            own_found u db.plans id,
          )
    ]

get_or_create_tx_again :
    (id u : Text) (db : Db) (p : Plan)
    → find (is_own_plan (as_user u)) db.plans ≡ some p
    → get_or_create_tx id (as_user u) db ≡ ok (p, db)
unfolding get_or_create_tx get_or_create_with
get_or_create_tx_again id u db p found = rw found refl

-- A signed-in user whose row is in the database gets a plan of the user's own, and a later call, with
-- whatever id for a new row, returns the same plan and leaves the database as it is. The first call's
-- id for a new row is not in use.
pub get_or_create_twice :
    (id id' u : Text) (cls : Cls) (db : Db)
    → truthy cls.user_id ≡ some u
    → any (λ (x : User). x.id == u) db.users ≡ true
    → any (λ (p : Plan). p.id == id) db.plans ≡ false
    → (p : Plan) × (p.user_id ≡ u)
      × ((get_or_create id cls db).0 ≡ ok p)
      × (get_or_create id' cls (get_or_create id cls db).1 ≡ (ok p, (get_or_create id cls db).1))
unfolding get_or_create
get_or_create_twice id id' u cls db signed_in user fresh =
    let (p, db', e, found) = get_or_create_tx_returns id u db user fresh in
    let e₁ : get_or_create id cls db ≡ (ok p, db') = rw (rls, signed_in, transaction, e) refl in
    let again = get_or_create_tx_again id' u db' p found in
    let e₂ : get_or_create id' cls db' ≡ (ok p, db') =
      rw (rls, signed_in, transaction, again) refl in
    (p, ground (arith, find_sound (is_own_plan (as_user u)) db'.plans found), rw e₁ refl, rw e₁ e₂)
