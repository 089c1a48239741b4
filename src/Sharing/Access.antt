-- ===== src/Sharing/Access.antt =====
-- The guard of src/plan-access beside the policies of src/schema.ts.
use legacy_made_api.Prelude.{
  ◌≡◌, refl, Bool, true, false, none, some, List, [], ◌∷◌, Text, truthy, arith, Bool-cases,
  Option-cases, inl, inr,
}
use legacy_made_api.Prelude.Results.{ok, err}
use legacy_made_api.Prelude.Tables.{find, any}
use legacy_made_api.TableLaws.{find_sound, find-any}
use legacy_made_api.Schema.{
  Plan, TrustedContact, AccessLevel, PlanAccessRole, gives_access, every_level, only_edit,
  user_has_access, user_owns_plan, owner_or_contact, Db, as_user,
}
use legacy_made_api.Errors.{Result}
use legacy_made_api.DbService.{Cls}
use legacy_made_api.PlanAccess.{
  is_owned_plan, has_plan_id, access_of, get_plan_access, admit, can_activate,
}
use legacy_made_api.TrustedContacts.Manage.{is_present}
use legacy_made_api.Sharing.Closed.{contact_access-none}

-- Whether a call returns.
abbrev pub is_ok : {A : Type 0} → Result A → Bool
is_ok (ok _) = true
is_ok (err _) = false

any_is_found : {A : Type 0} (p : A → Bool) (xs : List A) → any p xs ≡ is_present (find p xs)
any_is_found p [] = refl
any_is_found p (x ∷ xs) = ground (arith, any_is_found p xs)

edit_implies :
    (u plan_id : Text) (c : TrustedContact)
    → gives_access u every_level plan_id c ≡ true
    → only_edit c.access_level ≡ true
    → gives_access u only_edit plan_id c ≡ true
edit_implies u plan_id c h e = ground arith

-- What the guard's SELECTs find, by the policies.
data Found (u plan_id : Text) (db : Db) : Type 0 where
  owner :
      user_owns_plan (as_user u) db plan_id ≡ true
      → access_of plan_id u db
        ≡ some (record { role = PlanAccessRole.owner; access_level = none; owner_id = u })
      → Found u plan_id db
  contact :
      (p : Plan) (c : TrustedContact)
      → user_owns_plan (as_user u) db plan_id ≡ false
      → find (gives_access u every_level plan_id) db.trusted_contacts ≡ some c
      → access_of plan_id u db
        ≡ some (record {
          role = PlanAccessRole.trusted_contact;
          access_level = some c.access_level;
          owner_id = p.user_id;
        })
      → Found u plan_id db
  nobody :
      owner_or_contact (as_user u) every_level db plan_id ≡ false
      → access_of plan_id u db ≡ none
      → Found u plan_id db

access_found :
    (u plan_id : Text) (db : Db) → any (has_plan_id plan_id) db.plans ≡ true → Found u plan_id db
unfolding access_of
access_found u plan_id db there = elim (Bool-cases (any (is_owned_plan plan_id u) db.plans)) [
  | inl owned ↦ Found.owner owned (ground arith)
  | inr other ↦
      elim (Option-cases (find (gives_access u every_level plan_id) db.trusted_contacts)) [
        | inl missing ↦
            Found.nobody
              (rw
                (
                  other,
                  any_is_found (gives_access u every_level plan_id) db.trusted_contacts,
                  missing,
                )
                refl)
              (rw (other, missing) (contact_access-none (find (has_plan_id plan_id) db.plans)))
        | inr (c, found) ↦ elim (Option-cases (find (has_plan_id plan_id) db.plans)) [
          | inl gone ↦ absurd (ground (arith, any_is_found (has_plan_id plan_id) db.plans))
          | inr (p, e) ↦ Found.contact p c other found (ground arith)
        ]
      ]
]

module _ (plan_id u : Text) (cls : Cls) (db : Db) (named : truthy (some plan_id) ≡ some plan_id)
    (signed_in : truthy cls.user_id ≡ some u)
    (there : any (has_plan_id plan_id) db.plans ≡ true) where
  -- For a signed-in user and a plan that exists, the guard of a route with the plan's id and without a
  -- required level passes if and only if the policies let the user read as owner or as contact of any
  -- level.
  pub can_activate-owner_or_contact :
      is_ok (can_activate (some plan_id) none cls db)
      ≡ owner_or_contact (as_user u) every_level db plan_id
  unfolding can_activate get_plan_access admit
  can_activate-owner_or_contact = elim (access_found u plan_id db there) [
    | Found.owner owned e ↦ ground arith
    | Found.contact p c other found e ↦
        ground (arith, any_is_found (gives_access u every_level plan_id) db.trusted_contacts)
    | Found.nobody shut e ↦ ground arith
  ]

  -- Where the guard of a route that requires full_edit passes, for a signed-in user and a plan that
  -- exists, the policies let the user write.
  pub can_activate_edit :
      is_ok (can_activate (some plan_id) (some AccessLevel.full_edit) cls db) ≡ true
      → owner_or_contact (as_user u) only_edit db plan_id ≡ true
  unfolding can_activate get_plan_access admit
  can_activate_edit h = elim (access_found u plan_id db there) [
    | Found.owner owned e ↦ ground arith
    | Found.contact p c other found e ↦ elim (Bool-cases (only_edit c.access_level)) [
      | inl edit ↦
          let shown : user_has_access u only_edit db plan_id ≡ true =
            find-any (gives_access u every_level plan_id) (gives_access u only_edit plan_id)
              db.trusted_contacts c found
              (edit_implies u plan_id c
                (find_sound (gives_access u every_level plan_id) db.trusted_contacts found) edit) in
          rw (other, shown) refl
      | inr view ↦ absurd (ground arith)
    ]
    | Found.nobody shut e ↦ absurd (ground arith)
  ]
