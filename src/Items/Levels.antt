-- ===== src/Items/Levels.antt =====
-- The access that the levels of src/schema.ts give to a user.
use legacy_made_api.Prelude.{
  ◌≡◌, refl, Bool, true, List, [], ◌∷◌, arith, Text, Bool-cases, inl, inr,
}
use legacy_made_api.Prelude.Tables.{any}
use legacy_made_api.Schema.{
  Db, as_user, owner_or_contact, only_edit, AccessLevels, AccessLevel, gives_access, user_owns_plan,
}
use legacy_made_api.Items.Kinds.{Kind, read_levels}

any_implies :
    {A : Type 0} (p q : A → Bool)
    → ((x : A) → p x ≡ true → q x ≡ true)
    → (xs : List A) → any p xs ≡ true
    → any q xs ≡ true
any_implies p q step [] h = cc
any_implies p q step (x ∷ xs) h = ground (arith, step x, any_implies p q step xs)

read_levels-edit : (kind : Kind) (l : AccessLevel) → only_edit l ≡ true → read_levels kind l ≡ true
read_levels-edit Kind.entry AccessLevel.full_edit h = refl
read_levels-edit Kind.wish l h = refl
read_levels-edit Kind.message l h = refl
read_levels-edit Kind.entry AccessLevel.full_view h = cc
read_levels-edit Kind.entry AccessLevel.limited_view h = cc

-- Levels that imply others give the access that the others give.
pub wider_levels :
    (levels wider : AccessLevels)
    → ((l : AccessLevel) → levels l ≡ true → wider l ≡ true)
    → (u : Text) (db : Db) (plan_id : Text) → owner_or_contact (as_user u) levels db plan_id ≡ true
    → owner_or_contact (as_user u) wider db plan_id ≡ true
wider_levels levels wider step u db plan_id h =
    elim (Bool-cases (user_owns_plan (as_user u) db plan_id)) [
      | inl owner ↦ rw owner refl
      | inr other ↦
          let contact =
            any_implies (gives_access u levels plan_id) (gives_access u wider plan_id)
              (λ c k. ground (arith, step c.access_level)) db.trusted_contacts (ground arith) in
          ground (arith, contact)
    ]

-- Who may edit a plan may read its rows.
pub editor_reads :
    (kind : Kind) (u : Text) (db : Db) (plan_id : Text)
    → owner_or_contact (as_user u) only_edit db plan_id ≡ true
    → owner_or_contact (as_user u) (read_levels kind) db plan_id ≡ true
editor_reads kind = wider_levels only_edit (read_levels kind) (read_levels-edit kind)
