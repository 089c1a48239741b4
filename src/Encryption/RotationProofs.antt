-- ===== src/Encryption/RotationProofs.antt =====
-- What a rotation that returns has checked and written (`rotateDeks` of
-- src/encryption/encryption.service.ts).
use legacy_made_api.Prelude.{
  ◌≡◌, refl, sym, ◌∙◌, ap, ℕ, Bool, true, false, not, some, List, [], ◌∷◌, Text, truthy, ◌⊎◌, inl,
  inr, arith,
}
use legacy_made_api.Prelude.Results.{ok, err, throw_if, or_throw, ◌>>=◌, ◌>>◌}
use legacy_made_api.Prelude.Tables.{All, any, select, delete}
use legacy_made_api.Schema.{EncryptedDek, DekType, dek_type_eq, Db, as_user}
use legacy_made_api.Errors.{Error, Result, not_found, unique_violation}
use legacy_made_api.DbService.{Cls}
use legacy_made_api.DbService.Keeps.{user_method-signed_in, transaction-ok}
use legacy_made_api.Encryption.Statements.{same_copy, insert_dek, check_dek, find_plan}
use legacy_made_api.Encryption.Deks.{has_contact, is_for_contact}
use legacy_made_api.Encryption.Rotation.{
  NewDek, RotateDeksDto, is_active_key, check_keys, check_contacts, is_rotated, rotated_dek,
  insert_deks, log_rotation, recovery_versions, rotate_tx, rotate_deks,
}

-- Each new copy is for an active key.
abbrev pub AreForActiveKeys : Db → List NewDek → Type 0
AreForActiveKeys db =
    All (λ (d : NewDek). any (is_active_key d.recipient_id d.key_version) db.user_keys ≡ true)

check_keys_sound :
    (deks : List NewDek) (db : Db) → check_keys deks db ≡ ok tt → AreForActiveKeys db deks
unfolding check_keys
check_keys_sound [] db h = tt
check_keys_sound (d ∷ deks) db h = (ground arith, check_keys_sound deks db (ground arith))

-- Each new copy for another person as a contact is for a trusted contact of the plan.
abbrev pub AreForContacts : Text → Text → Db → List NewDek → Type 0
AreForContacts u plan_id db = All (λ (d : NewDek).
    is_for_contact d.dek_type d.recipient_id u ≡ true
    → has_contact (as_user u) plan_id d.recipient_id db ≡ true)

check_contacts_sound :
    (u plan_id : Text) (deks : List NewDek) (db : Db)
    → check_contacts u plan_id deks (as_user u) db ≡ ok tt
    → AreForContacts u plan_id db deks
unfolding check_contacts
check_contacts_sound u plan_id [] db h = tt
check_contacts_sound u plan_id (d ∷ deks) db h =
    ((λ e. ground arith), check_contacts_sound u plan_id deks db (ground arith))

-- The rows of the new copies on top of given ones, the last on top.
abbrev rotated_rows : Text → Text → List NewDek → List EncryptedDek → List EncryptedDek
rotated_rows u plan_id [] rows = rows
rotated_rows u plan_id (d ∷ deks) rows =
    rotated_rows u plan_id deks (rotated_dek u plan_id d ∷ rows)

checked_cases :
    (checked : Result (Unit {0})) (b : Bool) (e : Error) (db : Db)
    → ((checked >> throw_if b e >> ok db) ≡ ok db)
      ⊎ ((x : Error) × ((checked >> throw_if b e >> ok db) ≡ err x))
checked_cases (err x) b e db = inr (x, refl)
checked_cases (ok _) true e db = inr (e, refl)
checked_cases (ok _) false e db = inl refl

insert_dek_cases :
    (u : Text) (d : EncryptedDek) (db : Db)
    → (insert_dek (as_user u) d db ≡ ok (record db { encrypted_deks = d ∷ db.encrypted_deks }))
      ⊎ ((e : Error) × (insert_dek (as_user u) d db ≡ err e))
unfolding insert_dek
insert_dek_cases u d db =
    checked_cases (check_dek (as_user u) d db) (any (λ c. same_copy c d) db.encrypted_deks)
      unique_violation (record db { encrypted_deks = d ∷ db.encrypted_deks })

insert_deks-eq-ok :
    (u plan_id : Text) (deks : List NewDek) (db db' : Db)
    → insert_deks u plan_id deks (as_user u) db ≡ ok db'
    → db' ≡ record db { encrypted_deks = rotated_rows u plan_id deks db.encrypted_deks }
unfolding insert_deks
insert_deks-eq-ok u plan_id [] db db' h = cc
insert_deks-eq-ok u plan_id (d ∷ deks) db db' h =
    elim (insert_dek_cases u (rotated_dek u plan_id d) db) [
      | inl stored ↦
          insert_deks-eq-ok u plan_id deks
            (record db { encrypted_deks = rotated_dek u plan_id d ∷ db.encrypted_deks }) db'
            (ground (arith, stored))
      | inr (e, refused) ↦ absurd (ground (arith, refused))
    ]

-- Rows on top of others, none of the new copies being an escrow copy.
abbrev pub HasNoEscrow : List NewDek → Type 0
HasNoEscrow = All (λ (d : NewDek). dek_type_eq d.dek_type DekType.escrow ≡ false)

select-rotated_rows :
    (u plan_id : Text) (deks : List NewDek) (rows : List EncryptedDek)
    → HasNoEscrow deks
    → select (is_rotated (as_user u) u plan_id) (rotated_rows u plan_id deks rows)
      ≡ rotated_rows u plan_id deks (select (is_rotated (as_user u) u plan_id) rows)
select-rotated_rows u plan_id [] rows h = refl
select-rotated_rows u plan_id (d ∷ deks) rows (h, hs) =
    select-rotated_rows u plan_id deks (rotated_dek u plan_id d ∷ rows) hs
    ∙ ap (rotated_rows u plan_id deks) (ground arith)

select_other_rows :
    (u plan_id : Text) (deks : List NewDek) (rows : List EncryptedDek)
    → HasNoEscrow deks
    → select (λ d. not (is_rotated (as_user u) u plan_id d)) (rotated_rows u plan_id deks rows)
      ≡ select (λ d. not (is_rotated (as_user u) u plan_id d)) rows
select_other_rows u plan_id [] rows h = refl
select_other_rows u plan_id (d ∷ deks) rows (h, hs) =
    select_other_rows u plan_id deks (rotated_dek u plan_id d ∷ rows) hs ∙ ground arith

module _ {A : Type 0} (p : A → Bool) where
  select-delete : (rows : List A) → select p (delete p rows) ≡ []
  select-delete [] = refl
  select-delete (x ∷ rows) = ground (arith, select-delete rows)

  select_rest-delete :
      (rows : List A) → select (λ x. not (p x)) (delete p rows) ≡ select (λ x. not (p x)) rows
  select_rest-delete [] = refl
  select_rest-delete (x ∷ rows) = ground (arith, select_rest-delete rows)

abbrev logged : (Db → Db) → Db → Result (Unit {0} × Db)
logged log db = ok (tt, log db)

-- The steps of a chain that returns.
rotation_steps :
    {P : Type 0} (plan : Result P) (keys contacts : Result (Unit {0})) (inserted : Result Db)
    (log : Db → Db) (db' : Db)
    → (plan >>= λ _. keys >> contacts >> inserted >>= λ db₁. logged log db₁) ≡ ok (tt, db')
    → (db₁ : Db) × (keys ≡ ok tt) × (contacts ≡ ok tt) × (inserted ≡ ok db₁) × (log db₁ ≡ db')
rotation_steps (ok _) (ok _) (ok _) (ok db₁) log db' h = (db₁, refl, refl, refl, ground arith)
rotation_steps (ok _) (ok _) (ok _) (err e) log db' h = absurd (ground arith)
rotation_steps (ok _) (ok _) (err e) inserted log db' h = absurd (ground arith)
rotation_steps (ok _) (err e) contacts inserted log db' h = absurd (ground arith)
rotation_steps (err e) keys contacts inserted log db' h = absurd (ground arith)

log_rotation_keeps :
    (cls : Cls) (u plan_id : Text) (versions : List ℕ) (db : Db)
    → (log_rotation cls u plan_id versions db).encrypted_deks ≡ db.encrypted_deks
unfolding log_rotation
log_rotation_keeps cls u plan_id [] db = refl
log_rotation_keeps cls u plan_id (v ∷ versions) db = refl

-- What has been checked, and the copies afterwards.
abbrev pub Rotated : Text → Text → List NewDek → Db → Db → Type 0
Rotated u plan_id deks db db' =
    AreForActiveKeys db deks
    × AreForContacts u plan_id db deks
    × (select (is_rotated (as_user u) u plan_id) db'.encrypted_deks
        ≡ rotated_rows u plan_id deks [])
    × (select (λ d. not (is_rotated (as_user u) u plan_id d)) db'.encrypted_deks
        ≡ select (λ d. not (is_rotated (as_user u) u plan_id d)) db.encrypted_deks)

rotate_tx-Rotated :
    (cls : Cls) (dto : RotateDeksDto) (u : Text) (db db' : Db)
    → HasNoEscrow dto.new_deks
    → rotate_tx cls dto u (as_user u) db ≡ ok (tt, db')
    → Rotated u dto.plan_id dto.new_deks db db'
unfolding rotate_tx
rotate_tx-Rotated cls dto u db db' none_escrow h =
    let deks = dto.new_deks in
    let p = is_rotated (as_user u) u dto.plan_id in
    let rest = record db { encrypted_deks = delete p db.encrypted_deks } in
    let (db₁, keys, contacts, inserted, logged) =
      rotation_steps (or_throw (find_plan (as_user u) dto.plan_id db) not_found)
        (check_keys deks db) (check_contacts u dto.plan_id deks (as_user u) db)
        (insert_deks u dto.plan_id deks (as_user u) rest)
        (log_rotation cls u dto.plan_id (recovery_versions deks)) db' h in
    let copies : db'.encrypted_deks ≡ rotated_rows u dto.plan_id deks (delete p db.encrypted_deks) =
      ap (λ (d : Db). d.encrypted_deks) (sym logged)
      ∙ log_rotation_keeps cls u dto.plan_id (recovery_versions deks) db₁
      ∙ ap (λ (d : Db). d.encrypted_deks)
          (insert_deks-eq-ok u dto.plan_id deks rest db₁ inserted) in
    (
      check_keys_sound deks db keys,
      check_contacts_sound u dto.plan_id deks db contacts,
      ap (select p) copies
          ∙ select-rotated_rows u dto.plan_id deks (delete p db.encrypted_deks) none_escrow
          ∙ ap (rotated_rows u dto.plan_id deks) (select-delete p db.encrypted_deks),
      ap (select (λ d. not (p d))) copies
          ∙ select_other_rows u dto.plan_id deks (delete p db.encrypted_deks) none_escrow
          ∙ select_rest-delete p db.encrypted_deks,
    )

-- If a rotation without escrow copies returns to a signed-in user, then each new copy is for an
-- active key of its recipient, and each one of the contact type that is not for the user is for a
-- trusted contact of the plan. Afterwards the copies of the user for the plan that are not escrow
-- copies are the new ones and no others, and all other copies are as before.
pub rotate_deks-Rotated :
    (dto : RotateDeksDto) (cls : Cls) (u : Text) (db db' : Db)
    → truthy cls.user_id ≡ some u
    → HasNoEscrow dto.new_deks
    → rotate_deks dto cls db ≡ (ok tt, db')
    → Rotated u dto.plan_id dto.new_deks db db'
unfolding rotate_deks
rotate_deks-Rotated dto cls u db db' signed_in none_escrow h =
    rotate_tx-Rotated cls dto u db db' none_escrow (
      transaction-ok (rotate_tx cls dto u (as_user u)) db db'
        (sym (user_method-signed_in cls (rotate_tx cls dto) db u signed_in) ∙ h))
