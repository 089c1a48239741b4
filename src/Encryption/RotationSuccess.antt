-- ===== src/Encryption/RotationSuccess.antt =====
-- When `rotateDeks` of src/encryption/encryption.service.ts returns.
use legacy_made_api.Prelude.{
  ◌≡◌, refl, Bool, true, false, some, List, [], ◌∷◌, Text, truthy, arith, Bool-cases, inl, inr,
  ◌==◌, ◌&&◌,
}
use legacy_made_api.Prelude.Results.{ok}
use legacy_made_api.Prelude.Tables.{All, any, find, delete}
use legacy_made_api.Schema.{Plan, EncryptedDek, DekType, dek_type_eq, Db, as_user, user_owns_plan}
use legacy_made_api.DbService.{Cls}
use legacy_made_api.DbService.Keeps.{user_method-signed_in}
use legacy_made_api.Encryption.Statements.{
  user_exists, plan_exists, same_copy, check_dek, insert_dek,
}
use legacy_made_api.Encryption.Rotation.{
  NewDek, RotateDeksDto, check_keys, check_contacts, is_rotated, rotated_dek, insert_deks,
  rotate_tx, rotate_deks,
}
use legacy_made_api.Encryption.RotationProofs.{AreForActiveKeys, AreForContacts, HasNoEscrow}

check_keys_complete :
    (deks : List NewDek) (db : Db) → AreForActiveKeys db deks → check_keys deks db ≡ ok tt
unfolding check_keys
check_keys_complete [] db h = refl
check_keys_complete (d ∷ deks) db (h, hs) = ground (arith, check_keys_complete deks db hs)

check_contacts_complete :
    (u plan_id : Text) (deks : List NewDek) (db : Db)
    → AreForContacts u plan_id db deks
    → check_contacts u plan_id deks (as_user u) db ≡ ok tt
unfolding check_contacts
check_contacts_complete u plan_id [] db h = refl
check_contacts_complete u plan_id (d ∷ deks) db (h, hs) =
    ground (arith, check_contacts_complete u plan_id deks db hs)

module _ (u plan_id : Text) where
  abbrev has_copy : List EncryptedDek → NewDek → Bool
  has_copy rows d = any (λ c. same_copy c (rotated_dek u plan_id d)) rows

  -- No row stands in the way of the new copies.
  abbrev AreFree : List EncryptedDek → List NewDek → Type 0
  AreFree rows = All (λ d. has_copy rows d ≡ false)

  -- No two new copies have the same recipient, version and type.
  abbrev pub HasDistinctCopies : List NewDek → Type 0
  HasDistinctCopies [] = Unit
  HasDistinctCopies (d ∷ deks) =
      AreFree (rotated_dek u plan_id d ∷ []) deks × HasDistinctCopies deks

  not_escrow :
      (t v : DekType)
      → dek_type_eq t v ≡ true
      → dek_type_eq v DekType.escrow ≡ false
      → dek_type_eq t DekType.escrow ≡ false
  not_escrow t v h k = ground arith

  freed_copy :
      (d : NewDek) (rows : List EncryptedDek)
      → dek_type_eq d.dek_type DekType.escrow ≡ false
      → has_copy (delete (is_rotated (as_user u) u plan_id) rows) d ≡ false
  freed_copy d [] h = refl
  freed_copy d (c ∷ rows) h = elim (Bool-cases (dek_type_eq c.dek_type d.dek_type)) [
    | inl same ↦ ground (arith, freed_copy d rows h, not_escrow c.dek_type d.dek_type same h)
    | inr other ↦ ground (arith, freed_copy d rows h)
  ]

  freed-AreFree :
      (deks : List NewDek) (rows : List EncryptedDek)
      → HasNoEscrow deks
      → AreFree (delete (is_rotated (as_user u) u plan_id) rows) deks
  freed-AreFree [] rows h = tt
  freed-AreFree (d ∷ deks) rows (h, hs) = (freed_copy d rows h, freed-AreFree deks rows hs)

  AreFree-cons :
      (c : EncryptedDek) (rows : List EncryptedDek) (deks : List NewDek)
      → AreFree (c ∷ []) deks
      → AreFree rows deks
      → AreFree (c ∷ rows) deks
  AreFree-cons c rows [] h k = tt
  AreFree-cons c rows (d ∷ deks) (h, hs) (k, ks) = (ground arith, AreFree-cons c rows deks hs ks)

  insert_dek_stores :
      (d : NewDek) (db : Db)
      → user_owns_plan (as_user u) db plan_id ≡ true
      → plan_exists plan_id db ≡ true
      → user_exists u db ≡ true
      → user_exists d.recipient_id db ≡ true
      → has_copy db.encrypted_deks d ≡ false
      → insert_dek (as_user u) (rotated_dek u plan_id d) db
        ≡ ok (record db { encrypted_deks = rotated_dek u plan_id d ∷ db.encrypted_deks })
  unfolding insert_dek check_dek
  insert_dek_stores d db owned there known recipient free = ground arith

  insert_deks_stores :
      (deks : List NewDek) (db : Db)
      → user_owns_plan (as_user u) db plan_id ≡ true
      → plan_exists plan_id db ≡ true
      → user_exists u db ≡ true
      → All (λ (d : NewDek). user_exists d.recipient_id db ≡ true) deks
      → AreFree db.encrypted_deks deks
      → HasDistinctCopies deks
      → (db' : Db) × (insert_deks u plan_id deks (as_user u) db ≡ ok db')
  unfolding insert_deks
  insert_deks_stores [] db owned there known recipients free distinct = (db, refl)
  insert_deks_stores (d ∷ deks) db owned there known (r, rs) (f, fs) (new, distinct) =
      let stored = insert_dek_stores d db owned there known r f in
      let (db', e) =
        insert_deks_stores deks
          (record db { encrypted_deks = rotated_dek u plan_id d ∷ db.encrypted_deks }) owned there
          known rs (AreFree-cons (rotated_dek u plan_id d) db.encrypted_deks deks new fs)
          distinct in
      (db', ground (arith, stored, e))

owned-find :
    (u plan_id : Text) (plans : List Plan)
    → any (λ (p : Plan). p.id == plan_id && p.user_id == u) plans ≡ true
    → (any (λ (p : Plan). p.id == plan_id) plans ≡ true)
      × (p : Plan) × (find (λ (q : Plan). q.user_id == u && q.id == plan_id) plans ≡ some p)
owned-find u plan_id [] h = absurd (ground arith)
owned-find u plan_id (p ∷ plans) h = elim (Bool-cases (p.id == plan_id && p.user_id == u)) [
  | inl own ↦ (ground arith, p, ground arith)
  | inr other ↦
      let (there, q, e) = owned-find u plan_id plans (ground arith) in
      (ground (arith, there), q, ground (arith, e))
]

-- A rotation by a signed-in user of a plan that is theirs returns, if each new copy is for an active
-- key of a user and, when it is for another person as a contact, for a trusted contact of the plan,
-- none is an escrow copy, and no two have the same recipient, version and type.
pub rotate_deks_returns :
    (dto : RotateDeksDto) (cls : Cls) (u : Text) (db : Db)
    → truthy cls.user_id ≡ some u
    → user_owns_plan (as_user u) db dto.plan_id ≡ true
    → user_exists u db ≡ true
    → All (λ (d : NewDek). user_exists d.recipient_id db ≡ true) dto.new_deks
    → AreForActiveKeys db dto.new_deks
    → AreForContacts u dto.plan_id db dto.new_deks
    → HasNoEscrow dto.new_deks
    → HasDistinctCopies u dto.plan_id dto.new_deks
    → (rotate_deks dto cls db).0 ≡ ok tt
unfolding rotate_deks rotate_tx
rotate_deks_returns dto cls u db signed_in owned known recipients keys contacts none_escrow
      distinct =
    let deks = dto.new_deks in
    let rest = record db {
      encrypted_deks = delete (is_rotated (as_user u) u dto.plan_id) db.encrypted_deks;
    } in
    let (there, p, found) = owned-find u dto.plan_id db.plans owned in
    let (db', stored) =
      insert_deks_stores u dto.plan_id deks rest owned there known recipients
        (freed-AreFree u dto.plan_id deks db.encrypted_deks none_escrow) distinct in
    rw (user_method-signed_in cls (rotate_tx cls dto) db u signed_in) (
      ground (
        arith,
        found,
        check_keys_complete deks db keys,
        check_contacts_complete u dto.plan_id deks db contacts,
        stored,
      ))
