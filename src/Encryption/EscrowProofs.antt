-- ===== src/Encryption/EscrowProofs.antt =====
-- Enabling, replacing and revoking an escrow in src/encryption/encryption.service.ts.
use legacy_made_api.Prelude.{
  ◌≡◌, refl, sym, ◌∙◌, inl, inr, Bool, true, false, Option, none, some, List, [], ◌∷◌, Text, truthy,
  arith, Bool-cases, Option-cases,
}
use mathlib.Core.Path.{subst}
use legacy_made_api.Prelude.Results.{Result, ok, err}
use legacy_made_api.Prelude.Tables.{any, find, update, delete, All}
use legacy_made_api.TableLaws.{find-delete-none}
use legacy_made_api.Schema.{
  EncryptedDek, DekType, dek_type_eq, KeyRecoveryEventType, Db, Session, as_user,
}
use legacy_made_api.Errors.{Error, not_found}
use legacy_made_api.DbService.{Cls, transaction, rls}
use legacy_made_api.DbService.Keeps.{with_user_id-signed_in}
use legacy_made_api.Encryption.Statements.{
  user_exists, check_dek, upsert_dek, same_copy, set_ciphertext, insert_event,
}
use legacy_made_api.Encryption.Escrow.{
  Kms, is_escrow, owned_escrow, escrow_dek, initiate_recovery, enable_escrow, enable_as,
  enable_with, check_plan_tx, store_escrow_tx, revoke_escrow, revoke_tx,
}
use legacy_made_api.Encryption.Recovery.{Audited, Attempted, event_types, initiate_recovery-Audited}

-- Escrow copies are not tied to a version of a user's key.
abbrev HasEscrowVersion : List EncryptedDek → Type 0
HasEscrowVersion =
    All (λ (d : EncryptedDek). dek_type_eq d.dek_type DekType.escrow ≡ true → d.key_version ≡ 0)

module _ (u plan_id ciphertext : Text) where
  abbrev wanted_copy : EncryptedDek → Bool
  wanted_copy c = same_copy c (escrow_dek plan_id u ciphertext)

  -- The user's escrow copy is there, with this ciphertext.
  abbrev IsStored : List EncryptedDek → Type 0
  IsStored rows =
      (x : EncryptedDek) × (find (is_escrow u plan_id) rows ≡ some x)
      × (x.encrypted_dek ≡ ciphertext)

  IsStored-update :
      (rows : List EncryptedDek)
      → HasEscrowVersion rows
      → any wanted_copy rows ≡ true
      → IsStored (update wanted_copy (set_ciphertext ciphertext) rows)
  IsStored-update [] zeros h = absurd (ground arith)
  IsStored-update (c ∷ rows) zeros h = elim (Bool-cases (wanted_copy c)) [
    | inl same ↦ (set_ciphertext ciphertext c, ground arith, refl)
    | inr other ↦
        let (x, found, e) = IsStored-update rows zeros.1 (ground arith) in
        let not_mine : is_escrow u plan_id c ≡ false = ground (arith, zeros.0) in
        (x, rw (other, not_mine) found, e)
  ]

  upsert_dek-IsStored :
      (s : Session) (db db' : Db)
      → HasEscrowVersion db.encrypted_deks
      → upsert_dek s (escrow_dek plan_id u ciphertext) db ≡ ok db'
      → IsStored db'.encrypted_deks
  unfolding upsert_dek
  upsert_dek-IsStored s db db' zeros h = elim (Bool-cases (any wanted_copy db.encrypted_deks)) [
    | inl there ↦
        let (x, found, e) = IsStored-update db.encrypted_deks zeros there in
        let written : db'.encrypted_deks
            ≡ update wanted_copy (set_ciphertext ciphertext) db.encrypted_deks =
          ground arith in
        (x, rw written found, e)
    | inr fresh ↦ (escrow_dek plan_id u ciphertext, ground arith, refl)
  ]

  upsert_dek-user :
      (s : Session) (db db' : Db)
      → upsert_dek s (escrow_dek plan_id u ciphertext) db ≡ ok db'
      → user_exists u db' ≡ true
  unfolding upsert_dek check_dek
  upsert_dek-user s db db' h = elim (Bool-cases (any wanted_copy db.encrypted_deks)) [
    | inl there ↦ ground arith
    | inr fresh ↦ ground arith
  ]

  enable_with-IsStored :
      (kms : Kms) (r : Result Error (Unit {0})) (db db' : Db)
      → HasEscrowVersion db.encrypted_deks
      → enable_with kms plan_id ciphertext u r db ≡ (ok tt, db')
      → ((p : Text) × (kms ciphertext ≡ some p))
        × IsStored db'.encrypted_deks
        × (user_exists u db' ≡ true)
  unfolding enable_with store_escrow_tx
  enable_with-IsStored kms (err e) db db' zeros h = absurd (ground arith)
  enable_with-IsStored kms (ok t) db db' zeros h = elim (Option-cases (kms ciphertext)) [
    | inl fails ↦ absurd (ground arith)
    | inr (p, decrypts) ↦
        let stored : upsert_dek (as_user u) (escrow_dek plan_id u ciphertext) db ≡ ok db' =
          ground arith in
        (
          (p, decrypts),
          upsert_dek-IsStored (as_user u) db db' zeros stored,
          upsert_dek-user (as_user u) db db' stored,
        )
  ]

Audited-plaintext :
    (kms : Kms) (o : Option EncryptedDek) (x : EncryptedDek) (p : Text)
    (before : List KeyRecoveryEventType) (out : Result Error Text × Db)
    → o ≡ some x
    → kms x.encrypted_dek ≡ some p
    → Audited kms o before out
    → out.0 ≡ ok p
Audited-plaintext kms o x p before out found decrypts a =
    let attempted : Attempted (kms x.encrypted_dek) before out =
      subst (λ t. Audited kms t before out) found a in
    (subst (λ t. Attempted t before out) decrypts attempted).0

Audited-nothing :
    (kms : Kms) (o : Option EncryptedDek) (before : List KeyRecoveryEventType)
    (out : Result Error Text × Db)
    → o ≡ none
    → Audited kms o before out
    → (out.0 ≡ err not_found) × (event_types out.1.key_recovery_events ≡ before)
Audited-nothing kms o before out absent a = subst (λ t. Audited kms t before out) absent a

-- A user who has enabled the escrow of a plan with a ciphertext, also in place of an earlier one, can
-- recover at once: the ciphertext had decrypted, and the recovery returns what it decrypts to.
-- Before, the escrow copies of the database carried the key version 0.
pub enable_then_recover :
    (kms : Kms) (plan_id ciphertext public_key u : Text) (cls : Cls) (db db' : Db)
    → truthy cls.user_id ≡ some u
    → HasEscrowVersion db.encrypted_deks
    → enable_escrow kms plan_id ciphertext cls db ≡ (ok tt, db')
    → (p : Text) × (kms ciphertext ≡ some p)
      × ((initiate_recovery kms plan_id public_key cls db').0 ≡ ok p)
unfolding enable_escrow enable_as
enable_then_recover kms plan_id ciphertext public_key u cls db db' signed_in zeros h =
    let called = with_user_id-signed_in cls (enable_as kms plan_id ciphertext) u db signed_in in
    let ((p, decrypts), (x, found, e), user) =
      enable_with-IsStored u plan_id ciphertext kms
        (transaction (check_plan_tx plan_id (as_user u)) db).0 db db' zeros (sym called ∙ h) in
    let audited = initiate_recovery-Audited kms plan_id public_key u cls db' signed_in user in
    (
      p,
      decrypts,
      Audited-plaintext kms (find (is_escrow u plan_id) db'.encrypted_deks) x p
          (event_types db'.key_recovery_events) (initiate_recovery kms plan_id public_key cls db')
          found (rw e decrypts) audited,
    )

-- After a user of the database has revoked the escrow of a plan, a recovery of it reports that there is no
-- copy and logs nothing.
pub revoke_then_recover :
    (kms : Kms) (plan_id public_key u : Text) (cls : Cls) (db db' : Db)
    → truthy cls.user_id ≡ some u
    → user_exists u db' ≡ true
    → revoke_escrow plan_id cls db ≡ (ok tt, db')
    → let (r, db'') = initiate_recovery kms plan_id public_key cls db' in
      (r ≡ err not_found)
      × (event_types db''.key_recovery_events ≡ event_types db'.key_recovery_events)
unfolding revoke_escrow revoke_tx insert_event
revoke_then_recover kms plan_id public_key u cls db db' signed_in user h =
    let called =
      with_user_id-signed_in cls (λ v. rls cls (revoke_tx cls plan_id v)) u db signed_in in
    let left : db'.encrypted_deks ≡ delete (owned_escrow (as_user u) u plan_id) db.encrypted_deks =
      ground arith in
    let gone : find (is_escrow u plan_id) db'.encrypted_deks ≡ none = rw left (
      find-delete-none (is_escrow u plan_id) (owned_escrow (as_user u) u plan_id)
        (λ d k. ground arith) db.encrypted_deks) in
    Audited-nothing kms (find (is_escrow u plan_id) db'.encrypted_deks)
      (event_types db'.key_recovery_events) (initiate_recovery kms plan_id public_key cls db') gone
      (initiate_recovery-Audited kms plan_id public_key u cls db' signed_in user)
