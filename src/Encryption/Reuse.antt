-- ===== src/Encryption/Reuse.antt =====
-- A device key that is deleted, and the registration after it, in
-- src/encryption/encryption.service.ts.
use legacy_made_api.Prelude.{
  ◌≡◌, refl, sym, ◌∙◌, ap, ℕ, ◌+◌, true, not, some, List, [], ◌∷◌, Text, truthy, ◌==◌, arith,
}
use legacy_made_api.Prelude.Results.{ok}
use legacy_made_api.Prelude.Tables.{any, select, delete}
use legacy_made_api.Schema.{User, UserKey, EncryptedDek, KeyType, Db, as_user}
use legacy_made_api.DbService.{Cls, transaction}
use mathlib.Core.Path.{subst}
use legacy_made_api.DbService.Keeps.{user_method-signed_in}
use legacy_made_api.Encryption.Statements.{user_exists}
use legacy_made_api.Encryption.Keys.{
  is_key_of, RegisterPublicKeyDto, max_version, register_public_key, is_own_device_key, is_copy_for,
  delete_key_tx, delete_key,
}
use legacy_made_api.Encryption.KeyProofs.{
  IsBelow, max_version-IsBelow, register-Registers, registered_key,
}

delete_copies-spares :
    (u : Text) (version : ℕ) (copies : List EncryptedDek)
    → select
        (λ (d : EncryptedDek). not (d.owner_id == u))
        (delete (is_copy_for (as_user u) u version) copies)
      ≡ select (λ (d : EncryptedDek). not (d.owner_id == u)) copies
delete_copies-spares u version [] = refl
delete_copies-spares u version (d ∷ copies) = ground (arith, delete_copies-spares u version copies)

-- The keys of the user with versions up to m do not have the version after it.
delete_newest :
    (u : Text) (m : ℕ) (keys : List UserKey)
    → IsBelow u m keys
    → delete (is_own_device_key u (m + 1)) keys ≡ keys
delete_newest u m [] b = refl
delete_newest u m (k ∷ keys) (b, bs) = ground (arith, delete_newest u m keys bs)

abbrev pub others_copies : Text → Db → List EncryptedDek
others_copies u db = select (λ (d : EncryptedDek). not (d.owner_id == u)) db.encrypted_deks

-- The newest key of the user, a device key, is deleted.
abbrev Deletes : Text → List UserKey → Db → Db → Type 0
Deletes u keys db db' =
    (db'.user_keys ≡ keys) × (db'.users ≡ db.users) × (others_copies u db' ≡ others_copies u db)

delete_key-Deletes :
    (cls : Cls) (u : Text) (m : ℕ) (k : UserKey) (keys : List UserKey) (db : Db)
    → truthy cls.user_id ≡ some u
    → is_own_device_key u (m + 1) k ≡ true
    → IsBelow u m keys
    → db.user_keys ≡ k ∷ keys
    → Deletes u keys db (delete_key (m + 1) cls db).1
unfolding delete_key delete_key_tx
delete_key-Deletes cls u m k keys db signed_in own b h =
    let there : any (is_own_device_key u (m + 1)) db.user_keys ≡ true =
      subst (λ ks. any (is_own_device_key u (m + 1)) ks ≡ true) (sym h) (ground arith) in
    let gone : delete (is_own_device_key u (m + 1)) db.user_keys ≡ keys =
      subst (λ ks. delete (is_own_device_key u (m + 1)) ks ≡ keys) (sym h)
        (ground (arith, delete_newest u m keys b)) in
    rw
      (
        user_method-signed_in cls (delete_key_tx (m + 1)) db u signed_in,
        there,
        delete_key_tx,
        transaction,
      )
      (gone, refl, delete_copies-spares u (m + 1) db.encrypted_deks)

-- A user who exists and has a key registers a device key and deletes it again by its version. Then
-- the next registration, of any kind, gives the same version to another key, and every copy that
-- another user owns is still stored as it was, those for the deleted key included.
pub deleted_version_is_reused :
    (dto dto' : RegisterPublicKeyDto) (cls : Cls) (u : Text) (db : Db)
    → truthy cls.user_id ≡ some u
    → user_exists u db ≡ true
    → any (is_key_of u) db.user_keys ≡ true
    → dto.key_type ≡ KeyType.device
    → let (r, db₁) = register_public_key dto cls db in
      (version : ℕ) × (r ≡ ok (registered_key u dto version))
      × let db₂ = (delete_key version cls db₁).1 in
        ((register_public_key dto' cls db₂).0 ≡ ok (registered_key u dto' version))
        × (others_copies u db₂ ≡ others_copies u db)
deleted_version_is_reused dto dto' cls u db signed_in known has_key device =
    let (m, e, b) = max_version-IsBelow u db.user_keys has_key in
    let db₁ = (register_public_key dto cls db).1 in
    let (ok₁, keys₁, users₁, copies₁) = register-Registers dto cls u m db signed_in known e b in
    let (keys₂, users₂, copies₂) =
      delete_key-Deletes cls u m (registered_key u dto (m + 1)) db.user_keys db₁ signed_in
        (ground arith) b keys₁ in
    let db₂ = (delete_key (m + 1) cls db₁).1 in
    let (ok₂, _, _, _) =
      register-Registers dto' cls u m db₂ signed_in
        (subst (λ us. any (λ (x : User). x.id == u) us ≡ true) (sym (users₂ ∙ users₁)) known)
        (subst (λ ks. max_version u ks ≡ some m) (sym keys₂) e)
        (subst (λ ks. IsBelow u m ks) (sym keys₂) b) in
    (
      m + 1,
      ok₁,
      (ok₂, copies₂ ∙ ap (λ cs. select (λ (d : EncryptedDek). not (d.owner_id == u)) cs) copies₁),
    )
