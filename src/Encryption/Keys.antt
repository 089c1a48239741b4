-- ===== src/Encryption/Keys.antt =====
-- User keys: `setupEncryption`, `registerPublicKey`, `deleteKey` and `deactivateKey` of
-- src/encryption/encryption.service.ts. The keys of all users are visible in a transaction with a
-- user, and a user changes only their own.
use legacy_made_api.Prelude.{
  ℕ, ◌+◌, Bool, true, false, ◌&&◌, not, Option, none, some, List, [], ◌∷◌, Text, ltb, ◌==◌,
  if◌then◌else◌,
}
use legacy_made_api.Prelude.Results.{ok, err, ◌>>=◌, ◌>>◌, throw_if, or_throw}
use legacy_made_api.Prelude.Tables.{any, find, update, delete}
use legacy_made_api.Schema.{
  UserKey, EncryptedDek, KeyType, is_device_key, DekType, recovery_key_registered, key_registered,
  Db, Session, dek_owned,
}
use legacy_made_api.Errors.{not_found, conflict, bad_request}
use legacy_made_api.DbService.{Cls, Tx, Method, rls, with_user_id}
use legacy_made_api.Encryption.Statements.{
  find_plan, is_key, insert_key, insert_dek, recovery_event, log_event,
}

pub record SetupEncryptionDto : Type 0 where
  pub public_key : Text
  pub plan_id : Text
  pub encrypted_dek : Text
  pub device_label : Option Text

abbrev pub new_key : Text → Text → ℕ → KeyType → Option Text → UserKey
new_key user_id public_key version key_type label = record {
  user_id = user_id;
  public_key = public_key;
  key_version = version;
  key_type = key_type;
  device_label = label;
  is_active = true;
  deactivated_at = none;
}

abbrev owner_dek : SetupEncryptionDto → Text → EncryptedDek
owner_dek dto u = record {
  plan_id = dto.plan_id;
  owner_id = u;
  recipient_id = u;
  dek_type = DekType.device;
  encrypted_dek = dto.encrypted_dek;
  key_version = 1;
}

abbrev pub is_key_of : Text → UserKey → Bool
is_key_of u k = k.user_id == u

unfoldable setup_tx : SetupEncryptionDto → Text → Session → Tx ℕ
setup_tx dto u s db = or_throw (find_plan s dto.plan_id db) not_found >>= λ plan.
    throw_if (any (is_key_of u) db.user_keys) conflict
    >> insert_key s (new_key u dto.public_key 1 KeyType.device dto.device_label) db
    >>= λ db₁. insert_dek s (owner_dek dto u) db₁ >>= λ db₂. ok (1, db₂)

-- `setupEncryption`, with the version of the key
unfoldable setup_encryption : SetupEncryptionDto → Cls → Method ℕ
setup_encryption dto cls = with_user_id cls (λ u. rls cls (setup_tx dto u))

pub record RegisterPublicKeyDto : Type 0 where
  pub public_key : Text
  pub key_type : KeyType
  pub device_label : Option Text

-- `rows.rows[0].key_version` of SELECT key_version … ORDER BY key_version DESC
unfoldable pub max_version : Text → List UserKey → Option ℕ
max_version u [] = none
max_version u (k ∷ keys) =
    let rest = max_version u keys in
    if is_key_of u k
    then elim rest [
      | none ↦ some k.key_version
      | some m ↦ if ltb k.key_version m then some m else some k.key_version
    ]
    else rest

-- `if (dto.keyType === 'recovery')` the event is logged.
unfoldable pub log_registration : Cls → Text → RegisterPublicKeyDto → KeyType → ℕ → Db → Db
log_registration cls u dto KeyType.device version db = db
log_registration cls u dto KeyType.recovery version db =
    log_event
      (recovery_event cls u recovery_key_registered (key_registered version dto.device_label)) db

unfoldable pub register_tx : Cls → RegisterPublicKeyDto → Text → Session → Tx UserKey
unfolding log_registration
register_tx cls dto u s db = or_throw (max_version u db.user_keys) not_found >>= λ max.
    let k = new_key u dto.public_key (max + 1) dto.key_type dto.device_label in
    insert_key s k db >>= λ db₁. ok (k, log_registration cls u dto dto.key_type (max + 1) db₁)

-- `registerPublicKey`
unfoldable pub register_public_key : RegisterPublicKeyDto → Cls → Method UserKey
register_public_key dto cls = with_user_id cls (λ u. rls cls (register_tx cls dto u))

abbrev pub is_own_device_key : Text → ℕ → UserKey → Bool
is_own_device_key u version k = is_key u version k && is_device_key k.key_type

-- The copies for a key: those with this recipient and version, of which a user deletes the ones that
-- they own.
abbrev pub is_copy_for : Session → Text → ℕ → EncryptedDek → Bool
is_copy_for s u version d = dek_owned s d && d.recipient_id == u && d.key_version == version

abbrev delete_copies : Session → Text → ℕ → Db → Db
delete_copies s u version db = record db {
  encrypted_deks = delete (is_copy_for s u version) db.encrypted_deks;
}

unfoldable pub delete_key_tx : ℕ → Text → Session → Tx ℕ
delete_key_tx version u s db =
    if any (is_own_device_key u version) db.user_keys
    then ok (
      version,
      delete_copies s u version
          (record db { user_keys = delete (is_own_device_key u version) db.user_keys }),
    )
    else err not_found

-- `deleteKey`
unfoldable pub delete_key : ℕ → Cls → Method ℕ
delete_key version cls = with_user_id cls (λ u. rls cls (delete_key_tx version u))

abbrev pub set_inactive : ℕ → UserKey → UserKey
set_inactive now k = record k { is_active = false; deactivated_at = some now }

unfoldable pub deactivate_key_tx : ℕ → ℕ → Text → Session → Tx UserKey
deactivate_key_tx now version u s db =
    or_throw (find (is_key u version) db.user_keys) not_found >>= λ k.
    throw_if (not (is_device_key k.key_type)) bad_request
    >> throw_if (not k.is_active) conflict
    >> ok (
      set_inactive now k,
      delete_copies s u version
          (record db { user_keys = update (is_key u version) (set_inactive now) db.user_keys }),
    )

-- `deactivateKey`
unfoldable pub deactivate_key : ℕ → ℕ → Cls → Method UserKey
deactivate_key now version cls = with_user_id cls (λ u. rls cls (deactivate_key_tx now version u))
