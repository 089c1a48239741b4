-- ===== src/Encryption/KeyProofs.antt =====
-- The versions of user keys in `registerPublicKey` of src/encryption/encryption.service.ts.
use legacy_made_api.Prelude.{
  ◌≡◌, refl, sym, ℕ, ◌+◌, ◌≤◌, true, false, none, some, List, [], ◌∷◌, Text, truthy, inl, inr, ltb,
  arith, Bool-cases, Option-cases,
}
use legacy_made_api.Prelude.Results.{ok, err}
use legacy_made_api.Prelude.Tables.{All, any}
use legacy_made_api.Schema.{UserKey, KeyType, Db, as_user}
use legacy_made_api.Errors.{Result}
use legacy_made_api.DbService.{Cls, transaction}
use mathlib.Core.Path.{subst}
use legacy_made_api.DbService.Keeps.{user_method-signed_in}
use legacy_made_api.Encryption.Statements.{is_key, insert_key, user_exists}
use legacy_made_api.Encryption.Keys.{
  new_key, is_key_of, RegisterPublicKeyDto, max_version, register_tx, register_public_key,
  log_registration,
}

-- The keys of the user have versions up to m.
abbrev pub IsBelow : Text → ℕ → List UserKey → Type 0
IsBelow u m = All (λ (k : UserKey). is_key_of u k ≡ true → k.key_version ≤ m)

IsBelow-mono :
    (u : Text) (m n : ℕ) (keys : List UserKey) → m ≤ n → IsBelow u m keys → IsBelow u n keys
IsBelow-mono u m n [] h b = tt
IsBelow-mono u m n (k ∷ keys) h (b, bs) = ((λ e. omega (arith, b e)), IsBelow-mono u m n keys h bs)

no_key-max_version :
    (u : Text) (keys : List UserKey)
    → any (is_key_of u) keys ≡ false
    → (max_version u keys ≡ none) × ((m : ℕ) → IsBelow u m keys)
unfolding max_version
no_key-max_version u [] h = (refl, λ m. tt)
no_key-max_version u (k ∷ keys) h =
    let (e, b) = no_key-max_version u keys (ground arith) in
    (ground arith, λ m. ((λ own. absurd (ground arith)), b m))

-- A user with a key has a greatest version, and it bounds all.
pub max_version-IsBelow :
    (u : Text) (keys : List UserKey)
    → any (is_key_of u) keys ≡ true
    → (m : ℕ) × (max_version u keys ≡ some m) × IsBelow u m keys
unfolding max_version
max_version-IsBelow u [] h = absurd (ground arith)
max_version-IsBelow u (k ∷ keys) h = elim (Bool-cases (any (is_key_of u) keys)) [
  | inr nobody ↦
      let (e, b) = no_key-max_version u keys nobody in
      (k.key_version, ground arith, ((λ own. omega arith), b k.key_version))
  | inl some_key ↦
      let (m, e, b) = max_version-IsBelow u keys some_key in
      elim (Bool-cases (is_key_of u k)) [
        | inr other ↦ (m, ground arith, ((λ own. absurd (ground arith)), b))
        | inl own ↦ elim (Bool-cases (ltb k.key_version m)) [
          | inl less ↦ (m, ground arith, ((λ _. ground arith), b))
          | inr greater ↦ (
            k.key_version,
            ground arith,
            ((λ _. omega arith), IsBelow-mono u m k.key_version keys (ground arith) b),
          )
        ]
      ]
]

next_version_free :
    (u : Text) (m : ℕ) (keys : List UserKey)
    → IsBelow u m keys
    → any (is_key u (m + 1)) keys ≡ false
next_version_free u m [] b = refl
next_version_free u m (k ∷ keys) (b, bs) = ground (arith, next_version_free u m keys bs)

max_version-found :
    (u : Text) (m : ℕ) (keys : List UserKey)
    → max_version u keys ≡ some m
    → any (is_key u m) keys ≡ true
unfolding max_version
max_version-found u m [] e = absurd (ground arith)
max_version-found u m (k ∷ keys) e = elim (Option-cases (max_version u keys)) [
  | inl nobody ↦ ground arith
  | inr (n, g) ↦ ground (arith, max_version-found u n keys g)
]

-- The key that a registration makes.
abbrev pub registered_key : Text → RegisterPublicKeyDto → ℕ → UserKey
registered_key u dto version = new_key u dto.public_key version dto.key_type dto.device_label

module _ (cls : Cls) (u : Text) where
  -- The outcome of a registration of the version after m.
  abbrev pub Registers : RegisterPublicKeyDto → ℕ → Db → Result UserKey × Db → Type 0
  Registers dto m db (r, db') =
      (r ≡ ok (registered_key u dto (m + 1)))
      × (db'.user_keys ≡ registered_key u dto (m + 1) ∷ db.user_keys)
      × (db'.users ≡ db.users)
      × (db'.encrypted_deks ≡ db.encrypted_deks)

  register_tx-eq-ok :
      (dto : RegisterPublicKeyDto) (m : ℕ) (db : Db)
      → user_exists u db ≡ true
      → max_version u db.user_keys ≡ some m
      → IsBelow u m db.user_keys
      → register_tx cls dto u (as_user u) db
        ≡ ok (
          registered_key u dto (m + 1),
          log_registration cls u dto dto.key_type
              (m + 1)
              (record db { user_keys = registered_key u dto (m + 1) ∷ db.user_keys }),
        )
  unfolding register_tx insert_key
  register_tx-eq-ok dto m db known e b =
      ground (arith, e, next_version_free u m db.user_keys b, known)

  log_registration_keeps :
      (dto : RegisterPublicKeyDto) (t : KeyType) (version : ℕ) (db : Db)
      → let db' = log_registration cls u dto t version db in
        (db'.user_keys ≡ db.user_keys)
        × (db'.users ≡ db.users)
        × (db'.encrypted_deks ≡ db.encrypted_deks)
  unfolding log_registration
  log_registration_keeps dto KeyType.device version db = (refl, refl, refl)
  log_registration_keeps dto KeyType.recovery version db = (refl, refl, refl)

  register_tx-Registers :
      (dto : RegisterPublicKeyDto) (m : ℕ) (db : Db)
      → user_exists u db ≡ true
      → max_version u db.user_keys ≡ some m
      → IsBelow u m db.user_keys
      → Registers dto m db (transaction (register_tx cls dto u (as_user u)) db)
  register_tx-Registers dto m db known e b =
      subst (λ r. Registers dto m db (elim r [ ok p ↦ (ok p.0, p.1) | err t ↦ (err t, db) ]))
        (sym (register_tx-eq-ok dto m db known e b))
        (let (keys, users, copies) =
            log_registration_keeps dto dto.key_type (m + 1)
              (record db { user_keys = registered_key u dto (m + 1) ∷ db.user_keys }) in
          (refl, keys, users, copies))

pub register-Registers :
    (dto : RegisterPublicKeyDto) (cls : Cls) (u : Text) (m : ℕ) (db : Db)
    → truthy cls.user_id ≡ some u
    → user_exists u db ≡ true
    → max_version u db.user_keys ≡ some m
    → IsBelow u m db.user_keys
    → Registers cls u dto m db (register_public_key dto cls db)
unfolding register_public_key
register-Registers dto cls u m db signed_in known e b =
    subst (λ r. Registers cls u dto m db r)
      (sym (user_method-signed_in cls (register_tx cls dto) db u signed_in))
      (register_tx-Registers cls u dto m db known e b)

-- A registration by a signed-in user who exists and has a key succeeds: the new key has the version
-- after the greatest of the user's versions, and it is added to the keys, which stay as they are.
pub register_public_key-Registers :
    (dto : RegisterPublicKeyDto) (cls : Cls) (u : Text) (db : Db)
    → truthy cls.user_id ≡ some u
    → user_exists u db ≡ true
    → any (is_key_of u) db.user_keys ≡ true
    → (m : ℕ) × IsBelow u m db.user_keys
      × any (is_key u m) db.user_keys ≡ true
      × Registers cls u dto m db (register_public_key dto cls db)
register_public_key-Registers dto cls u db signed_in known has_key =
    let (m, e, b) = max_version-IsBelow u db.user_keys has_key in
    (
      m,
      b,
      max_version-found u m db.user_keys e,
      register-Registers dto cls u m db signed_in known e b,
    )
