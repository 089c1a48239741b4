-- ===== src/Encryption/Deactivation.antt =====
-- `deactivateKey` of src/encryption/encryption.service.ts, called again.
use legacy_made_api.Prelude.{
  ◌≡◌, refl, sym, ◌∙◌, ap, ℕ, true, false, Option, none, some, Text, truthy, inl, inr, arith,
  Bool-cases,
}
use legacy_made_api.Prelude.Results.{ok, err}
use legacy_made_api.Prelude.Tables.{find, update}
use legacy_made_api.TableLaws.{find-update, map_option, updated, find_sound}
use legacy_made_api.Schema.{UserKey, is_device_key, Db, as_user}
use legacy_made_api.Errors.{conflict}
use legacy_made_api.DbService.{Cls, transaction}
use legacy_made_api.DbService.Keeps.{user_method-signed_in, transaction-ok}
use legacy_made_api.Encryption.Statements.{is_key}
use legacy_made_api.Encryption.Keys.{set_inactive, deactivate_key_tx, deactivate_key}

deactivate_key_tx-found :
    (now version : ℕ) (u : Text) (k : UserKey) (db db' : Db) (o : Option UserKey)
    → find (is_key u version) db.user_keys ≡ o
    → deactivate_key_tx now version u (as_user u) db ≡ ok (k, db')
    → (r : UserKey) × (o ≡ some r)
      × (is_device_key r.key_type ≡ true)
      × (db'.user_keys ≡ update (is_key u version) (set_inactive now) db.user_keys)
unfolding deactivate_key_tx
deactivate_key_tx-found now version u k db db' none found h = absurd (ground arith)
deactivate_key_tx-found now version u k db db' (some r) found h =
    elim (Bool-cases (is_device_key r.key_type)) [
      | inl device ↦ elim (Bool-cases r.is_active) [
        | inl act ↦ (r, refl, device, ground arith)
        | inr inact ↦ absurd (ground arith)
      ]
      | inr other ↦ absurd (ground arith)
    ]

-- A deactivated device key is refused.
deactivate_key_tx-inactive :
    (now version : ℕ) (u : Text) (r : UserKey) (db : Db)
    → find (is_key u version) db.user_keys ≡ some r
    → is_device_key r.key_type ≡ true
    → r.is_active ≡ false
    → (transaction (deactivate_key_tx now version u (as_user u)) db).0 ≡ err conflict
unfolding deactivate_key_tx
deactivate_key_tx-inactive now version u r db found device inact = ground arith

-- After a device key has been deactivated by a signed-in user, every further deactivation of this
-- version by the user, at whatever time, is refused as a conflict.
pub deactivate_key_once :
    (now later version : ℕ) (cls : Cls) (u : Text) (k : UserKey) (db db' : Db)
    → truthy cls.user_id ≡ some u
    → deactivate_key now version cls db ≡ (ok k, db')
    → (deactivate_key later version cls db').0 ≡ err conflict
unfolding deactivate_key
deactivate_key_once now later version cls u k db db' signed_in h =
    let (r, found, device, keys) =
      deactivate_key_tx-found now version u k db db' (find (is_key u version) db.user_keys) refl (
        transaction-ok (deactivate_key_tx now version u (as_user u)) db db'
          (sym (user_method-signed_in cls (deactivate_key_tx now version) db u signed_in) ∙ h)) in
    let own : is_key u version r ≡ true = find_sound (is_key u version) db.user_keys found in
    let found' : find (is_key u version) db'.user_keys ≡ some (set_inactive now r) =
      ap (find (is_key u version)) keys
      ∙ find-update (is_key u version) (is_key u version) (set_inactive now) (λ x. refl)
          db.user_keys
      ∙ ap (map_option (updated (is_key u version) (set_inactive now))) found
      ∙ ground arith in
    rw (user_method-signed_in cls (deactivate_key_tx later version) db' u signed_in)
      (deactivate_key_tx-inactive later version u (set_inactive now r) db' found' device refl)
