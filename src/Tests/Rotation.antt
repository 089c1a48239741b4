-- ===== src/Tests/Rotation.antt =====
-- Examples for the keys and the rotation of src/encryption/encryption.service.ts.
use legacy_made_api.Prelude.{arith, ◌≡◌, refl, none, some, arith, [], ◌∷◌, ℕ}
use legacy_made_api.Prelude.Results.{ok}
use legacy_made_api.Schema.{KeyType, DekType, Db}
use legacy_made_api.Encryption.Statements.{insert_dek, check_dek}
use legacy_made_api.Encryption.Keys.{RegisterPublicKeyDto, register_public_key, delete_key, new_key}
use legacy_made_api.Encryption.Rotation.{
  RotateDeksDto, check_keys, check_contacts, insert_deks, log_rotation, rotate_tx, rotate_deks,
}
use legacy_made_api.Encryption.KeyProofs.{registered_key}
use legacy_made_api.Encryption.Reuse.{others_copies, deleted_version_is_reused}
use legacy_made_api.Encryption.RotationProofs.{Rotated, rotate_deks-Rotated}
use legacy_made_api.Encryption.RotationSuccess.{rotate_deks_returns}
use legacy_made_api.Tests.{alice, bob, plan_of_alice, escrow_copy, database, request}

-- Two keys of the first user, a key of the second.
abbrev with_keys : Db
with_keys = record database {
  user_keys =
      new_key alice 71 1 KeyType.device none
      ∷ new_key bob 72 1 KeyType.device none
      ∷ new_key alice 73 2 KeyType.recovery none
      ∷ [];
}

abbrev dto : RegisterPublicKeyDto
dto = record { public_key = 74; key_type = KeyType.device; device_label = some 75 }

abbrev recovery_dto : RegisterPublicKeyDto
recovery_dto = record { public_key = 76; key_type = KeyType.recovery; device_label = none }

deleted_version_is_reused_example :
    let (r, db₁) = register_public_key dto (request alice) with_keys in
    (version : ℕ) × (r ≡ ok (registered_key alice dto version))
    × let db₂ = (delete_key version (request alice) db₁).1 in
      ((register_public_key recovery_dto (request alice) db₂).0
        ≡ ok (registered_key alice recovery_dto version))
      × (others_copies alice db₂ ≡ others_copies alice with_keys)
deleted_version_is_reused_example =
    deleted_version_is_reused dto recovery_dto (request alice) alice with_keys refl refl refl refl

abbrev rotation : RotateDeksDto
rotation = record {
  plan_id = plan_of_alice;
  new_deks =
      record {
        recipient_id = alice;
        dek_type = DekType.device;
        encrypted_dek = 81;
        key_version = 1;
      }
      ∷ record {
        recipient_id = alice;
        dek_type = DekType.recovery;
        encrypted_dek = 82;
        key_version = 2;
      }
      ∷ [];
}

-- An old copy for the first key, beside the escrow copy.
abbrev before_rotation : Db
before_rotation = record with_keys {
  encrypted_deks =
      record {
        plan_id = plan_of_alice;
        owner_id = alice;
        recipient_id = alice;
        dek_type = DekType.device;
        encrypted_dek = 80;
        key_version = 1;
      }
      ∷ escrow_copy
      ∷ [];
}

rotate_deks-Rotated_example :
    Rotated alice plan_of_alice rotation.new_deks before_rotation
      (rotate_deks rotation (request alice) before_rotation).1
unfolding rotate_deks rotate_tx check_keys check_contacts insert_deks insert_dek check_dek
    log_rotation
rotate_deks-Rotated_example =
    rotate_deks-Rotated rotation (request alice) alice before_rotation
      (rotate_deks rotation (request alice) before_rotation).1 refl (refl, (refl, tt)) refl

rotate_deks_returns_example : (rotate_deks rotation (request alice) before_rotation).0 ≡ ok tt
rotate_deks_returns_example =
    rotate_deks_returns rotation (request alice) alice before_rotation refl refl refl
      (refl, (refl, tt)) (refl, (refl, tt))
      ((λ e. absurd (ground arith)), ((λ e. absurd (ground arith)), tt)) (refl, (refl, tt))
      ((refl, tt), (tt, tt))
