-- ===== src/Tests/Files.antt =====
-- Examples for src/files.
use legacy_made_api.Prelude.{◌≡◌, refl, ◌≤◌, true, none, some, [], ◌∷◌}
use legacy_made_api.Prelude.Results.{ok}
use legacy_made_api.Schema.{
  TrustedContact, AccessLevel, AccessTiming, SubscriptionTier, File, Db, as_user,
}
use legacy_made_api.Prelude.Tables.{select}
use legacy_made_api.Entitlements.Evaluate.{evaluate_pillar_access, is_subscription_expired}
use legacy_made_api.Entitlements.Usage.{count_usage, stored_bytes, sum_bytes, joined_items, joined}
use legacy_made_api.Entitlements.Service.{
  get_tier_in_tx, with_entitlement_tx, get_entitlement_user_id, is_checking_plan_owner,
  get_subscription, current_tier, require_pillar_access_in_tx, require_file_size_quota_in_tx,
  get_usage_in_tx, evaluate_upload, can_upload_file_size_in_tx,
}
use legacy_made_api.TrustedContacts.{new_contact}
use legacy_made_api.Invitations.{set_accepted}
use legacy_made_api.Files.{Access, is_changed_file, find_one_in_tx, find_one_with_pillar_check}
use legacy_made_api.Files.Storage.{Client, create_presigned_upload_url}
use legacy_made_api.Files.Upload.{
  FileParent, InitiateUploadDto, UploadInitResult, parent_exists, find_parent_file, insert_file,
  start_upload, initiate_tx, initiate_upload,
}
use legacy_made_api.Files.Share.{create_share_link, access_shared_file}
use legacy_made_api.Files.Removal.{is_child, storage_keys, remove_tx, remove}
use legacy_made_api.Files.Removed.{Removed, remove-Removed, remove_by_viewer}
use legacy_made_api.Files.Links.{share_link_lasts}
use legacy_made_api.Files.Quota.{initiate_upload_keeps_limit}
use legacy_made_api.Tests.{alice, bob, plan_of_alice, photo, database, request}

-- A photo of Alice's and its thumbnail.
abbrev pub family_db : Db
family_db = record database {
  files = record (photo 31 1000) { parent_file_id = some 30 } ∷ photo 30 2000000 ∷ [];
}

-- Bob may look at everything.
abbrev viewer : TrustedContact
viewer = set_accepted 7 bob (
    new_contact 50 plan_of_alice (record {
      email = 102;
      first_name = 3;
      last_name = 4;
      relationship = none;
      access_level = AccessLevel.full_view;
      access_timing = AccessTiming.immediate;
      notes = none;
    }))

abbrev pub viewed_db : Db
viewed_db = record family_db { trusted_contacts = viewer ∷ [] }

-- A storage that signs everything.
abbrev pub client : Client
client = record {
  sign_put = λ key type. some 90;
  sign_get = λ key. some 91;
  sign_part = λ key upload_id n. some 92;
  send_create = λ key type. some (some 93);
  send_complete = λ key upload_id parts. true;
}

-- After Alice has removed the photo, and with it its thumbnail.
abbrev emptied_db : Db
emptied_db = (remove 100 30 (request alice) family_db).1

remove-Removed_example :
    (f : File) × (find_one_with_pillar_check 100
        (request alice)
        30
        Access.modify
        (as_user alice)
        family_db
      ≡ ok f)
    × (30 ∷ 31 ∷ []
        ≡ storage_keys (f ∷ select (is_child (as_user alice) family_db 30) family_db.files))
    × Removed (is_changed_file (as_user alice) family_db 30) family_db.files emptied_db.files
    × (emptied_db ≡ record family_db { files = emptied_db.files })
unfolding remove remove_tx find_one_with_pillar_check find_one_in_tx require_pillar_access_in_tx
    get_tier_in_tx with_entitlement_tx evaluate_pillar_access current_tier get_subscription
    is_subscription_expired
remove-Removed_example =
    remove-Removed 100 30 alice (request alice) (30 ∷ 31 ∷ []) family_db emptied_db refl refl

remove_by_viewer_example : remove 100 30 (request bob) viewed_db ≡ (ok (30 ∷ 31 ∷ []), viewed_db)
unfolding find_one_with_pillar_check find_one_in_tx require_pillar_access_in_tx get_tier_in_tx
    with_entitlement_tx evaluate_pillar_access current_tier get_subscription is_subscription_expired
remove_by_viewer_example =
    remove_by_viewer 100 30 bob (request bob) (photo 30 2000000) viewed_db refl refl refl refl

share_link_lasts_example :
    let (r, db') = create_share_link 100 60 30 1 (request alice) family_db in
    (r ≡ ok (record { share_token = 60; expires_at = 3600100 }))
    × ((access_shared_file client 3600100 60 db').0 ≡ ok 91)
unfolding find_one_with_pillar_check find_one_in_tx require_pillar_access_in_tx get_tier_in_tx
    with_entitlement_tx evaluate_pillar_access current_tier get_subscription is_subscription_expired
share_link_lasts_example =
    share_link_lasts client 100 3600100 60 30 alice 91 1 (request alice) (photo 30 2000000)
      family_db refl refl refl refl refl refl

abbrev upload : InitiateUploadDto
upload = record {
  role = 1;
  parent_file_id = some 30;
  filename = 2;
  mime_type = 3;
  size_bytes = 3000000;
  is_encrypted = true;
}

abbrev answer : UploadInitResult
answer = record {
  file_id = 32;
  upload_url = some 90;
  expires_at = 3600100;
  upload_id = none;
  parts = none;
}

initiate_upload_keeps_limit_example : 5 ≤ 500
unfolding get_tier_in_tx with_entitlement_tx current_tier get_subscription is_subscription_expired
    initiate_upload initiate_tx parent_exists require_file_size_quota_in_tx get_usage_in_tx
    evaluate_upload count_usage stored_bytes sum_bytes joined_items joined find_parent_file
    can_upload_file_size_in_tx get_entitlement_user_id is_checking_plan_owner
    create_presigned_upload_url insert_file start_upload
initiate_upload_keeps_limit_example =
    initiate_upload_keeps_limit client 100000000 100 500 5 32 33 alice (FileParent.entry 20) upload
      (request alice) database
      (initiate_upload client 100000000 100 32 33 (FileParent.entry 20) upload (request alice)
        database).1
      SubscriptionTier.individual answer (refl, tt) ((refl, tt), tt, tt) refl refl refl refl refl
