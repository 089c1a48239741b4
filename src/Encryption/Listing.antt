-- ===== src/Encryption/Listing.antt =====
-- The lists of src/encryption/encryption.service.ts: getMyKeys, getUserKeys, getUserKeysByEmail,
-- getEncryptedDeksForOwner and getRecoveryEvents. Every session sees all public keys.
use legacy_made_api.Prelude.{
  ℕ, Bool, true, false, ◌&&◌, ◌||◌, not, Option, none, some, List, [], ◌∷◌, map, Text, truthy, ◌==◌,
}
use legacy_made_api.Prelude.Order.{ℤ, pos, negsuc, order_by}
use legacy_made_api.Prelude.Results.{ok}
use legacy_made_api.Prelude.Tables.{any, select}
use legacy_made_api.Schema.{
  User, UserKey, KeyType, EncryptedDek, KeyRecoveryEvent, Db, Session, is_current_user,
  dek_readable, is_user,
}
use legacy_made_api.DbService.{Cls, Tx, Method, rls, bypass_rls, with_user_id}

abbrev pub version_of : UserKey → ℤ
version_of k = pos k.key_version

-- `desc(userKeys.keyVersion)`
abbrev pub version_descending : UserKey → ℤ
version_descending k = negsuc k.key_version

-- `eq(userKeys.isActive, active)`
abbrev pub is_active_as : Option Bool → UserKey → Bool
is_active_as none k = true
is_active_as (some true) k = k.is_active
is_active_as (some false) k = not k.is_active

unfoldable pub my_keys_tx : Option Bool → Text → Session → Tx (List UserKey)
my_keys_tx active u s db =
    ok
      (order_by version_of (select (λ k. k.user_id == u && is_active_as active k) db.user_keys), db)

-- `getMyKeys`
unfoldable pub get_my_keys : Option Bool → Cls → Method (List UserKey)
unfolding my_keys_tx
get_my_keys active cls = with_user_id cls (λ u. rls cls (my_keys_tx active u))

unfoldable pub user_keys_tx : Text → Bool → Session → Tx (List UserKey)
user_keys_tx user_id include_inactive s db = ok (
  order_by version_of
      (select (λ k. k.user_id == user_id && (include_inactive || k.is_active)) db.user_keys),
  db,
)

-- `getUserKeys`
unfoldable pub get_user_keys : Text → Bool → Cls → Method (List UserKey)
unfolding user_keys_tx
get_user_keys user_id include_inactive cls = rls cls (user_keys_tx user_id include_inactive)

-- the columns of a key in the answer to an e-mail
pub record FoundKey : Type 0 where
  pub public_key : Text
  pub key_version : ℕ
  pub key_type : KeyType
  pub is_active : Bool

abbrev pub found_key : UserKey → FoundKey
found_key k = record {
  public_key = k.public_key;
  key_version = k.key_version;
  key_type = k.key_type;
  is_active = k.is_active;
}

-- the join with users, and the WHERE
abbrev pub is_key_of_email : Text → Db → UserKey → Bool
is_key_of_email email db k =
    k.is_active && any (λ (u : User). u.id == k.user_id && is_user email u.email) db.users

-- the answer: found, with the user of the first row, or not
abbrev pub found_keys : List UserKey → Option (Text × List FoundKey)
found_keys [] = none
found_keys (k ∷ rows) = some (k.user_id, map found_key (k ∷ rows))

unfoldable pub keys_by_email_tx : Text → Session → Tx (Option (Text × List FoundKey))
keys_by_email_tx email s db =
    ok (
      found_keys (order_by version_descending (select (is_key_of_email email db) db.user_keys)),
      db,
    )

-- `getUserKeysByEmail`
unfoldable pub get_user_keys_by_email : Text → Method (Option (Text × List FoundKey))
unfolding keys_by_email_tx
get_user_keys_by_email email = bypass_rls (keys_by_email_tx email)

-- `if (planId)` and its condition
abbrev pub is_of_plan : Option Text → EncryptedDek → Bool
is_of_plan none d = true
is_of_plan (some p) d = d.plan_id == p

unfoldable pub deks_for_owner_tx : Option Text → Text → Session → Tx (List EncryptedDek)
deks_for_owner_tx plan_id u s db = ok (
  select (λ d. dek_readable s d && (d.owner_id == u && is_of_plan (truthy plan_id) d))
      db.encrypted_deks,
  db,
)

-- `getEncryptedDeksForOwner`
unfoldable pub get_encrypted_deks_for_owner : Option Text → Cls → Method (List EncryptedDek)
unfolding deks_for_owner_tx
get_encrypted_deks_for_owner plan_id cls =
    with_user_id cls (λ u. rls cls (deks_for_owner_tx plan_id u))

unfoldable pub recovery_events_tx : Text → Session → Tx (List KeyRecoveryEvent)
recovery_events_tx u s db =
    ok (select (λ e. is_current_user s e.user_id && e.user_id == u) db.key_recovery_events, db)

-- `getRecoveryEvents`
unfoldable pub get_recovery_events : Cls → Method (List KeyRecoveryEvent)
unfolding recovery_events_tx
get_recovery_events cls = with_user_id cls (λ u. rls cls (recovery_events_tx u))
