-- ===== src/PushNotifications/Tokens.antt =====
-- `registerToken` and `unregisterToken` of src/push-notifications/push-notifications.service.ts.
use legacy_made_api.Prelude.{ℕ, Bool, ◌&&◌, not, Option, none, some, ◌∷◌, Text, ◌==◌}
use legacy_made_api.Prelude.Results.{ok, err, ◌>>◌, throw_if}
use legacy_made_api.Prelude.Tables.{find, update, delete}
use legacy_made_api.Schema.{PushToken, Session, is_current_user}
use legacy_made_api.Errors.{foreign_key_violation, rls_violation}
use legacy_made_api.DbService.{Cls, Tx, Method, rls, with_user_id}
use legacy_made_api.Encryption.Statements.{user_exists}
use legacy_made_api.Preferences.Service.{ensure_preferences_exist}

-- `RegisterTokenDto`
pub record RegisterTokenDto : Type 0 where
  pub token : Text
  pub platform : Option Text

abbrev pub token_row : Text → RegisterTokenDto → PushToken
token_row u dto = record { user_id = u; token = dto.token; platform = dto.platform }

-- the unique column
abbrev pub has_token : Text → PushToken → Bool
has_token token t = t.token == token

-- SET platform = …, which leaves the column where the body has none
abbrev pub set_platform : Option Text → PushToken → PushToken
set_platform none t = t
set_platform (some platform) t = record t { platform = some platform }

-- INSERT … ON CONFLICT (token) DO UPDATE. A row that is in the way and that the policy of the table
-- does not let the user change is an error.
unfoldable pub upsert_token_tx : Text → RegisterTokenDto → Session → Tx PushToken
upsert_token_tx u dto s db =
    throw_if (not (is_current_user s u)) rls_violation
    >> (elim (find (has_token dto.token) db.push_tokens) [
      | some t ↦
          throw_if (not (is_current_user s t.user_id)) rls_violation
          >> ok (
            set_platform dto.platform t,
            record db {
              push_tokens = update (has_token dto.token) (set_platform dto.platform) db.push_tokens;
            },
          )
      | none ↦
          throw_if (not (user_exists u db)) foreign_key_violation
          >> ok (token_row u dto, record db { push_tokens = token_row u dto ∷ db.push_tokens })
    ])

-- The part of `registerToken` behind its first transaction.
unfoldable pub ensured : ℕ → Text → PushToken → Method PushToken
ensured now u t db =
    let (done, db') = ensure_preferences_exist now u db in
    elim done [ err e ↦ (err e, db') | ok _ ↦ (ok t, db') ]

unfoldable pub register_for : ℕ → RegisterTokenDto → Cls → Text → Method PushToken
unfolding upsert_token_tx ensured
register_for now dto cls u db =
    let (stored, db') = rls cls (upsert_token_tx u dto) db in
    elim stored [ err e ↦ (err e, db') | ok t ↦ ensured now u t db' ]

-- `registerToken`
unfoldable pub register_token : ℕ → RegisterTokenDto → Cls → Method PushToken
unfolding register_for
register_token now dto cls = with_user_id cls (register_for now dto cls)

-- WHERE user_id = … AND token = …, under the policy
abbrev pub is_own_token : Session → Text → Text → PushToken → Bool
is_own_token s u token t = is_current_user s t.user_id && (t.user_id == u && t.token == token)

unfoldable pub unregister_tx : Text → Text → Session → Tx (Unit {0})
unregister_tx u token s db =
    ok (tt, record db { push_tokens = delete (is_own_token s u token) db.push_tokens })

-- `unregisterToken`
unfoldable pub unregister_token : Text → Cls → Method (Unit {0})
unfolding unregister_tx
unregister_token token cls = with_user_id cls (λ u. rls cls (unregister_tx u token))
