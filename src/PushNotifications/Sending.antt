-- ===== src/PushNotifications/Sending.antt =====
-- `sendToUser` of src/push-notifications/push-notifications.service.ts. The SDK of Expo is a
-- parameter: which texts are tokens, how messages are cut into chunks, and the tickets that a chunk
-- is answered with, or a throw. Title, body and data only go to it. The removal of tokens, which the
-- method does not wait for, is done when it is called.
use legacy_made_api.Prelude.{
  Bool, Option, none, some, List, [], ◌∷◌, ◌++◌, Text, ◌==◌, ◌||◌, if◌then◌else◌,
}
use legacy_made_api.Prelude.Results.{ok, err, ◌>>=◌}
use legacy_made_api.Prelude.Tables.{any, select, delete}
use legacy_made_api.Schema.{PushToken, Db}
use legacy_made_api.Errors.{Result, internal}
use legacy_made_api.DbService.{Method}

-- `ExpoPushTicket`, by its status and the error in its details
pub data Ticket : Type 0 where
  accepted : Ticket
  device_not_registered : Ticket
  other_error : Ticket

-- The SDK; a message is the token that it goes to.
pub record Expo : Type 0 where
  pub is_expo_push_token : Text → Bool
  pub chunk_push_notifications : List Text → List (List Text)
  pub send_push_notifications : List Text → Result (List Ticket)

-- `NODE_ENV` and `PUSH_NOTIFICATION_ALLOWLIST`
pub record PushConfig : Type 0 where
  pub is_production : Bool
  pub allowlist : List Text

abbrev pub is_allowed : PushConfig → Text → Bool
is_allowed config u = config.is_production || any (λ a. a == u) config.allowlist

abbrev pub tokens_of : List PushToken → List Text
tokens_of [] = []
tokens_of (t ∷ rows) = t.token ∷ tokens_of rows

abbrev pub is_token_of : Text → PushToken → Bool
is_token_of u t = t.user_id == u

-- `getTokensForUser`
unfoldable pub get_tokens_for_user : Text → Db → List Text
get_tokens_for_user u db = tokens_of (select (is_token_of u) db.push_tokens)

abbrev pub is_listed_token : List Text → PushToken → Bool
is_listed_token tokens t = any (λ token. t.token == token) tokens

-- `removeStaleTokens`
unfoldable pub remove_stale_tokens : List Text → Db → Db
remove_stale_tokens tokens db = record db {
  push_tokens = delete (is_listed_token tokens) db.push_tokens;
}

-- `for (const chunk of chunks)`
abbrev pub send_chunks :
    (List Text → Result (List Ticket)) → List (List Text) → Result (List Ticket)
send_chunks send [] = ok []
send_chunks send (chunk ∷ chunks) =
    let rest = send_chunks send chunks in
    send chunk >>= λ tickets. rest >>= λ more. ok (tickets ++ more)

-- The tokens whose tickets say DeviceNotRegistered; a ticket without a token gives undefined.
abbrev pub stale_tokens : List Ticket → List Text → List (Option Text)
stale_tokens [] tokens = []
stale_tokens (device_not_registered ∷ tickets) [] = none ∷ stale_tokens tickets []
stale_tokens (device_not_registered ∷ tickets) (t ∷ tokens) = some t ∷ stale_tokens tickets tokens
stale_tokens (accepted ∷ tickets) [] = stale_tokens tickets []
stale_tokens (accepted ∷ tickets) (_ ∷ tokens) = stale_tokens tickets tokens
stale_tokens (other_error ∷ tickets) [] = stale_tokens tickets []
stale_tokens (other_error ∷ tickets) (_ ∷ tokens) = stale_tokens tickets tokens

-- The texts of a list without undefined.
abbrev pub all_present : List (Option Text) → Option (List Text)
all_present [] = some []
all_present (none ∷ _) = none
all_present (some t ∷ rest) =
    let more = all_present rest in elim more [ none ↦ none | some ts ↦ some (t ∷ ts) ]

-- The statement of a removal with an undefined value is refused, and the refusal is only logged.
unfoldable pub remove_reported : List (Option Text) → Db → Db
unfolding remove_stale_tokens
remove_reported stale db = elim (all_present stale) [
  | none ↦ db
  | some tokens ↦ remove_stale_tokens tokens db
]

module _ (expo : Expo) (config : PushConfig) where
  -- the part of `sendToUser` behind the removal of invalid tokens
  unfoldable pub send_to_tokens : List Text → Method (Unit {0})
  unfolding remove_reported
  send_to_tokens [] db = (ok tt, db)
  send_to_tokens (t ∷ tokens) db =
      elim (send_chunks expo.send_push_notifications (expo.chunk_push_notifications (t ∷ tokens))) [
        | err e ↦ (err e, db)
        | ok tickets ↦ (ok tt, remove_reported (stale_tokens tickets (t ∷ tokens)) db)
      ]

  -- the tokens that are sent to, and those that are removed at once
  abbrev pub valid_tokens : List Text → List Text
  valid_tokens tokens = select expo.is_expo_push_token tokens

  abbrev pub invalid_tokens : List Text → List Text
  invalid_tokens tokens = delete expo.is_expo_push_token tokens

  -- `sendToUser`
  unfoldable pub send_to_user : Text → Method (Unit {0})
  unfolding get_tokens_for_user remove_stale_tokens send_to_tokens
  send_to_user u db =
      if is_allowed config u
      then (let tokens = get_tokens_for_user u db in
          send_to_tokens (valid_tokens tokens) (remove_stale_tokens (invalid_tokens tokens) db))
      else (err internal, db)
