-- ===== src/DeviceLinking.antt =====
-- The sessions that link a new device (src/encryption/device-linking.service.ts). The session code,
-- `randomBytes(16).toString('base64url')`, and the row's id, a random uuid of the database, are
-- parameters; `now` is what `new Date()` returns. The logs of the cleanup are left out.
pub mod Once
pub mod Spent
pub mod Exchange
use legacy_made_api.Prelude.{
  ℕ, ◌+◌, ◌*◌, ◌≡◌, Bool, true, false, ◌&&◌, ◌||◌, not, Option, none, some, List, [], ◌∷◌, Text,
  truthy, ltb, ◌==◌, if◌then◌else◌,
}
use legacy_made_api.Prelude.Results.{ok, err, ◌>>=◌, ◌>>◌, throw_if, or_throw}
use legacy_made_api.Prelude.Tables.{any, find, update, delete}
use legacy_made_api.Schema.{
  LinkingSession, LinkStatus, link_status_eq, Db, Session, is_current_user,
}
use legacy_made_api.Errors.{
  not_found, bad_request, unique_violation, foreign_key_violation, rls_violation,
}
use legacy_made_api.DbService.{Cls, Tx, Method, rls, with_user_id}
use legacy_made_api.Encryption.Statements.{user_exists}

-- 5 minutes
abbrev pub session_lifetime_ms : ℕ
session_lifetime_ms = 5 * 60 * 1000

abbrev new_session : ℕ → Text → Text → Text → LinkingSession
new_session now id code user_id = record {
  id = id;
  user_id = user_id;
  session_code = code;
  payload = none;
  status = LinkStatus.pending;
  expires_at = now + session_lifetime_ms;
}

-- The INSERT: the user's policy, the primary key, the unique session code and the foreign key to users.
unfoldable pub insert_session : LinkingSession → Session → Tx (Unit {0})
insert_session r s db =
    let rows = db.device_linking_sessions in
    throw_if (any (λ (x : LinkingSession). x.id == r.id || x.session_code == r.session_code) rows)
      unique_violation
    >> throw_if (not (is_current_user s r.user_id)) rls_violation
    >> throw_if (not (user_exists r.user_id db)) foreign_key_violation
    >> ok (tt, record db { device_linking_sessions = r ∷ rows })

unfoldable pub create_tx : ℕ → Text → Text → Text → Session → Tx (Text × ℕ)
create_tx now id code u s db = insert_session (new_session now id code u) s db >>= λ r.
    ok ((code, now + session_lifetime_ms), r.1)

-- `createSession`, with the code and the time of expiry
unfoldable pub create_session : ℕ → Text → Text → Cls → Method (Text × ℕ)
create_session now id code cls = with_user_id cls (λ u. rls cls (create_tx now id code u))

-- The session of a user by its code and status, as far as the user's policy shows it.
abbrev pub is_wanted : Text → Text → LinkStatus → Session → LinkingSession → Bool
is_wanted code u status s x =
    is_current_user s x.user_id
    && x.session_code == code
    && x.user_id == u
    && link_status_eq x.status status

unfoldable pub find_session : Text → Text → LinkStatus → Session → Db → Option LinkingSession
find_session code u status s db = find (is_wanted code u status s) db.device_linking_sessions

-- UPDATE … SET f WHERE id = …, as far as the user's policy allows it
abbrev pub is_target : Text → Session → LinkingSession → Bool
is_target id s x = is_current_user s x.user_id && x.id == id

abbrev pub update_session : Text → (LinkingSession → LinkingSession) → Session → Db → Db
update_session id f s db = record db {
  device_linking_sessions = update (is_target id s) f db.device_linking_sessions;
}

abbrev pub set_payload : Text → LinkingSession → LinkingSession
set_payload payload x = record x { payload = some payload; status = LinkStatus.claimed }

-- The rest of `depositPayload`, by what was found.
unfoldable pub deposit_into : ℕ → Text → Option LinkingSession → Session → Tx (Unit {0})
deposit_into now payload none s db = err not_found
deposit_into now payload (some x) s db =
    if ltb x.expires_at now
    then err bad_request
    else ok (tt, update_session x.id (set_payload payload) s db)

unfoldable pub deposit_tx : ℕ → Text → Text → Text → Session → Tx (Unit {0})
deposit_tx now code payload u s db =
    deposit_into now payload (find_session code u LinkStatus.pending s db) s db

-- `depositPayload`
unfoldable pub deposit_payload : ℕ → Text → Text → Cls → Method (Unit {0})
deposit_payload now code payload cls =
    with_user_id cls (λ u. rls cls (deposit_tx now code payload u))

abbrev pub set_completed : LinkingSession → LinkingSession
set_completed x = record x { status = LinkStatus.completed }

-- The rest of `claimSession`, by what was found.
unfoldable pub claim_from : ℕ → Option LinkingSession → Session → Tx Text
claim_from now none s db = err not_found
claim_from now (some x) s db =
    if ltb x.expires_at now then err bad_request else elim (truthy x.payload) [
      | none ↦ err bad_request
      | some p ↦ ok (p, update_session x.id set_completed s db)
    ]

unfoldable pub claim_tx : ℕ → Text → Text → Session → Tx Text
claim_tx now code u s db = claim_from now (find_session code u LinkStatus.claimed s db) s db

-- `claimSession`
unfoldable pub claim_session : ℕ → Text → Cls → Method Text
claim_session now code cls = with_user_id cls (λ u. rls cls (claim_tx now code u))

-- `cleanupExpiredSessions`
unfoldable pub cleanup_expired_sessions : ℕ → Db → Db
cleanup_expired_sessions now db = record db {
  device_linking_sessions =
      delete (λ (x : LinkingSession). ltb x.expires_at now) db.device_linking_sessions;
}
