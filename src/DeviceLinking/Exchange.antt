-- ===== src/DeviceLinking/Exchange.antt =====
-- A payload between two devices of a user (src/encryption/device-linking.service.ts).
use legacy_made_api.Prelude.{
  ℕ, ◌+◌, ◌≤◌, ◌≡◌, ◌≢◌, refl, sym, ◌∙◌, inl, inr, true, false, ◌&&◌, ◌||◌, Option, none, some,
  Text, truthy, arith, ◌==◌,
}
use mathlib.Core.List.{Mem}
use legacy_made_api.Prelude.Results.{ok}
use legacy_made_api.Prelude.Tables.{any, update}
use legacy_made_api.TableLaws.{find_sound, find-Mem}
use legacy_made_api.Schema.{LinkingSession, LinkStatus, Db, as_user}
use legacy_made_api.DbService.{Cls, transaction}
use legacy_made_api.DbService.Keeps.{user_method-cases}
use legacy_made_api.Encryption.Statements.{user_exists}
use legacy_made_api.DeviceLinking.{
  session_lifetime_ms, insert_session, create_tx, create_session, is_wanted, find_session,
  deposit_into, deposit_tx, deposit_payload, set_completed, claim_from, claim_tx, claim_session,
}

-- What a user of the database deposits under the code of a session that they created is what they
-- claim, if the code and the id were not in use, the payload is not empty, and the deposit and the
-- claim come within five minutes of the creation.
pub create_deposit_claim :
    (created deposited claimed : ℕ) (id code payload u : Text) (cls : Cls) (db : Db)
    → truthy cls.user_id ≡ some u
    → any (λ (x : LinkingSession). x.id == id || x.session_code == code) db.device_linking_sessions
      ≡ false
    → user_exists u db ≡ true
    → payload ≢ 0
    → deposited ≤ created + session_lifetime_ms
    → claimed ≤ created + session_lifetime_ms
    → let db₁ = (create_session created id code cls db).1 in
      let db₂ = (deposit_payload deposited code payload cls db₁).1 in
      (claim_session claimed code cls db₂).0 ≡ ok payload
unfolding create_session create_tx insert_session deposit_payload deposit_tx deposit_into
    claim_session claim_tx claim_from find_session
create_deposit_claim created deposited claimed id code payload u cls db signed_in fresh user full d
      c =
    ground arith

-- A claim that hands out a payload of a session in the table, and what it leaves.
abbrev pub Handed : ℕ → Text → Text → Text → Db → Db → Type 0
Handed now code u p db db' =
    (x : LinkingSession) × Mem x db.device_linking_sessions
    × (x.session_code ≡ code)
    × (x.user_id ≡ u)
    × (x.status ≡ LinkStatus.claimed)
    × (x.payload ≡ some p)
    × (now ≤ x.expires_at)
    × (db' ≡ record db {
      device_linking_sessions =
          update (λ (y : LinkingSession). y.user_id == u && y.id == x.id) set_completed
            db.device_linking_sessions;
    })

claim_from-Handed :
    (now : ℕ) (code u p : Text) (o : Option LinkingSession) (db db' : Db)
    → find_session code u LinkStatus.claimed (as_user u) db ≡ o
    → transaction (claim_from now o (as_user u)) db ≡ (ok p, db')
    → Handed now code u p db db'
unfolding claim_from find_session
claim_from-Handed now code u p none db db' found h = absurd (ground arith)
claim_from-Handed now code u p (some x) db db' found h =
    let rows = db.device_linking_sessions in
    let wanted = find_sound (is_wanted code u LinkStatus.claimed (as_user u)) rows found in
    (
      x,
      find-Mem (is_wanted code u LinkStatus.claimed (as_user u)) rows x found,
      ground arith,
      ground arith,
      ground arith,
      ground arith,
      ground arith,
      ground arith,
    )

-- A claim that returns a payload was made by a signed-in user, and the payload is that of a session in
-- the table, of this same user, under the claimed code, in the state between deposit and completion,
-- and not past its expiry. Afterwards this session of the user is completed, and nothing else has
-- changed.
pub claim_session-Handed :
    (now : ℕ) (code p : Text) (cls : Cls) (db db' : Db)
    → claim_session now code cls db ≡ (ok p, db')
    → (u : Text) × (truthy cls.user_id ≡ some u) × Handed now code u p db db'
unfolding claim_session claim_tx
claim_session-Handed now code p cls db db' h = elim (user_method-cases cls (claim_tx now code) db) [
  | inl (u, signed_in, e) ↦ (
    u,
    signed_in,
    claim_from-Handed now code u p (find_session code u LinkStatus.claimed (as_user u) db) db db'
        refl (sym e ∙ h),
  )
  | inr (nobody, _) ↦ absurd (ground arith)
]
