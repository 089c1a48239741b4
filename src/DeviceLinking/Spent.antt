-- ===== src/DeviceLinking/Spent.antt =====
-- Calls of src/encryption/device-linking.service.ts in sequence, and the codes from which nothing can
-- be claimed any more.
use legacy_made_api.Prelude.{
  ℕ, ◌≡◌, refl, inl, inr, Bool, false, not, ◌&&◌, Option, none, some, Text, truthy, arith, sym,
  ◌==◌, ltb, Option-cases, Bool-cases,
}
use mathlib.Core.Path.{subst}
use legacy_made_api.Prelude.Tables.{any, find, Distinct}
use legacy_made_api.TableLaws.{
  updated, All-zip, All-of_not_any, any-delete, any-update-false, any_or, Distinct-update,
  Distinct-delete, found_is_only, find_sound,
}
use legacy_made_api.Schema.{LinkingSession, LinkStatus, link_status_eq, Db, Session, as_user}
use legacy_made_api.DbService.{Cls, transaction}
use legacy_made_api.DbService.Keeps.{user_method_keeps}
use legacy_made_api.DeviceLinking.{
  insert_session, create_tx, create_session, is_wanted, find_session, is_target, update_session,
  set_payload, deposit_into, deposit_tx, deposit_payload, set_completed, claim_from, claim_tx,
  claim_session, cleanup_expired_sessions,
}

abbrev pub id_of : LinkingSession → Text
id_of x = x.id

abbrev pub code_of : LinkingSession → Text
code_of x = x.session_code

-- The primary key and the unique session code.
abbrev pub HasSessionKeys : Db → Type 0
HasSessionKeys db =
    Distinct id_of db.device_linking_sessions × Distinct code_of db.device_linking_sessions

-- A session with this code from which a payload could still be handed out.
abbrev pub is_open : Text → LinkingSession → Bool
is_open code x = x.session_code == code && not (link_status_eq x.status LinkStatus.completed)

-- No such session is left.
abbrev pub IsSpent : Text → Db → Type 0
IsSpent code db =
    Distinct id_of db.device_linking_sessions
    × (any (is_open code) db.device_linking_sessions ≡ false)

-- One call of the service by anybody; a new session does not get the code `code` again.
pub data Step (code : Text) : Db → Db → Type 0 where
  create :
      (now : ℕ) (id c : Text) (cls : Cls) (db : Db)
      → (c == code) ≡ false
      → Step code db (create_session now id c cls db).1
  deposit :
      (now : ℕ) (c payload : Text) (cls : Cls) (db : Db)
      → Step code db (deposit_payload now c payload cls db).1
  claim : (now : ℕ) (c : Text) (cls : Cls) (db : Db) → Step code db (claim_session now c cls db).1
  cleanup : (now : ℕ) (db : Db) → Step code db (cleanup_expired_sessions now db)

pub data Steps (code : Text) (db : Db) : Db → Type 0 where
  here : Steps code db db
  next : {a b : Db} → Steps code db a → Step code a b → Steps code db b

module _ (code : Text) where
  -- The row that the UPDATE leaves is not open.
  kept_row :
      (x : LinkingSession) (f : LinkingSession → LinkingSession) (s : Session)
      → (is_open code x ≡ false → is_open code (f x) ≡ false)
      → (y : LinkingSession) → (id_of y ≡ id_of x → y ≡ x)
      → is_open code y ≡ false
      → is_open code (updated (is_target x.id s) f y) ≡ false
  kept_row x f s closed y only not_open = elim (Bool-cases (is_target x.id s y)) [
    | inr other ↦ rw other not_open
    | inl hit ↦
        let e : y ≡ x = only (ground arith) in
        rw hit (
          subst (λ z. is_open code (f z) ≡ false) (sym e)
            (closed (subst (λ z. is_open code z ≡ false) e not_open)))
  ]

  -- An UPDATE of the session that was found, where the session that it leaves is not open.
  update_session-IsSpent :
      (x : LinkingSession) (f : LinkingSession → LinkingSession) (p : LinkingSession → Bool)
      (s : Session) (db : Db)
      → ((y : LinkingSession) → (f y).id ≡ y.id)
      → find p db.device_linking_sessions ≡ some x
      → (is_open code x ≡ false → is_open code (f x) ≡ false)
      → IsSpent code db
      → IsSpent code (update_session x.id f s db)
  update_session-IsSpent x f p s db keeps found closed spent = (
    Distinct-update id_of (is_target x.id s) f keeps db.device_linking_sessions spent.0,
    any-update-false (is_open code) (is_target x.id s) f db.device_linking_sessions (
        All-zip (λ y. id_of y ≡ id_of x → y ≡ x) (λ y. is_open code y ≡ false)
          (λ y. is_open code (updated (is_target x.id s) f y) ≡ false)
          (λ y only not_open. kept_row x f s closed y only not_open) db.device_linking_sessions
          (found_is_only id_of p db.device_linking_sessions x spent.0 found)
          (All-of_not_any (is_open code) db.device_linking_sessions spent.1)),
  )

  deposit_into-IsSpent :
      (now : ℕ) (c payload u : Text) (o : Option LinkingSession) (s : Session) (db : Db)
      → find_session c u LinkStatus.pending s db ≡ o
      → IsSpent code db
      → IsSpent code (transaction (deposit_into now payload o s) db).1
  unfolding deposit_into find_session
  deposit_into-IsSpent now c payload u none s db found spent = spent
  deposit_into-IsSpent now c payload u (some x) s db found spent =
      elim (Bool-cases (ltb x.expires_at now)) [
        | inl late ↦ rw (late, transaction) spent
        | inr open_still ↦
            rw (open_still, transaction)
              (update_session-IsSpent x (set_payload payload) (is_wanted c u LinkStatus.pending s) s
                db (λ y. refl) found
                (λ h. ground (
                  arith,
                  find_sound (is_wanted c u LinkStatus.pending s) db.device_linking_sessions found,
                ))
                spent)
      ]

  claim_from-IsSpent :
      (now : ℕ) (c u : Text) (o : Option LinkingSession) (s : Session) (db : Db)
      → find_session c u LinkStatus.claimed s db ≡ o
      → IsSpent code db
      → IsSpent code (transaction (claim_from now o s) db).1
  unfolding claim_from find_session
  claim_from-IsSpent now c u none s db found spent = spent
  claim_from-IsSpent now c u (some x) s db found spent =
      let done =
        update_session-IsSpent x set_completed (is_wanted c u LinkStatus.claimed s) s db (λ y. refl)
          found (λ h. ground arith) spent in
      elim (Bool-cases (ltb x.expires_at now)) [
        | inl late ↦ rw (late, transaction) spent
        | inr open_still ↦ elim (Option-cases (truthy x.payload)) [
          | inl missing ↦ rw (open_still, missing, transaction) spent
          | inr (q, present) ↦ rw (open_still, present, transaction) done
        ]
      ]

  create_tx-IsSpent :
      (now : ℕ) (id c u : Text) (s : Session) (db : Db)
      → (c == code) ≡ false
      → IsSpent code db
      → IsSpent code (transaction (create_tx now id c u s) db).1
  unfolding create_tx insert_session
  create_tx-IsSpent now id c u s db other spent = ground (
    arith,
    any_or (λ (x : LinkingSession). x.id == id) (λ (x : LinkingSession). x.session_code == c)
        db.device_linking_sessions,
  )

  Step-IsSpent : {a b : Db} → Step code a b → IsSpent code a → IsSpent code b
  unfolding create_session deposit_payload deposit_tx claim_session claim_tx
      cleanup_expired_sessions
  Step-IsSpent (create now id c cls db other) spent =
      user_method_keeps cls (create_tx now id c) db (IsSpent code) spent
        (λ u. create_tx-IsSpent now id c u (as_user u) db other spent)
  Step-IsSpent (deposit now c payload cls db) spent =
      user_method_keeps cls (deposit_tx now c payload) db (IsSpent code) spent (λ u.
        deposit_into-IsSpent now c payload u (find_session c u LinkStatus.pending (as_user u) db)
          (as_user u) db refl spent)
  Step-IsSpent (claim now c cls db) spent =
      user_method_keeps cls (claim_tx now c) db (IsSpent code) spent (λ u.
        claim_from-IsSpent now c u (find_session c u LinkStatus.claimed (as_user u) db) (as_user u)
          db refl spent)
  Step-IsSpent (cleanup now db) spent = (
    Distinct-delete id_of (λ (x : LinkingSession). ltb x.expires_at now) db.device_linking_sessions
        spent.0,
    any-delete (is_open code) (λ (x : LinkingSession). ltb x.expires_at now)
        db.device_linking_sessions spent.1,
  )

  pub Steps-IsSpent : {a b : Db} → IsSpent code a → Steps code a b → IsSpent code b
  Steps-IsSpent spent here = spent
  Steps-IsSpent spent (next before last) = Step-IsSpent last (Steps-IsSpent spent before)
