-- ===== src/DeviceLinking/Once.antt =====
-- Claims one after another in src/encryption/device-linking.service.ts.
use legacy_made_api.Prelude.{
  ℕ, ◌≡◌, ◌≢◌, refl, inl, inr, true, false, Option, none, some, Text, arith, sym, ◌∙◌, ◌==◌,
  Option-cases, Bool-cases,
}
use mathlib.Core.Path.{subst}
use legacy_made_api.Prelude.Results.{ok}
use legacy_made_api.TableLaws.{
  updated, All-map, any-update-false, find-any, Distinct-update, found_is_only, find_sound,
}
use legacy_made_api.Schema.{LinkingSession, LinkStatus, Db, Session, as_user, is_current_user}
use legacy_made_api.DbService.{Cls, transaction}
use legacy_made_api.DbService.Keeps.{user_method-cases}
use legacy_made_api.DeviceLinking.{
  is_wanted, find_session, is_target, update_session, set_completed, claim_from, claim_tx,
  claim_session,
}
use legacy_made_api.DeviceLinking.Spent.{
  id_of, code_of, HasSessionKeys, is_open, IsSpent, Steps, Steps-IsSpent,
}

module _ (code : Text) where
  -- No claim finds a session that is spent.
  find_session-none :
      (u : Text) (s : Session) (db : Db)
      → IsSpent code db
      → find_session code u LinkStatus.claimed s db ≡ none
  unfolding find_session
  find_session-none u s db spent =
      elim (Option-cases (find_session code u LinkStatus.claimed s db)) [
        | inl absent ↦ absent
        | inr (x, found) ↦ absurd (
            ground (
              arith,
              find_sound (is_wanted code u LinkStatus.claimed s) db.device_linking_sessions found,
              find-any (is_wanted code u LinkStatus.claimed s) (is_open code)
                  db.device_linking_sessions x found,
            ))
      ]

  -- After the claim of `x` every row with its code is completed.
  completed_row :
      (x : LinkingSession) (s : Session)
      → is_current_user s x.user_id ≡ true
      → x.session_code ≡ code
      → (y : LinkingSession) → (code_of y ≡ code_of x → y ≡ x)
      → is_open code (updated (is_target x.id s) set_completed y) ≡ false
  completed_row x s visible coded y only = elim (Bool-cases (y.session_code == code)) [
    | inr other ↦ ground arith
    | inl same ↦
        let e : y ≡ x = only (ground arith) in
        subst (λ z. is_open code (updated (is_target x.id s) set_completed z) ≡ false) (sym e)
          (ground arith)
  ]

  claim_from-spends :
      (now : ℕ) (u : Text) (o : Option LinkingSession) (s : Session) (db db' : Db) (p : Text)
      → HasSessionKeys db
      → find_session code u LinkStatus.claimed s db ≡ o
      → transaction (claim_from now o s) db ≡ (ok p, db')
      → IsSpent code db'
  unfolding claim_from find_session
  claim_from-spends now u none s db db' p keys found h = absurd (ground arith)
  claim_from-spends now u (some x) s db db' p keys found h =
      let rows = db.device_linking_sessions in
      let wanted = find_sound (is_wanted code u LinkStatus.claimed s) rows found in
      let written : db' ≡ update_session x.id set_completed s db = ground arith in
      rw written (
        Distinct-update id_of (is_target x.id s) set_completed (λ y. refl) rows keys.0,
        any-update-false (is_open code) (is_target x.id s) set_completed rows (
            All-map (λ y. code_of y ≡ code_of x → y ≡ x)
              (λ y. is_open code (updated (is_target x.id s) set_completed y) ≡ false)
              (completed_row x s (ground arith) (ground arith)) rows
              (found_is_only code_of (is_wanted code u LinkStatus.claimed s) rows x keys.1 found)),
      )

  claim_session-spends :
      (now : ℕ) (p : Text) (cls : Cls) (db db' : Db)
      → HasSessionKeys db
      → claim_session now code cls db ≡ (ok p, db')
      → IsSpent code db'
  unfolding claim_session claim_tx
  claim_session-spends now p cls db db' keys h =
      elim (user_method-cases cls (claim_tx now code) db) [
        | inl (u, _, e) ↦
            claim_from-spends now u (find_session code u LinkStatus.claimed (as_user u) db)
              (as_user u) db db' p keys refl (sym e ∙ h)
        | inr (nobody, _) ↦ absurd (ground arith)
      ]

  claim_session-spent :
      (now : ℕ) (q : Text) (cls : Cls) (db : Db)
      → IsSpent code db
      → (claim_session now code cls db).0 ≢ ok q
  unfolding claim_session claim_tx claim_from
  claim_session-spent now q cls db spent h = elim (user_method-cases cls (claim_tx now code) db) [
    | inl (u, _, e) ↦ ground (arith, find_session-none u (as_user u) db spent)
    | inr (nobody, _) ↦ ground arith
  ]

-- Once a claim of a session code has handed out a payload, no claim of this code by anybody returns
-- a payload again, after any calls of the service that do not create a session with the same code.
-- Session ids and codes are distinct when the first claim is made.
pub claim_session_once :
    (now later : ℕ) (code p q : Text) (cls cls' : Cls) (db db' db'' : Db)
    → HasSessionKeys db
    → claim_session now code cls db ≡ (ok p, db')
    → Steps code db' db''
    → (claim_session later code cls' db'').0 ≢ ok q
claim_session_once now later code p q cls cls' db db' db'' keys h steps =
    claim_session-spent code later q cls' db''
      (Steps-IsSpent code (claim_session-spends code now p cls db db' keys h) steps)
