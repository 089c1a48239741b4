-- ===== src/Sharing/Calls.antt =====
-- The methods that change a plan's sharing, of src/trusted-contacts/trusted-contacts.service.ts,
-- src/access-invitations/access-invitations.service.ts and src/shared-plans/shared-plans.service.ts,
-- as one type of calls.
use legacy_made_api.Prelude.{◌≡◌, refl, ℕ, Bool, true, false, List, [], ◌∷◌, Text}
use legacy_made_api.Prelude.Results.{ok, err, ◌>>=◌, >>=-returned}
use legacy_made_api.Schema.{Db, TrustedContact, AccessStatus, as_user, bypassing}
use legacy_made_api.Errors.{Result}
use legacy_made_api.DbService.{Cls}
use legacy_made_api.DbService.Keeps.{
  transaction_keeps, rls_body_keeps, bypass_body_keeps, with_user_id_keeps,
}
use legacy_made_api.TrustedContacts.{CreateTrustedContactDto, create_tx, create}
use legacy_made_api.TrustedContacts.Manage.{
  UpdateTrustedContactDto, update_tx, update_trusted_contact, revoke_tx, revoke, delete_tx,
  delete_trusted_contact, resend_tx, resend_invitation,
}
use legacy_made_api.Invitations.Tokens.{
  InvitationTokenPayload, Verify, verify_token, find_and_validate_pending_contact, accept_tx,
  accept_with, accept_invitation, decline_found, decline_invitation, revoke_own_tx,
  revoke_own_access,
}
use legacy_made_api.SharedPlans.{
  find_pending_invitation, accept_shared_tx, accept_shared, decline_shared,
}
use legacy_made_api.Sharing.Changes.{HasContactKey, Change-Distinct, Effect, no-Effect}
use legacy_made_api.Sharing.Effects.{
  create_tx-Effect, update_tx-Effect, revoke_tx-Effect, delete_tx-Effect, resend_tx-Effect,
}
use legacy_made_api.Sharing.Answers.{
  IsFound, find_and_validate-IsFound, find_pending-IsFound, accept_tx-Effect,
  accept_shared_tx-Effect, perform_decline-Effect, revoke_own_tx-Effect,
}

-- A call with its arguments; every one has the request's context and the time.
pub data Call : Type 0 where
  creating : Text → CreateTrustedContactDto → Text → Cls → Call
  updating : Text → Text → UpdateTrustedContactDto → Cls → Call
  revoking : ℕ → Text → Text → Cls → Call
  deleting : Text → Text → Cls → Call
  resending : Bool → Text → Text → Cls → Call
  accepting : Verify → ℕ → Text → Cls → Call
  declining : Verify → ℕ → Text → Cls → Call
  leaving : ℕ → Text → Cls → Call
  accepting_shared : ℕ → Text → Cls → Call
  declining_shared : ℕ → Text → Cls → Call

-- The database that a call leaves.
unfoldable pub run : Call → Db → Db
run (Call.creating new_id dto plan_id cls) db = (create new_id dto plan_id cls db).1
run (Call.updating id plan_id dto cls) db = (update_trusted_contact id plan_id dto cls db).1
run (Call.revoking now id plan_id cls) db = (revoke now id plan_id cls db).1
run (Call.deleting id plan_id cls) db = (delete_trusted_contact id plan_id cls db).1
run (Call.resending sent id plan_id cls) db = (resend_invitation sent id plan_id cls db).1
run (Call.accepting verify now token cls) db = (accept_invitation verify now token cls db).1
run (Call.declining verify now token cls) db = (decline_invitation verify now token cls db).1
run (Call.leaving now plan_id cls) db = (revoke_own_access now plan_id cls db).1
run (Call.accepting_shared now plan_id cls) db = (accept_shared now plan_id cls db).1
run (Call.declining_shared now plan_id cls) db = (decline_shared now plan_id cls db).1

abbrev pub is_inviting : Call → Bool
is_inviting (Call.creating _ _ _ _) = true
is_inviting _ = false

-- The database after calls, the first one first.
unfoldable pub run_all : List Call → Db → Db
unfolding run
run_all [] db = db
run_all (call ∷ calls) db = run_all calls (run call db)

accept_with-Effect :
    (inviting : Bool) (now : ℕ) (cls : Cls) (r : Result InvitationTokenPayload) (u : Text) (db : Db)
    → HasContactKey db
    → Effect inviting db (accept_with now cls r u db).1
unfolding accept_with
accept_with-Effect inviting now cls (err e) u db distinct = no-Effect inviting db
accept_with-Effect inviting now cls (ok p) u db distinct =
    transaction_keeps (accept_tx now cls p u) db (Effect inviting db) (no-Effect inviting db)
      (λ x db' h. accept_tx-Effect inviting now cls p u db db' x distinct h)

decline_found-Effect :
    (inviting : Bool) (now : ℕ) (cls : Cls) (r : Result TrustedContact) (db : Db)
    → HasContactKey db
    → ((c : TrustedContact) → r ≡ ok c → IsFound AccessStatus.pending db c)
    → Effect inviting db (decline_found now cls r db).1
unfolding decline_found
decline_found-Effect inviting now cls (err e) db distinct found = no-Effect inviting db
decline_found-Effect inviting now cls (ok c) db distinct found =
    perform_decline-Effect inviting now cls c db distinct (found c refl)

pub run-Effect :
    (call : Call) (db : Db) → HasContactKey db → Effect (is_inviting call) db (run call db)
unfolding run create update_trusted_contact revoke delete_trusted_contact resend_invitation
    accept_invitation decline_invitation revoke_own_access accept_shared decline_shared
run-Effect (Call.creating new_id dto plan_id cls) db distinct =
    rls_body_keeps cls (create_tx cls new_id dto plan_id) db (Effect true db) (no-Effect true db)
      (λ u c db' h. create_tx-Effect cls new_id plan_id dto (as_user u) db db' c distinct h)
run-Effect (Call.updating id plan_id dto cls) db distinct =
    rls_body_keeps cls (update_tx cls id plan_id dto) db (Effect false db) (no-Effect false db)
      (λ u c db' h. update_tx-Effect false cls id plan_id dto (as_user u) db db' c h)
run-Effect (Call.revoking now id plan_id cls) db distinct =
    rls_body_keeps cls (revoke_tx now cls id plan_id) db (Effect false db) (no-Effect false db)
      (λ u c db' h. revoke_tx-Effect false now cls id plan_id (as_user u) db db' c h)
run-Effect (Call.deleting id plan_id cls) db distinct =
    rls_body_keeps cls (delete_tx cls id plan_id) db (Effect false db) (no-Effect false db)
      (λ u c db' h. delete_tx-Effect false cls id plan_id (as_user u) db db' c h)
run-Effect (Call.resending sent id plan_id cls) db distinct =
    rls_body_keeps cls (resend_tx sent id plan_id) db (Effect false db) (no-Effect false db)
      (λ u c db' h. resend_tx-Effect false sent id plan_id (as_user u) db db' c h)
run-Effect (Call.accepting verify now token cls) db distinct =
    with_user_id_keeps cls (accept_with now cls (verify_token verify token)) db (Effect false db)
      (no-Effect false db)
      (λ u. accept_with-Effect false now cls (verify_token verify token) u db distinct)
run-Effect (Call.declining verify now token cls) db distinct =
    decline_found-Effect false now cls
      (verify_token verify token >>= λ p. find_and_validate_pending_contact p db) db distinct
      (λ c h.
        let (p, _, k) = >>=-returned (verify_token verify token) _ h in
        find_and_validate-IsFound p db c k)
run-Effect (Call.leaving now plan_id cls) db distinct =
    bypass_body_keeps cls (revoke_own_tx now cls plan_id) db (Effect false db) (no-Effect false db)
      (λ u x db' h. revoke_own_tx-Effect false now cls plan_id u bypassing db db' x distinct h)
run-Effect (Call.accepting_shared now plan_id cls) db distinct =
    bypass_body_keeps cls (accept_shared_tx now cls plan_id) db (Effect false db)
      (no-Effect false db)
      (λ u x db' h. accept_shared_tx-Effect false now cls plan_id u bypassing db db' x distinct h)
run-Effect (Call.declining_shared now plan_id cls) db distinct =
    with_user_id_keeps cls (λ u d. decline_found now cls (find_pending_invitation plan_id u d) d) db
      (Effect false db) (no-Effect false db)
      (λ u.
        decline_found-Effect false now cls (find_pending_invitation plan_id u db) db distinct
          (λ c h. find_pending-IsFound plan_id u db c h))

pub run_key : (call : Call) (db : Db) → HasContactKey db → HasContactKey (run call db)
run_key call db distinct =
    Change-Distinct (is_inviting call) db.trusted_contacts (run call db).trusted_contacts
      (run-Effect call db distinct).change distinct
