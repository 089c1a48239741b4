-- ===== src/Tests/Sharing.antt =====
-- Examples for the sharing of a plan: src/trusted-contacts, src/access-invitations and src/plan-access.
use legacy_made_api.Prelude.{◌≡◌, refl, true, false, none, some, List, [], ◌∷◌, ◌==◌, if◌then◌else◌}
use legacy_made_api.Prelude.Results.{ok}
use legacy_made_api.Prelude.Tables.{any}
use legacy_made_api.Schema.{
  TrustedContact, AccessLevel, AccessTiming, AccessStatus, EncryptedDek, DekType, every_level,
  only_edit, owner_or_contact, as_user, Db,
}
use legacy_made_api.ActivityLog.{activity}
use legacy_made_api.Encryption.Deks.{is_contact_copy}
use legacy_made_api.PlanAccess.{access_of, can_activate}
use legacy_made_api.TrustedContacts.{ContactFields, new_contact, create}
use legacy_made_api.TrustedContacts.Manage.{set_revoked_by_owner, revoke}
use legacy_made_api.Invitations.{set_accepted, without_notes}
use legacy_made_api.Invitations.Tokens.{Verify, accept_invitation}
use legacy_made_api.Sharing.Acceptance.{accept_gives_access}
use legacy_made_api.Sharing.Forgery.{contact_revoke_forges_log}
use legacy_made_api.Sharing.Calls.{Call, run, run_all}
use legacy_made_api.Sharing.Moves.{Move, status_of, run_moves}
use legacy_made_api.Sharing.Closed.{IsClosed, run_all_stays_out}
use legacy_made_api.Sharing.Access.{is_ok, can_activate-owner_or_contact}
use legacy_made_api.Sharing.Owner.{revocation, revoke_returns}
use legacy_made_api.Sharing.Creation.{created_db, create_returns}
use legacy_made_api.Tests.{alice, bob, plan_of_alice, database, request}

-- What Alice says of Bob, and of a third person.
abbrev fields_of_bob : ContactFields
fields_of_bob = record {
  email = 102;
  first_name = 3;
  last_name = 4;
  relationship = none;
  access_level = AccessLevel.full_edit;
  access_timing = AccessTiming.immediate;
  notes = some 33;
}

abbrev fields_of_carol : ContactFields
fields_of_carol = record fields_of_bob { email = 103 }

abbrev invited_bob : TrustedContact
invited_bob = new_contact 50 plan_of_alice fields_of_bob

abbrev accepted_bob : TrustedContact
accepted_bob = set_accepted 7 bob invited_bob

-- The copy that Alice made for Bob.
abbrev copy_of_bob : EncryptedDek
copy_of_bob = record {
  plan_id = plan_of_alice;
  owner_id = alice;
  recipient_id = bob;
  dek_type = DekType.contact;
  encrypted_dek = 43;
  key_version = 1;
}

abbrev invited_db : Db
invited_db = record database { trusted_contacts = invited_bob ∷ [] }

abbrev shared_db : Db
shared_db = record database {
  trusted_contacts = accepted_bob ∷ [];
  encrypted_deks = copy_of_bob ∷ [];
}

abbrev revoked_db : Db
revoked_db = record shared_db {
  trusted_contacts = set_revoked_by_owner 9 accepted_bob ∷ [];
  encrypted_deks = [];
}

-- The one token is 60.
abbrev verify : Verify
verify token =
    if token == 60
    then some (record { trusted_contact_id = 50; plan_id = plan_of_alice; email = 102 })
    else none

-- Bob gives up his access, and uses the token again.
abbrev calls : List Call
calls = Call.leaving 11 plan_of_alice (request bob) ∷ Call.accepting verify 12 60 (request bob) ∷ []

run_moves_example :
    Move false
      (status_of 50 shared_db.trusted_contacts)
      (status_of 50 (run (Call.leaving 11 plan_of_alice (request bob)) shared_db).trusted_contacts)
run_moves_example = run_moves (Call.leaving 11 plan_of_alice (request bob)) shared_db 50 (refl, tt)

run_all_stays_out_example : access_of plan_of_alice bob (run_all calls revoked_db) ≡ none
unfolding IsClosed
run_all_stays_out_example =
    run_all_stays_out calls bob plan_of_alice revoked_db refl (refl, tt) refl refl

can_activate-owner_or_contact_example :
    is_ok (can_activate (some plan_of_alice) none (request bob) shared_db)
    ≡ owner_or_contact (as_user bob) every_level shared_db plan_of_alice
can_activate-owner_or_contact_example =
    can_activate-owner_or_contact plan_of_alice bob (request bob) shared_db refl refl refl

accept_gives_access_example :
    let (r, db') = accept_invitation verify 7 60 (request bob) invited_db in
    (r ≡ ok (without_notes accepted_bob))
    × (owner_or_contact (as_user bob) only_edit db' plan_of_alice ≡ true)
accept_gives_access_example =
    accept_gives_access verify 7 60 bob only_edit (request bob)
      (record { trusted_contact_id = 50; plan_id = plan_of_alice; email = 102 }) invited_bob
      invited_db refl refl refl refl refl refl refl refl refl

revoke_returns_example :
    let (r, db') = revoke 9 50 plan_of_alice (request alice) shared_db in
    (r ≡ ok tt)
    × (status_of 50 db'.trusted_contacts ≡ some AccessStatus.revoked_by_owner)
    × (any (is_contact_copy (as_user alice) alice bob plan_of_alice) db'.encrypted_deks ≡ false)
revoke_returns_example =
    revoke_returns 9 50 plan_of_alice alice bob (request alice) accepted_bob shared_db (refl, tt)
      refl refl refl refl refl

contact_revoke_forges_log_example : revoke 9 50 plan_of_alice (request bob) shared_db ≡ (
  ok tt,
  record shared_db {
    plan_activity_log = activity (request bob) bob (revocation 50 plan_of_alice false) ∷ [];
  },
)
contact_revoke_forges_log_example =
    contact_revoke_forges_log 9 50 plan_of_alice bob (request bob) accepted_bob shared_db (refl, tt)
      refl refl refl refl refl refl

create_returns_example :
    create 51
      (record { fields = fields_of_carol; deks = [] })
      plan_of_alice
      (request alice)
      shared_db
    ≡ (
      ok (new_contact 51 plan_of_alice fields_of_carol),
      created_db 51 plan_of_alice alice (request alice) fields_of_carol shared_db,
    )
create_returns_example =
    create_returns 51 plan_of_alice alice fields_of_carol (request alice) shared_db refl refl refl
      refl refl
