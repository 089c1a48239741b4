-- ===== src/Sharing/Closed.antt =====
-- Who stays without access: the calls of sharing beside `getPlanAccess` (src/plan-access) and the
-- policies of src/schema.ts.
use legacy_made_api.Prelude.{
  ◌≡◌, refl, ◌∙◌, Bool, true, false, ◌&&◌, ◌||◌, Option, none, some, List, [], ◌∷◌, Text, ◌==◌,
  arith, Bool-cases, inl, inr,
}
use mathlib.Core.Path.{subst}
use legacy_made_api.Prelude.Tables.{find, any}
use legacy_made_api.TableLaws.{any-delete, any-update-false, All-of_not_any, All-zip, updated}
use legacy_made_api.Schema.{
  Plan, TrustedContact, AccessStatus, access_status_eq, is_user, gives_access, every_level, Db,
}
use legacy_made_api.PlanAccess.{is_owned_plan, has_plan_id, contact_access, access_of}
use legacy_made_api.Sharing.Changes.{HasContactKey, Edge, Step, Change, Effect}
use legacy_made_api.Sharing.Calls.{Call, run, run_all, is_inviting, run-Effect, run_key}

-- A row of the plan by which a user has access or may come to it: a pending invitation, which anyone
-- who has its token can accept, or one that the user has accepted.
abbrev pub is_open : Text → Text → TrustedContact → Bool
is_open u plan_id c =
    c.plan_id == plan_id
    && (access_status_eq c.access_status AccessStatus.pending
        || (access_status_eq c.access_status AccessStatus.accepted && is_user u c.clerk_user_id))

-- There is no such row.
unfoldable pub IsClosed : Text → Text → Db → Type 0
IsClosed u plan_id db = any (is_open u plan_id) db.trusted_contacts ≡ false

Step-is_open :
    (u plan_id : Text) (x y : TrustedContact)
    → Step false x y
    → is_open u plan_id x ≡ false
    → is_open u plan_id y ≡ false
Step-is_open u plan_id x y step closed = by_edge step.edge
  where
    by_edge : Edge false x y → is_open u plan_id y ≡ false
    by_edge (Edge.keeps e f) = rw (e, f, step.same_plan) closed
    by_edge (Edge.accepts e f) = rw (f, step.same_plan) (ground arith)
    by_edge (Edge.declines e f) = rw (f, step.same_plan) (ground arith)
    by_edge (Edge.revokes f) = rw (f, step.same_plan) (ground arith)
    by_edge (Edge.leaves e f) = rw (f, step.same_plan) (ground arith)

Change-IsClosed :
    (u plan_id : Text) (rows rows' : List TrustedContact)
    → Change false rows rows'
    → any (is_open u plan_id) rows ≡ false
    → any (is_open u plan_id) rows' ≡ false
Change-IsClosed u plan_id rows rows' Change.unchanged closed = closed
Change-IsClosed u plan_id rows rows' (Change.removed p) closed =
    any-delete (is_open u plan_id) p rows closed
Change-IsClosed u plan_id rows rows' (Change.changed p f ids steps) closed =
    any-update-false (is_open u plan_id) p f rows (
      All-zip (λ x. is_open u plan_id x ≡ false) (λ x. p x ≡ true → Step false x (f x))
        (λ x. is_open u plan_id (updated p f x) ≡ false) (λ x shut step. row x shut step) rows
        (All-of_not_any (is_open u plan_id) rows closed) steps)
  where
    row :
        (x : TrustedContact)
        → is_open u plan_id x ≡ false
        → (p x ≡ true → Step false x (f x))
        → is_open u plan_id (updated p f x) ≡ false
    row x shut step = elim (Bool-cases (p x)) [
      | inl hit ↦ rw hit (Step-is_open u plan_id x (f x) (step hit) shut)
      | inr miss ↦ rw miss shut
    ]

pub closed-no_access :
    (u plan_id : Text) (rows : List TrustedContact)
    → any (is_open u plan_id) rows ≡ false
    → find (gives_access u every_level plan_id) rows ≡ none
closed-no_access u plan_id [] closed = refl
closed-no_access u plan_id (x ∷ xs) closed = ground (arith, closed-no_access u plan_id xs)

pub contact_access-none : (p : Option Plan) → contact_access p none ≡ none
contact_access-none none = refl
contact_access-none (some _) = refl

run_all-IsClosed :
    (calls : List Call) (u plan_id : Text) (db : Db)
    → any is_inviting calls ≡ false
    → HasContactKey db
    → IsClosed u plan_id db
    → IsClosed u plan_id (run_all calls db) × ((run_all calls db).plans ≡ db.plans)
unfolding run_all IsClosed
run_all-IsClosed [] u plan_id db quiet distinct closed = (closed, refl)
run_all-IsClosed (call ∷ calls) u plan_id db quiet distinct closed =
    let inviting : is_inviting call ≡ false = ground arith in
    let effect : Effect false db (run call db) =
      subst (λ b. Effect b db (run call db)) inviting (run-Effect call db distinct) in
    let (later, plans) =
      run_all-IsClosed calls u plan_id (run call db) (ground arith) (run_key call db distinct) (
        Change-IsClosed u plan_id db.trusted_contacts (run call db).trusted_contacts effect.change
          closed) in
    (later, plans ∙ effect.plans_kept)

-- Where a user does not own the plan, has no accepted row of it, and the plan has no pending
-- invitation, no sequence of calls other than creations gives the user access; contacts have different
-- ids at the start.
pub run_all_stays_out :
    (calls : List Call) (u plan_id : Text) (db : Db)
    → any is_inviting calls ≡ false
    → HasContactKey db
    → IsClosed u plan_id db
    → any (is_owned_plan plan_id u) db.plans ≡ false
    → access_of plan_id u (run_all calls db) ≡ none
unfolding access_of IsClosed
run_all_stays_out calls u plan_id db quiet distinct closed owned =
    let (later, plans) = run_all-IsClosed calls u plan_id db quiet distinct closed in
    rw (plans, owned, closed-no_access u plan_id (run_all calls db).trusted_contacts later)
      (contact_access-none (find (has_plan_id plan_id) db.plans))
