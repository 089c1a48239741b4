-- ===== src/Revenuecat/Reports.antt =====
-- The result of `reconcileFromRc` of src/revenuecat/revenuecat.service.ts, beside the row.
use legacy_made_api.Prelude.{ℕ, ◌≡◌, refl, inl, inr, some, arith, Text, Bool-cases}
use mathlib.Core.Path.{subst}
use legacy_made_api.Prelude.Results.{Result, ok, err}
use legacy_made_api.Schema.{Subscription, is_lifetime, Db}
use legacy_made_api.Errors.{Error}
use legacy_made_api.DbService.{transaction}
use legacy_made_api.Revenuecat.Event.{RcConfig}
use legacy_made_api.Revenuecat.Handlers.{find_subscription}
use legacy_made_api.Revenuecat.Reconcile.{
  Response, RcSubscriberPayload, DesiredState, ReconcileResult, derive_desired_state, set_desired,
  report_row, reconcile_from_rc, reconcile_with, reconcile_found, reconcile_tx, fetch_subscriber,
}
use legacy_made_api.Revenuecat.Found.{find_subscription-update}

-- The user's row in `db'` is what `result` reports, and it is still anchored to the transaction that
-- the row before it was.
abbrev pub Reported : Text → Subscription → ReconcileResult → Db → Type 0
Reported u r result db' =
    (r' : Subscription) × (find_subscription u db' ≡ some r')
    × (report_row r' ≡ result)
    × (r'.rc_original_transaction_id ≡ r.rc_original_transaction_id)

reconcile_found-Reported :
    (d : DesiredState) (u : Text) (r : Subscription) (result : ReconcileResult) (db db' : Db)
    → find_subscription u db ≡ some r
    → transaction (reconcile_found d u (some r)) db ≡ (ok result, db')
    → Reported u r result db'
unfolding reconcile_found
reconcile_found-Reported d u r result db db' found h = elim (Bool-cases (is_lifetime r.tier)) [
  | inl granted ↦ (r, ground arith, ground arith, refl)
  | inr other ↦
      let row = find_subscription-update u (set_desired d) (λ x. refl) db r found other in
      (set_desired d r, ground (arith, row), ground arith, refl)
]

reconcile_with-Reported :
    (cfg : RcConfig) (now : ℕ) (u : Text) (response : Result Error RcSubscriberPayload)
    (r : Subscription) (result : ReconcileResult) (db db' : Db)
    → find_subscription u db ≡ some r
    → reconcile_with cfg now u response db ≡ (ok result, db')
    → Reported u r result db'
unfolding reconcile_with reconcile_tx
reconcile_with-Reported cfg now u (err e) r result db db' found h = cc
reconcile_with-Reported cfg now u (ok p) r result db db' found h =
    reconcile_found-Reported (derive_desired_state cfg now p) u r result db db' found (
      subst
        (λ o.
          transaction (reconcile_found (derive_desired_state cfg now p) u o) db ≡ (ok result, db'))
        found h)

-- If a reconciliation of a user who has a row returns, then the tier, the status, the end of the
-- period and the pending cancellation that it reports are those of the user's row afterwards, for a
-- lifetime row too, and the row keeps the identifier of its original transaction.
pub reconcile_reports_row :
    (cfg : RcConfig) (now : ℕ) (fetch : Text → Response) (u : Text) (r : Subscription)
    (result : ReconcileResult) (db db' : Db)
    → find_subscription u db ≡ some r
    → reconcile_from_rc cfg now fetch u db ≡ (ok result, db')
    → Reported u r result db'
unfolding reconcile_from_rc
reconcile_reports_row cfg now fetch u r result db db' found h =
    reconcile_with-Reported cfg now u (fetch_subscriber fetch u) r result db db' found h
