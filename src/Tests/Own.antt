-- ===== src/Tests/Own.antt =====
-- Examples for src/plans and src/progress.
use legacy_made_api.Prelude.{◌≡◌, refl}
use legacy_made_api.Prelude.Results.{ok, err}
use legacy_made_api.Errors.{not_found}
use legacy_made_api.Progress.{progress_row, upsert, find_progress, remove_progress}
use legacy_made_api.Progress.Roundtrip.{upsert_find_remove}
use legacy_made_api.Tests.{alice, plan_of_alice, database, request}

upsert_find_remove_example :
    let (stored, db') = upsert plan_of_alice 5 6 (request alice) database in
    let (removed, db'') = remove_progress plan_of_alice 5 (request alice) db' in
    (stored ≡ ok (progress_row plan_of_alice 5 6))
    × ((find_progress plan_of_alice 5 (request alice) db').0 ≡ ok (progress_row plan_of_alice 5 6))
    × (removed ≡ ok tt)
    × ((find_progress plan_of_alice 5 (request alice) db'').0 ≡ err not_found)
upsert_find_remove_example =
    upsert_find_remove plan_of_alice 5 6 alice (request alice) database refl refl refl
