-- ===== src/Entitlements/Usage.antt =====
-- `countUsageInTx` of src/entitlements/entitlements.service.ts. An inner join is counted pair by
-- pair. A transaction with a user sees only the plans of this user; the rows that belong to a plan
-- are visible to its owner, so their own policies change nothing in these joins.
use legacy_made_api.Prelude.{
  ℕ, ◌+◌, ◌*◌, ◌-◌, ◌/◌, Bool, ◌&&◌, Option, none, some, List, [], ◌∷◌, Text, ◌==◌, if◌then◌else◌,
  false,
}
use legacy_made_api.Prelude.Tables.{length, select}
use legacy_made_api.Schema.{Plan, Item, File, TrustedContact, Db, Session, is_current_user}
use legacy_made_api.Entitlements.Types.{QuotaFeature}

-- INNER JOIN plans ON plan_id = plans.id WHERE plans.user_id = user_id, for one row
abbrev pub is_joined : Session → Text → Text → Plan → Bool
is_joined s user_id plan_id p =
    is_current_user s p.user_id && p.id == plan_id && p.user_id == user_id

unfoldable pub joined : Session → Text → List Plan → Text → ℕ
joined s user_id plans plan_id = length (select (is_joined s user_id plan_id) plans)

-- SELECT count(*) over the join of a table with plans
unfoldable pub count_rows : Session → Text → List Plan → List Text → ℕ
count_rows s user_id plans [] = 0
count_rows s user_id plans (plan_id ∷ rows) =
    joined s user_id plans plan_id + count_rows s user_id plans rows

abbrev plan_ids : List Item → List Text
plan_ids [] = []
plan_ids (i ∷ items) = i.plan_id ∷ plan_ids items

abbrev contact_plan_ids : List TrustedContact → List Text
contact_plan_ids [] = []
contact_plan_ids (c ∷ contacts) = c.plan_id ∷ contact_plan_ids contacts

-- `files.entry_id = entries.id`, and likewise for wishes and messages
abbrev refers_to : Option Text → Text → Bool
refers_to none id = false
refers_to (some r) id = r == id

-- The rows of the join of one file with a table of items and with plans.
unfoldable pub joined_items : Session → Text → List Plan → List Item → Option Text → ℕ
joined_items s user_id plans [] ref = 0
joined_items s user_id plans (i ∷ items) ref =
    (if refers_to ref i.id then joined s user_id plans i.plan_id else 0)
    + joined_items s user_id plans items ref

-- SELECT sum(size_bytes) over the join; the sum of no row counts as 0
unfoldable pub sum_bytes :
    Session → Text → List Plan → List Item → (File → Option Text) → List File → ℕ
sum_bytes s user_id plans items ref [] = 0
sum_bytes s user_id plans items ref (f ∷ files) =
    f.size_bytes * joined_items s user_id plans items (ref f)
    + sum_bytes s user_id plans items ref files

abbrev bytes_per_mb : ℕ
bytes_per_mb = 1024 * 1024

-- `Math.ceil(bytes / (1024 * 1024))`
abbrev pub ceil_mb : ℕ → ℕ
ceil_mb bytes = (bytes + (bytes_per_mb - 1)) / bytes_per_mb

unfoldable pub stored_bytes : Session → Db → Text → ℕ
stored_bytes s db user_id =
    sum_bytes s user_id db.plans db.entries (λ f. f.entry_id) db.files
    + sum_bytes s user_id db.plans db.wishes (λ f. f.wish_id) db.files
    + sum_bytes s user_id db.plans db.messages (λ f. f.message_id) db.files

unfoldable pub count_usage : Session → Db → Text → QuotaFeature → ℕ
unfolding count_rows
count_usage s db u QuotaFeature.entries = count_rows s u db.plans (plan_ids db.entries)
count_usage s db u QuotaFeature.wishes = count_rows s u db.plans (plan_ids db.wishes)
count_usage s db u QuotaFeature.trusted_contacts =
    count_rows s u db.plans (contact_plan_ids db.trusted_contacts)
count_usage s db u QuotaFeature.family_profiles = 0
count_usage s db u QuotaFeature.legacy_messages = count_rows s u db.plans (plan_ids db.messages)
count_usage s db u QuotaFeature.storage_mb = ceil_mb (stored_bytes s db u)
