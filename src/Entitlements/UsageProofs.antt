-- ===== src/Entitlements/UsageProofs.antt =====
-- One more row and `countUsageInTx` of src/entitlements/entitlements.service.ts.
use legacy_made_api.Prelude.{
  ℕ, ◌+◌, ◌≤◌, ◌≡◌, refl, false, Option, none, some, List, [], ◌∷◌, arith, Text, ◌==◌, Bool-cases,
  inl, inr, ◌⊎◌,
}
use legacy_made_api.Prelude.Tables.{any, Distinct}
use legacy_made_api.TableLaws.{length-select-le}
use legacy_made_api.Schema.{Plan, Item, File, TrustedContact, Db, Session}
use legacy_made_api.Entitlements.Types.{QuotaFeature}
use legacy_made_api.Entitlements.Usage.{
  is_joined, joined, joined_items, sum_bytes, stored_bytes, ceil_mb, count_usage,
}

-- plans.id is a primary key, and so are the ids of the items.
abbrev pub HasPlanKey : Db → Type 0
HasPlanKey db = Distinct (λ (p : Plan). p.id) db.plans

abbrev item_id : Item → ℕ
item_id i = i.id

-- The database with one more row of the table that a feature counts.
abbrev pub with_row : QuotaFeature → Item → TrustedContact → Db → Db
with_row QuotaFeature.entries i c db = record db { entries = i ∷ db.entries }
with_row QuotaFeature.wishes i c db = record db { wishes = i ∷ db.wishes }
with_row QuotaFeature.legacy_messages i c db = record db { messages = i ∷ db.messages }
with_row QuotaFeature.trusted_contacts i c db = record db {
  trusted_contacts = c ∷ db.trusted_contacts;
}
with_row QuotaFeature.family_profiles i c db = db
with_row QuotaFeature.storage_mb i c db = db

joined-le :
    (s : Session) (u : Text) (plans : List Plan) (plan_id : Text)
    → Distinct (λ (p : Plan). p.id) plans
    → joined s u plans plan_id ≤ 1
unfolding joined
joined-le s u plans plan_id d =
    length-select-le (λ (p : Plan). p.id) plan_id (is_joined s u plan_id) (λ p h. ground arith)
      plans d

pub count_usage-with_row :
    (s : Session) (u : Text) (feature : QuotaFeature) (i : Item) (c : TrustedContact) (db : Db)
    → HasPlanKey db
    → count_usage s (with_row feature i c db) u feature ≤ count_usage s db u feature + 1
unfolding count_usage
count_usage-with_row s u QuotaFeature.entries i c db d =
    omega (arith, joined-le s u db.plans i.plan_id d)
count_usage-with_row s u QuotaFeature.wishes i c db d =
    omega (arith, joined-le s u db.plans i.plan_id d)
count_usage-with_row s u QuotaFeature.legacy_messages i c db d =
    omega (arith, joined-le s u db.plans i.plan_id d)
count_usage-with_row s u QuotaFeature.trusted_contacts i c db d =
    omega (arith, joined-le s u db.plans c.plan_id d)
count_usage-with_row s u _ i c db d = omega arith

module _ (s : Session) (u : Text) (plans : List Plan)
    (d : Distinct (λ (p : Plan). p.id) plans) where
  joined_items-none : (items : List Item) → joined_items s u plans items none ≡ 0
  unfolding joined_items
  joined_items-none [] = refl
  joined_items-none (i ∷ items) = ground (arith, joined_items-none items)

  joined_items-absent :
      (items : List Item) (r : Text)
      → any (λ i. item_id i == r) items ≡ false
      → joined_items s u plans items (some r) ≡ 0
  unfolding joined_items
  joined_items-absent [] r h = refl
  joined_items-absent (i ∷ items) r h = ground (arith, joined_items-absent items r)

  joined_items-le :
      (items : List Item) (ref : Option Text)
      → Distinct item_id items
      → joined_items s u plans items ref ≤ 1
  unfolding joined_items
  joined_items-le items none k = rw joined_items-none (omega arith)
  joined_items-le [] (some r) k = omega arith
  joined_items-le (i ∷ items) (some r) k = elim (Bool-cases (r == i.id)) [
    | inl here ↦
        let e : r ≡ i.id = ground arith in
        rw (e, joined_items-absent items i.id k.0) (ground (arith, joined-le s u plans i.plan_id d))
    | inr there ↦ rw there (omega (arith, joined_items-le items (some r) k.1))
  ]

  sum_bytes-cons :
      (items : List Item) (ref : File → Option Text) (f : File) (files : List File)
      → Distinct item_id items
      → sum_bytes s u plans items ref (f ∷ files)
        ≤ f.size_bytes + sum_bytes s u plans items ref files
  unfolding sum_bytes
  sum_bytes-cons items ref f files k = grind (arith, joined_items-le items (ref f) k)

  sum_bytes-unrelated :
      (items : List Item) (ref : File → Option Text) (f : File) (files : List File)
      → ref f ≡ none
      → sum_bytes s u plans items ref (f ∷ files) ≡ sum_bytes s u plans items ref files
  unfolding sum_bytes
  sum_bytes-unrelated items ref f files e = rw (e, joined_items-none) (omega arith)

-- A file hangs on an entry, on a wish or on a message, and on nothing else.
abbrev pub HasOneParent : File → Type 0
HasOneParent f =
    ((f.wish_id ≡ none) × (f.message_id ≡ none))
    ⊎ ((f.entry_id ≡ none) × (f.message_id ≡ none))
    ⊎ ((f.entry_id ≡ none) × (f.wish_id ≡ none))

-- The primary keys of the tables that a file can hang on.
abbrev pub HasItemKeys : Db → Type 0
HasItemKeys db =
    Distinct item_id db.entries × Distinct item_id db.wishes × Distinct item_id db.messages

stored_bytes-file :
    (s : Session) (u : Text) (f : File) (db : Db)
    → HasPlanKey db
    → HasItemKeys db
    → HasOneParent f
    → stored_bytes s (record db { files = f ∷ db.files }) u ≤ f.size_bytes + stored_bytes s db u
unfolding stored_bytes
stored_bytes-file s u f db d k (inl (w, m)) = omega (
  arith,
  sum_bytes-cons s u db.plans d db.entries (λ g. g.entry_id) f db.files k.0,
  sum_bytes-unrelated s u db.plans d db.wishes (λ g. g.wish_id) f db.files w,
  sum_bytes-unrelated s u db.plans d db.messages (λ g. g.message_id) f db.files m,
)
stored_bytes-file s u f db d k (inr (inl (e, m))) = omega (
  arith,
  sum_bytes-unrelated s u db.plans d db.entries (λ g. g.entry_id) f db.files e,
  sum_bytes-cons s u db.plans d db.wishes (λ g. g.wish_id) f db.files k.1,
  sum_bytes-unrelated s u db.plans d db.messages (λ g. g.message_id) f db.files m,
)
stored_bytes-file s u f db d k (inr (inr (e, w))) = omega (
  arith,
  sum_bytes-unrelated s u db.plans d db.entries (λ g. g.entry_id) f db.files e,
  sum_bytes-unrelated s u db.plans d db.wishes (λ g. g.wish_id) f db.files w,
  sum_bytes-cons s u db.plans d db.messages (λ g. g.message_id) f db.files k.2,
)

ceil_mb-add : (a b c : ℕ) → c ≤ a + b → ceil_mb c ≤ ceil_mb a + ceil_mb b
ceil_mb-add a b c h = omega arith

-- The megabytes in use grow by no more than those of the file, each rounded up.
pub count_usage-file :
    (s : Session) (u : Text) (f : File) (db : Db)
    → HasPlanKey db
    → HasItemKeys db
    → HasOneParent f
    → count_usage s (record db { files = f ∷ db.files }) u QuotaFeature.storage_mb
      ≤ count_usage s db u QuotaFeature.storage_mb + ceil_mb f.size_bytes
unfolding count_usage
count_usage-file s u f db d k h =
    ceil_mb-add (stored_bytes s db u) f.size_bytes
      (stored_bytes s (record db { files = f ∷ db.files }) u)
      (omega (arith, stored_bytes-file s u f db d k h))
