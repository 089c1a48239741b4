-- ===== src/Items/LockedRows.antt =====
-- The rows of entries, wishes and messages that a user may not edit (src/entries, src/wishes,
-- src/messages), and what keeps them.
use legacy_made_api.Prelude.{
  Bool-cases, inl, inr, ◌≡◌, refl, ◌∙◌, ap, sym, Bool, true, false, not, none, some, List, [], ◌∷◌,
  arith, truthy,
}
use mathlib.Core.Path.{ap₂}
use legacy_made_api.Prelude.Results.{ok}
use legacy_made_api.Prelude.Tables.{select, update, delete}
use legacy_made_api.Schema.{Item, File, Db, Session, as_user}
use legacy_made_api.DbService.{Cls}
use legacy_made_api.ActivityLog.{LogActivityParams, insert_activity, log}
use legacy_made_api.Sharing.Writes.{SameAccess, SameAccess-trans, log-SameAccess}
use legacy_made_api.Items.Writes.{insert_item}
use legacy_made_api.Schema.{owner_or_contact, only_edit}
use legacy_made_api.Items.Kinds.{Kind, items, set_items, item_modifiable}

-- `userHasAccessToPlan` with full_edit, or the plan is the user's, for the user of a request.
abbrev pub may_edit : Cls → Db → Item → Bool
may_edit cls db i = elim (truthy cls.user_id) [
  | none ↦ false
  | some u ↦ item_modifiable (as_user u) db i
]

-- The rows that the user of a request may not edit, by the plans and the contacts of a database.
abbrev pub locked_rows : Cls → Db → List Item → List Item
locked_rows cls db rows = select (λ i. not (may_edit cls db i)) rows

module _ {A : Type 0} (q p : A → Bool) where
  pub select-update :
      (f : A → A)
      → ((x : A) → p x ≡ true → q x ≡ false)
      → ((x : A) → q (f x) ≡ q x)
      → (xs : List A) → select q (update p f xs) ≡ select q xs
  select-update f hidden keeps [] = refl
  select-update f hidden keeps (x ∷ xs) =
      ground (arith, hidden x, keeps x, select-update f hidden keeps xs)

  pub select-delete :
      ((x : A) → p x ≡ true → q x ≡ false) → (xs : List A) → select q (delete p xs) ≡ select q xs
  select-delete hidden [] = refl
  select-delete hidden (x ∷ xs) = ground (arith, hidden x, select-delete hidden xs)

set_items-keeps :
    (f : List Item → List Item) (k k' : Kind) (rows : List Item) (db : Db)
    → f rows ≡ f (items k' db)
    → f (items k (set_items k' rows db)) ≡ f (items k db)
set_items-keeps f Kind.entry Kind.entry rows db h = h
set_items-keeps f Kind.wish Kind.wish rows db h = h
set_items-keeps f Kind.message Kind.message rows db h = h
set_items-keeps f Kind.entry Kind.wish rows db h = refl
set_items-keeps f Kind.entry Kind.message rows db h = refl
set_items-keeps f Kind.wish Kind.entry rows db h = refl
set_items-keeps f Kind.wish Kind.message rows db h = refl
set_items-keeps f Kind.message Kind.entry rows db h = refl
set_items-keeps f Kind.message Kind.wish rows db h = refl

pub set_items-SameAccess :
    (k : Kind) (rows : List Item) (db : Db) → SameAccess db (set_items k rows db)
set_items-SameAccess Kind.entry rows db = (refl, refl)
set_items-SameAccess Kind.wish rows db = (refl, refl)
set_items-SameAccess Kind.message rows db = (refl, refl)

pub log-items :
    (cls : Cls) (p : LogActivityParams) (s : Session) (k : Kind) (db db' : Db)
    → log cls p s db ≡ ok db'
    → items k db' ≡ items k db
unfolding log insert_activity
log-items cls p s k db db' h = ground arith

-- Contacts and plans are as before, and so are the rows that the user may not edit.
abbrev pub Locked : Cls → Db → Db → Type 0
Locked cls db db' =
    SameAccess db db'
    × ((k : Kind) → locked_rows cls db (items k db') ≡ locked_rows cls db (items k db))

pub log-Locked :
    (cls : Cls) (p : LogActivityParams) (s : Session) (db m db' : Db)
    → Locked cls db m
    → log cls p s m ≡ ok db'
    → Locked cls db db'
log-Locked cls p s db m db' (same, locked) h = (
  SameAccess-trans db m db' same (log-SameAccess cls p s m db' h),
  λ k. ap (locked_rows cls db) (log-items cls p s k m db' h) ∙ locked k,
)

pub set_items-Locked :
    (cls : Cls) (k : Kind) (rows : List Item) (db m : Db)
    → Locked cls db m
    → locked_rows cls db rows ≡ locked_rows cls db (items k m)
    → Locked cls db (set_items k rows m)
set_items-Locked cls k rows db m (same, locked) h = (
  SameAccess-trans db m (set_items k rows m) same (set_items-SameAccess k rows m),
  λ k'. set_items-keeps (locked_rows cls db) k' k rows m h ∙ locked k',
)

pub Locked-refl : (cls : Cls) (db : Db) → Locked cls db db
Locked-refl cls db = ((refl, refl), λ k. refl)

pub items-files :
    (k : Kind) (files : List File) (db : Db) → items k (record db { files = files }) ≡ items k db
items-files Kind.entry files db = refl
items-files Kind.wish files db = refl
items-files Kind.message files db = refl

locked_rows-SameAccess :
    (cls : Cls) (a b : Db) (rows : List Item)
    → SameAccess a b
    → locked_rows cls b rows ≡ locked_rows cls a rows
locked_rows-SameAccess cls a b rows (contacts, plans) =
    ap₂ (λ c p. locked_rows cls (record a { trusted_contacts = c; plans = p }) rows) contacts plans

pub Locked-trans : (cls : Cls) (a b c : Db) → Locked cls a b → Locked cls b c → Locked cls a c
Locked-trans cls a b c (same, locked) (same', locked') = (
  SameAccess-trans a b c same same',
  λ k.
      sym (locked_rows-SameAccess cls a b (items k c) same)
      ∙ locked' k
      ∙ locked_rows-SameAccess cls a b (items k b) same
      ∙ locked k,
)

-- What an INSERT that returns has done.
pub insert_item-shape :
    (kind : Kind) (i : Item) (s : Session) (db m : Db)
    → insert_item kind i s db ≡ ok m
    → (set_items kind (i ∷ items kind db) db ≡ m)
      × (owner_or_contact s only_edit db i.plan_id ≡ true)
unfolding insert_item
insert_item-shape kind i s db m h = elim (Bool-cases (owner_or_contact s only_edit db i.plan_id)) [
  | inr refused ↦ absurd (ground arith)
  | inl allowed ↦ (ground arith, allowed)
]

pub items-set_items : (k : Kind) (rows : List Item) (db : Db) → items k (set_items k rows db) ≡ rows
items-set_items Kind.entry rows db = refl
items-set_items Kind.wish rows db = refl
items-set_items Kind.message rows db = refl
