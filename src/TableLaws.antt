-- ===== src/TableLaws.antt =====
-- Laws of the statements on tables.
pub mod Ordered
use legacy_made_api.Prelude.{
  ℕ, ◌≤◌, ◌≡◌, refl, inl, inr, Bool, true, false, Option, none, some, List, [], ◌∷◌, ◌||◌, arith,
  ◌==◌, if◌then◌else◌, Bool-cases, ap,
}
use mathlib.Core.Path.{ap₂, subst}
use mathlib.Core.List.{Mem, mem-cons_self, mem-cons_of_mem}
use legacy_made_api.Prelude.Tables.{length, select, find, any, update, delete, Distinct, All}

module _ {A : Type 0} (p q : A → Bool) (implies : (x : A) → p x ≡ true → q x ≡ true) where
  length-select-zero : (xs : List A) → any q xs ≡ false → length (select p xs) ≡ 0
  length-select-zero [] h = refl
  length-select-zero (x ∷ xs) h = ground (arith, implies x, length-select-zero xs)

-- A condition that fixes a distinct key selects one row at most.
pub length-select-le :
    {A : Type 0} (key : A → ℕ) (k : ℕ) (p : A → Bool)
    → ((x : A) → p x ≡ true → key x ≡ k)
    → (xs : List A) → Distinct key xs
    → length (select p xs) ≤ 1
length-select-le key k p fixes [] d = omega arith
length-select-le {A} key k p fixes (x ∷ xs) d = elim (Bool-cases (p x)) [
  | inr out ↦ rw out (length-select-le key k p fixes xs d.1)
  | inl kept ↦
      let same : (y : A) → p y ≡ true → (key y == key x) ≡ true =
        λ y h. ground (arith, fixes y h, fixes x kept) in
      ground (arith, length-select-zero p (λ y. key y == key x) same xs d.0)
]

-- The row that an UPDATE leaves in place of a row.
abbrev pub updated : {A : Type 0} → (A → Bool) → (A → A) → A → A
updated p f x = if p x then f x else x

abbrev pub map_option : {A B : Type 0} → (A → B) → Option A → Option B
map_option f none = none
map_option f (some a) = some (f a)

-- An UPDATE that does not change which rows a condition selects.
module _ {A : Type 0} (sel p : A → Bool) (f : A → A) (keeps : (x : A) → sel (f x) ≡ sel x) where
  pub find-update :
      (xs : List A) → find sel (update p f xs) ≡ map_option (updated p f) (find sel xs)
  find-update [] = refl
  find-update (x ∷ xs) = ground (arith, keeps x, find-update xs)

  any-update : (xs : List A) → any sel (update p f xs) ≡ any sel xs
  any-update [] = refl
  any-update (x ∷ xs) = ground (arith, keeps x, any-update xs)

-- A second UPDATE by the same statement changes nothing more if its SET does not.
module _ {A : Type 0} (p : A → Bool) (f : A → A) (again : (x : A) → f (f x) ≡ f x) where
  updated_idem : (x : A) → updated p f (updated p f x) ≡ updated p f x
  updated_idem x = ground (arith, again x)

  pub update_idem : (xs : List A) → update p f (update p f xs) ≡ update p f xs
  update_idem [] = refl
  update_idem (x ∷ xs) = ap₂ ◌∷◌ (updated_idem x) (update_idem xs)

-- The row that is found meets the condition.
pub find_sound : {A : Type 0} (p : A → Bool) (xs : List A) {x : A} → find p xs ≡ some x → p x ≡ true
find_sound p [] h = cc
find_sound p (y ∷ ys) {x} h = elim (Bool-cases (p y)) [
  | inl here ↦ ground arith
  | inr there ↦ find_sound p ys (ground arith)
]

-- Two tables with the same rows, each related to the row in its place.
abbrev pub Rows : {A : Type 0} → (A → A → Type 0) → List A → List A → Type 0
Rows R [] [] = Unit
Rows R [] (y ∷ ys) = ⊥
Rows R (x ∷ xs) [] = ⊥
Rows R (x ∷ xs) (y ∷ ys) = R x y × Rows R xs ys

module _ {A : Type 0} (R : A → A → Type 0) where
  pub Rows-refl : ((x : A) → R x x) → (xs : List A) → Rows R xs xs
  Rows-refl same [] = tt
  Rows-refl same (x ∷ xs) = (same x, Rows-refl same xs)

  pub Rows-trans :
      ((x y z : A) → R x y → R y z → R x z)
      → (xs ys zs : List A) → Rows R xs ys
      → Rows R ys zs
      → Rows R xs zs
  Rows-trans trans [] [] zs h k = k
  Rows-trans trans [] (y ∷ ys) zs h k = elim h [ ]
  Rows-trans trans (x ∷ xs) [] zs h k = elim h [ ]
  Rows-trans trans (x ∷ xs) (y ∷ ys) [] h k = elim k [ ]
  Rows-trans trans (x ∷ xs) (y ∷ ys) (z ∷ zs) h k =
      (trans x y z h.0 k.0, Rows-trans trans xs ys zs h.1 k.1)

  pub Rows-update :
      (p : A → Bool) (f : A → A)
      → ((x : A) → R x (updated p f x))
      → (xs : List A) → Rows R xs (update p f xs)
  Rows-update p f step [] = tt
  Rows-update p f step (x ∷ xs) = (step x, Rows-update p f step xs)

-- Two conditions that agree on every row give one UPDATE.
pub update_cong :
    {A : Type 0} (p q : A → Bool) (f : A → A) (xs : List A)
    → All (λ x. p x ≡ q x) xs
    → update p f xs ≡ update q f xs
update_cong p q f [] h = refl
update_cong p q f (x ∷ xs) h =
    ap₂ ◌∷◌ (ap (λ b. if b then f x else x) h.0) (update_cong p q f xs h.1)

pub All-of_not_any :
    {A : Type 0} (p : A → Bool) (xs : List A) → any p xs ≡ false → All (λ x. p x ≡ false) xs
All-of_not_any p [] h = tt
All-of_not_any p (x ∷ xs) h = (ground arith, All-of_not_any p xs (ground arith))

pub All-zip :
    {A : Type 0} (P Q R : A → Type 0)
    → ((x : A) → P x → Q x → R x)
    → (xs : List A) → All P xs
    → All Q xs
    → All R xs
All-zip P Q R step [] h k = tt
All-zip P Q R step (x ∷ xs) h k = (step x h.0 k.0, All-zip P Q R step xs h.1 k.1)

pub All-map :
    {A : Type 0} (P Q : A → Type 0) → ((x : A) → P x → Q x) → (xs : List A) → All P xs → All Q xs
All-map P Q step [] h = tt
All-map P Q step (x ∷ xs) h = (step x h.0, All-map P Q step xs h.1)

pub any-delete :
    {A : Type 0} (q p : A → Bool) (xs : List A) → any q xs ≡ false → any q (delete p xs) ≡ false
any-delete q p [] h = refl
any-delete q p (x ∷ xs) h = ground (arith, any-delete q p xs)

-- A row that is found and meets another condition shows that some row meets this one.
pub find-any :
    {A : Type 0} (p q : A → Bool) (xs : List A) (s : A)
    → find p xs ≡ some s
    → q s ≡ true
    → any q xs ≡ true
find-any p q [] s h k = cc
find-any p q (x ∷ xs) s h k = elim (Bool-cases (p x)) [
  | inl here ↦ let e : x ≡ s = ground arith in rw (e, k) refl
  | inr there ↦ ground (arith, find-any p q xs s)
]

-- A row that is found is in the table.
pub find-Mem : {A : Type 0} (p : A → Bool) (xs : List A) (s : A) → find p xs ≡ some s → Mem s xs
find-Mem p [] s h = cc
find-Mem p (x ∷ xs) s h = elim (Bool-cases (p x)) [
  | inl here ↦ let e : x ≡ s = ground arith in subst (λ y. Mem y (x ∷ xs)) e mem-cons_self
  | inr there ↦ mem-cons_of_mem x (find-Mem p xs s (ground arith))
]

module _ {A : Type 0} (key : A → ℕ) where
  key-updated :
      (p : A → Bool) (f : A → A)
      → ((x : A) → key (f x) ≡ key x)
      → (x : A) → key (updated p f x) ≡ key x
  key-updated p f keeps x = ground (arith, keeps x)

  pub Distinct-update :
      (p : A → Bool) (f : A → A)
      → ((x : A) → key (f x) ≡ key x)
      → (xs : List A) → Distinct key xs
      → Distinct key (update p f xs)
  Distinct-update p f keeps [] d = tt
  Distinct-update p f keeps (x ∷ xs) d = (
    rw (key-updated p f keeps x, any-update (λ y. key y == key x) p f (λ y. rw keeps) xs) d.0,
    Distinct-update p f keeps xs d.1,
  )

  pub Distinct-delete : (p : A → Bool) (xs : List A) → Distinct key xs → Distinct key (delete p xs)
  Distinct-delete p [] d = tt
  Distinct-delete p (x ∷ xs) d =
      ground (arith, any-delete (λ y. key y == key x) p xs, Distinct-delete p xs d.1)

  -- The row that is found is the only one with its key.
  pub found_is_only :
      (p : A → Bool) (xs : List A) (s : A)
      → Distinct key xs
      → find p xs ≡ some s
      → All (λ x. key x ≡ key s → x ≡ s) xs
  found_is_only p [] s d h = tt
  found_is_only p (x ∷ xs) s d h = elim (Bool-cases (p x)) [
    | inl here ↦
        let e : x ≡ s = ground arith in
        (
          λ same. e,
          All-map (λ y. (key y == key x) ≡ false) (λ y. key y ≡ key s → y ≡ s)
              (λ y other same. absurd (ground (arith, ap key e))) xs
              (All-of_not_any (λ y. key y == key x) xs d.0),
        )
    | inr there ↦
        let later : find p xs ≡ some s = ground arith in
        (
          λ same. absurd (ground (arith, find-any p (λ y. key y == key x) xs s later)),
          found_is_only p xs s d.1 later,
        )
  ]

pub any-update-false :
    {A : Type 0} (q p : A → Bool) (f : A → A) (xs : List A)
    → All (λ x. q (updated p f x) ≡ false) xs
    → any q (update p f xs) ≡ false
any-update-false q p f [] h = refl
any-update-false q p f (x ∷ xs) h = ground (arith, any-update-false q p f xs h.1)

pub any_or :
    {A : Type 0} (p q : A → Bool) (xs : List A)
    → any (λ x. p x || q x) xs ≡ false
    → (any p xs ≡ false) × (any q xs ≡ false)
any_or p q [] h = (refl, refl)
any_or p q (x ∷ xs) h = ground (arith, any_or p q xs)

pub find_cong :
    {A : Type 0} (p q : A → Bool) → ((x : A) → p x ≡ q x) → (xs : List A) → find p xs ≡ find q xs
find_cong p q same [] = refl
find_cong p q same (x ∷ xs) = ground (arith, same x, find_cong p q same xs)

any_cong :
    {A : Type 0} (p q : A → Bool) → ((x : A) → p x ≡ q x) → (xs : List A) → any p xs ≡ any q xs
any_cong p q same [] = refl
any_cong p q same (x ∷ xs) = ground (arith, same x, any_cong p q same xs)

-- Nothing that was deleted is found.
module _ {A : Type 0} (p q : A → Bool) (covers : (x : A) → p x ≡ true → q x ≡ true) where
  pub find-delete-none : (xs : List A) → find p (delete q xs) ≡ none
  find-delete-none [] = refl
  find-delete-none (x ∷ xs) = ground (arith, covers x, find-delete-none xs)

  pub any-delete-none : (xs : List A) → any p (delete q xs) ≡ false
  any-delete-none [] = refl
  any-delete-none (x ∷ xs) = ground (arith, covers x, any-delete-none xs)

pub update_none :
    {A : Type 0} (p : A → Bool) (f : A → A) (xs : List A)
    → All (λ x. p x ≡ false) xs
    → update p f xs ≡ xs
update_none p f [] h = refl
update_none p f (x ∷ xs) h = ground (arith, update_none p f xs)
