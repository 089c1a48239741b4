-- ===== src/Prelude/Tables.antt =====
-- A database table as the list of its rows, with the statements that the services run on it, and
-- the laws of these statements.
use Prim.Native.Nat.{ℕ, suc}
use mathlib.Core.Path.{◌≡◌}
use mathlib.Core.Bool.{Bool, false, ◌||◌}
use mathlib.Core.Option.{Option, none, some}
use mathlib.Core.List.{List, [], ◌∷◌}
use legacy_made_api.Prelude.Tests.{if◌then◌else◌, ◌==◌}

abbrev pub All : {A : Type 0} → (A → Type 0) → List A → Type 0
All P [] = Unit
All P (x ∷ xs) = P x × All P xs

module _ {A : Type 0} where
  abbrev pub length : List A → ℕ
  length [] = 0
  length (x ∷ xs) = suc (length xs)

  -- SELECT … WHERE p
  abbrev pub select : (A → Bool) → List A → List A
  select p [] = []
  select p (x ∷ xs) = let rest = select p xs in if p x then x ∷ rest else rest

  -- const [row] = SELECT … WHERE p
  abbrev pub find : (A → Bool) → List A → Option A
  find p [] = none
  find p (x ∷ xs) = if p x then some x else find p xs

  abbrev pub any : (A → Bool) → List A → Bool
  any p [] = false
  any p (x ∷ xs) = p x || any p xs

  -- UPDATE … SET f WHERE p
  abbrev pub update : (A → Bool) → (A → A) → List A → List A
  update p f [] = []
  update p f (x ∷ xs) = (if p x then f x else x) ∷ update p f xs

  -- DELETE … WHERE p
  abbrev pub delete : (A → Bool) → List A → List A
  delete p [] = []
  delete p (x ∷ xs) = let rest = delete p xs in if p x then rest else x ∷ rest

-- No two rows have the same key: a primary key or a unique index.
abbrev pub Distinct : {A : Type 0} → (A → ℕ) → List A → Type 0
Distinct key [] = Unit
Distinct key (x ∷ xs) = (any (λ y. key y == key x) xs ≡ false) × Distinct key xs
