-- ===== src/Prelude/Order.antt =====
-- Integers, and the rows of a query in the order of an integer column.
use Prim.Native.Nat.{ℕ}
use mathlib.Core.Bool.{Bool, true, false}
use mathlib.Core.List.{List, [], ◌∷◌}
use legacy_made_api.Prelude.Tests.{leb, if◌then◌else◌}

-- `negsuc n` is -(n + 1).
pub data ℤ : Type 0 where
  pos negsuc : ℕ → ℤ

abbrev pub leb_int : ℤ → ℤ → Bool
leb_int (pos a) (pos b) = leb a b
leb_int (pos a) (negsuc b) = false
leb_int (negsuc a) (pos b) = true
leb_int (negsuc a) (negsuc b) = leb b a

module _ {A : Type 0} (key : A → ℤ) where
  abbrev pub insert_ordered : A → List A → List A
  insert_ordered x [] = x ∷ []
  insert_ordered x (y ∷ ys) =
      let rest = insert_ordered x ys in if leb_int (key x) (key y) then x ∷ y ∷ ys else y ∷ rest

  -- ORDER BY key; rows with one key stay in the order of the table
  abbrev pub order_by : List A → List A
  order_by [] = []
  order_by (x ∷ xs) = insert_ordered x (order_by xs)
