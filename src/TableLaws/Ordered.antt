-- ===== src/TableLaws/Ordered.antt =====
-- Laws of ORDER BY.
use legacy_made_api.Prelude.{
  ◌≡◌, refl, inl, inr, Bool, true, false, List, [], ◌∷◌, arith, if◌then◌else◌, Bool-cases,
}
use legacy_made_api.Prelude.Order.{ℤ, pos, negsuc, leb_int, insert_ordered, order_by}
use legacy_made_api.Prelude.Tables.{select, All}

leb_int_trans : (a b c : ℤ) → leb_int a b ≡ true → leb_int b c ≡ true → leb_int a c ≡ true
leb_int_trans (pos a) (pos b) (pos c) h k = ground (arith, h, k)
leb_int_trans (pos a) (pos b) (negsuc c) h k = k
leb_int_trans (pos a) (negsuc b) c h k = cc
leb_int_trans (negsuc a) (pos b) (pos c) h k = refl
leb_int_trans (negsuc a) (pos b) (negsuc c) h k = cc
leb_int_trans (negsuc a) (negsuc b) (pos c) h k = refl
leb_int_trans (negsuc a) (negsuc b) (negsuc c) h k = ground (arith, h, k)

leb_int_total : (a b : ℤ) → leb_int a b ≡ false → leb_int b a ≡ true
leb_int_total (pos a) (pos b) h = ground (arith, h)
leb_int_total (pos a) (negsuc b) h = refl
leb_int_total (negsuc a) (pos b) h = cc
leb_int_total (negsuc a) (negsuc b) h = ground (arith, h)

module _ {A : Type 0} (key : A → ℤ) where
  -- No row's key is less than the given one.
  abbrev AreAbove : ℤ → List A → Type 0
  AreAbove k = All (λ y. leb_int k (key y) ≡ true)

  abbrev IsOrdered : List A → Type 0
  IsOrdered [] = Unit
  IsOrdered (x ∷ xs) = AreAbove (key x) xs × IsOrdered xs

  AreAbove-lower : (k l : ℤ) (xs : List A) → leb_int k l ≡ true → AreAbove l xs → AreAbove k xs
  AreAbove-lower k l [] h above = tt
  AreAbove-lower k l (x ∷ xs) h above =
      (leb_int_trans k l (key x) h above.0, AreAbove-lower k l xs h above.1)

  AreAbove-insert_ordered :
      (k : ℤ) (x : A) (xs : List A)
      → leb_int k (key x) ≡ true
      → AreAbove k xs
      → AreAbove k (insert_ordered key x xs)
  AreAbove-insert_ordered k x [] h above = (h, tt)
  AreAbove-insert_ordered k x (y ∷ xs) h above = elim (Bool-cases (leb_int (key x) (key y))) [
    | inl here ↦ rw here (h, above)
    | inr later ↦ rw later (above.0, AreAbove-insert_ordered k x xs h above.1)
  ]

  AreAbove-select : (k : ℤ) (p : A → Bool) (xs : List A) → AreAbove k xs → AreAbove k (select p xs)
  AreAbove-select k p [] above = tt
  AreAbove-select k p (x ∷ xs) above = elim (Bool-cases (p x)) [
    | inl kept ↦ rw kept (above.0, AreAbove-select k p xs above.1)
    | inr left ↦ rw left (AreAbove-select k p xs above.1)
  ]

  insert_ordered-IsOrdered :
      (x : A) (xs : List A) → IsOrdered xs → IsOrdered (insert_ordered key x xs)
  insert_ordered-IsOrdered x [] ordered = (tt, tt)
  insert_ordered-IsOrdered x (y ∷ xs) ordered = elim (Bool-cases (leb_int (key x) (key y))) [
    | inl here ↦ rw here ((here, AreAbove-lower (key x) (key y) xs here ordered.0), ordered)
    | inr later ↦ rw later (
      AreAbove-insert_ordered (key y) x xs (leb_int_total (key x) (key y) later) ordered.0,
      insert_ordered-IsOrdered x xs ordered.1,
    )
  ]

  order_by-IsOrdered : (xs : List A) → IsOrdered (order_by key xs)
  order_by-IsOrdered [] = tt
  order_by-IsOrdered (x ∷ xs) = insert_ordered-IsOrdered x (order_by key xs) (order_by-IsOrdered xs)

  insert_ordered-least :
      (x : A) (xs : List A) → AreAbove (key x) xs → insert_ordered key x xs ≡ x ∷ xs
  insert_ordered-least x [] above = refl
  insert_ordered-least x (y ∷ xs) above = rw (above.0) refl

  select-insert_ordered :
      (p : A → Bool) (x : A) (xs : List A)
      → IsOrdered xs
      → select p (insert_ordered key x xs)
        ≡ (if p x then insert_ordered key x (select p xs) else select p xs)
  select-insert_ordered p x [] ordered = refl
  select-insert_ordered p x (y ∷ xs) ordered =
      let rest = select-insert_ordered p x xs ordered.1 in
      elim (Bool-cases (leb_int (key x) (key y))) [
        | inl here ↦
            let least = insert_ordered-least x (select p (y ∷ xs)) (
              AreAbove-select (key x) p (y ∷ xs)
                (here, AreAbove-lower (key x) (key y) xs here ordered.0)) in
            elim (Bool-cases (p x)) [
              | inl kept ↦ rw (here, kept, least) refl
              | inr left ↦ rw (here, left) refl
            ]
        | inr later ↦ elim (Bool-cases (p y)) [
          | inl kept ↦ elim (Bool-cases (p x)) [
            | inl mine ↦ rw (later, kept, rest, mine, later) refl
            | inr other ↦ rw (later, kept, rest, other) refl
          ]
          | inr left ↦ rw (later, left, rest) refl
        ]
      ]

  -- ORDER BY and WHERE may change places.
  pub select-order_by :
      (p : A → Bool) (xs : List A) → select p (order_by key xs) ≡ order_by key (select p xs)
  select-order_by p [] = refl
  select-order_by p (x ∷ xs) =
      let e = select-insert_ordered p x (order_by key xs) (order_by-IsOrdered xs) in
      let rest = select-order_by p xs in
      elim (Bool-cases (p x)) [
        | inl kept ↦ rw (e, kept, rest) refl
        | inr left ↦ rw (e, left, rest) refl
      ]
