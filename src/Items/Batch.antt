-- ===== src/Items/Batch.antt =====
-- `groupBy` (src/common/utils/array.ts) and the batch of files in `findAll` against a query for each
-- row.
use legacy_made_api.Prelude.{
  ◌≡◌, refl, sym, ◌∙◌, ap, Bool, true, ◌&&◌, Option, none, some, List, [], ◌∷◌, ◌++◌, arith, Text,
  ◌==◌, if◌then◌else◌, Bool-cases, inl, inr,
}
use mathlib.Core.List.{append_assoc, append-nil}
use legacy_made_api.Prelude.Tables.{any, select}
use legacy_made_api.Items.Grouping.{option_eq, push, group_onto, group_by, group}
use legacy_made_api.Files.{refers, refers_to_any}

option_eq_refl : (k : Option Text) → option_eq k k ≡ true
option_eq_refl none = refl
option_eq_refl (some k) = ground arith

option_eq_sound : (a b : Option Text) → option_eq a b ≡ true → a ≡ b
option_eq_sound none none h = refl
option_eq_sound none (some b) h = cc
option_eq_sound (some a) none h = cc
option_eq_sound (some a) (some b) h = ground arith

one_of_column :
    (ids : List Text) (id : Text) (c : Option Text)
    → any (λ i. id == i) ids ≡ true
    → refers_to_any ids c && option_eq c (some id) ≡ refers id c
one_of_column ids id none there = refl
one_of_column ids id (some r) there = elim (Bool-cases (r == id)) [
  | inl same ↦
      let e : r ≡ id = ground arith in
      let listed : any (λ i. r == i) ids ≡ true = ap (λ n. any (λ i. n == i) ids) e ∙ there in
      rw (same, listed) refl
  | inr other ↦ ground (arith, other)
]

module _ {A : Type 0} where
  group-push :
      (k k' : Option Text) (item : A) (acc : List (Option Text × List A))
      → group (push k item acc) k'
        ≡ (if option_eq k k' then group acc k' ++ (item ∷ []) else group acc k')
  group-push k k' item [] = refl
  group-push k k' item (g ∷ acc) = elim (Bool-cases (option_eq g.0 k)) [
    | inl here ↦
        let same : g.0 ≡ k = option_eq_sound g.0 k here in
        elim (Bool-cases (option_eq k k')) [
          | inl wanted ↦ rw (here, same, wanted) refl
          | inr other ↦ rw (here, same, other) refl
        ]
    | inr there ↦ elim (Bool-cases (option_eq g.0 k')) [
      | inl wanted ↦ elim (Bool-cases (option_eq k k')) [
        | inl both ↦
            let same : k ≡ k' = option_eq_sound k k' both in
            let e : option_eq g.0 k ≡ true = ap (option_eq g.0) same ∙ wanted in
            absurd (ground arith)
        | inr other ↦ rw (there, wanted, other) refl
      ]
      | inr other ↦ rw (there, other) (group-push k k' item acc)
    ]
  ]

  group-group_onto :
      (key : A → Option Text) (k : Option Text) (acc : List (Option Text × List A)) (arr : List A)
      → group (group_onto acc arr key) k ≡ group acc k ++ select (λ x. option_eq (key x) k) arr
  group-group_onto key k acc [] = sym (append-nil (group acc k))
  group-group_onto key k acc (x ∷ arr) =
      let e = group-group_onto key k (push (key x) x acc) arr in
      let p = group-push (key x) k x acc in
      elim (Bool-cases (option_eq (key x) k)) [
        | inl wanted ↦
            rw (e, p, wanted)
              (append_assoc (group acc k) (x ∷ []) (select (λ y. option_eq (key y) k) arr))
        | inr other ↦ rw (e, p, other) refl
      ]

  -- A group holds the items with its key, in their order.
  pub group-group_by :
      (arr : List A) (key : A → Option Text) (k : Option Text)
      → group (group_by arr key) k ≡ select (λ x. option_eq (key x) k) arr
  unfolding group_by
  group-group_by arr key k = group-group_onto key k [] arr

  -- The rows for one id among the rows for several.
  pub select_one_of :
      (readable : A → Bool) (column : A → Option Text) (ids : List Text) (id : Text)
      → any (λ i. id == i) ids ≡ true
      → (xs : List A)
      → select
          (λ x. option_eq (column x) (some id))
          (select (λ x. readable x && refers_to_any ids (column x)) xs)
        ≡ select (λ x. readable x && refers id (column x)) xs
  select_one_of readable column ids id there [] = refl
  select_one_of readable column ids id there (x ∷ xs) =
      let rest = select_one_of readable column ids id there xs in
      let e = one_of_column ids id (column x) there in
      elim (Bool-cases (readable x)) [
        | inr hidden ↦ rw (hidden) rest
        | inl shown ↦ elim (Bool-cases (refers_to_any ids (column x))) [
          | inl listed ↦ ground (arith, e, rest, shown, listed)
          | inr other ↦ ground (arith, e, rest, shown, other)
        ]
      ]
