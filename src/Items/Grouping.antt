-- ===== src/Items/Grouping.antt =====
-- `groupBy` of src/common/utils/array.ts. The key is a column that may be NULL; `String(null)` is
-- the text of no id, so it is kept apart as `none`.
use legacy_made_api.Prelude.{
  Bool, true, false, Option, none, some, List, [], ◌∷◌, ◌++◌, Text, ◌==◌, if◌then◌else◌,
}

abbrev pub option_eq : Option Text → Option Text → Bool
option_eq none none = true
option_eq none (some _) = false
option_eq (some _) none = false
option_eq (some a) (some b) = a == b

module _ {A : Type 0} where
  -- `(acc[k] = acc[k] || []).push(item)`
  abbrev pub push : Option Text → A → List (Option Text × List A) → List (Option Text × List A)
  push k item [] = (k, item ∷ []) ∷ []
  push k item (group ∷ acc) =
      let rest = push k item acc in
      if option_eq group.0 k then (k, group.1 ++ (item ∷ [])) ∷ acc else group ∷ rest

  -- the loop of `reduce`
  abbrev pub group_onto :
      List (Option Text × List A) → List A → (A → Option Text) → List (Option Text × List A)
  group_onto acc [] key = acc
  group_onto acc (item ∷ arr) key = group_onto (push (key item) item acc) arr key

  unfoldable pub group_by : List A → (A → Option Text) → List (Option Text × List A)
  group_by arr key = group_onto [] arr key

  -- `groups[k] || []`
  abbrev pub group : List (Option Text × List A) → Option Text → List A
  group [] k = []
  group (g ∷ groups) k = if option_eq g.0 k then g.1 else group groups k
