-- ===== src/Items/Merging.antt =====
-- `mergeMetadata` (src/common/utils/helpers.ts) field by field: an object as a function of the name.
use legacy_made_api.Prelude.{
  ℕ, ◌≡◌, refl, ◌∙◌, ap, false, Option, none, some, List, [], ◌∷◌, arith, Text, ◌==◌, if◌then◌else◌,
  Bool-cases, inl, inr,
}
use mathlib.Core.Path.{subst}
use legacy_made_api.Prelude.Tables.{any, delete, Distinct}
use legacy_made_api.TableLaws.{Distinct-delete}
use legacy_made_api.Schema.{Json, json_null, json_value, json_object, Metadata}
use legacy_made_api.Items.Metadata.{assign, spread, has_null, base_of, merge_metadata}

abbrev pub name_of : Text × Json → ℕ
name_of field = field.0

-- `o[key]`, none for undefined
abbrev pub lookup : Text → List (Text × Json) → Option Json
lookup key [] = none
lookup key (field ∷ o) = if field.0 == key then some field.1 else lookup key o

abbrev or_else : Option Json → Option Json → Option Json
or_else none other = other
or_else (some value) other = some value

-- A field that is null is left out.
abbrev pub stripped : Option Json → Option Json
stripped none = none
stripped (some json_null) = none
stripped (some (json_value v)) = some (json_value v)
stripped (some (json_object o)) = some (json_object o)

-- A field after a shallow merge, by its incoming and its stored value: an incoming value replaces the
-- stored one as a whole, also where both are objects.
abbrev pub patched_field : Option Json → Option Json → Option Json
patched_field none old = stripped old
patched_field (some new) old = stripped (some new)

lookup-assign :
    (key name : Text) (value : Json) (o : List (Text × Json))
    → lookup key (assign name value o) ≡ (if name == key then some value else lookup key o)
lookup-assign key name value [] = refl
lookup-assign key name value (field ∷ o) = ground (arith, lookup-assign key name value o)

lookup-absent :
    (key : Text) (o : List (Text × Json))
    → any (λ field. name_of field == key) o ≡ false
    → lookup key o ≡ none
lookup-absent key [] h = refl
lookup-absent key (field ∷ o) h = ground (arith, lookup-absent key o)

any-assign :
    (key name : Text) (value : Json) (o : List (Text × Json))
    → (name == key) ≡ false
    → any (λ field. name_of field == key) o ≡ false
    → any (λ field. name_of field == key) (assign name value o) ≡ false
any-assign key name value [] other h = ground arith
any-assign key name value (field ∷ o) other h = ground (arith, any-assign key name value o other)

Distinct-assign :
    (name : Text) (value : Json) (o : List (Text × Json))
    → Distinct name_of o
    → Distinct name_of (assign name value o)
Distinct-assign name value [] d = (refl, tt)
Distinct-assign name value (field ∷ o) d = elim (Bool-cases (field.0 == name)) [
  | inl same ↦
      let e : field.0 ≡ name = ground arith in
      ground (arith, d, ap (λ n. any (λ f. name_of f == n) o) e)
  | inr other ↦ ground (arith, any-assign field.0 name value o, Distinct-assign name value o d.1)
]

Distinct-spread :
    (fields o : List (Text × Json)) → Distinct name_of o → Distinct name_of (spread fields o)
Distinct-spread [] o d = d
Distinct-spread (field ∷ fields) o d =
    Distinct-spread fields (assign field.0 field.1 o) (Distinct-assign field.0 field.1 o d)

lookup-spread :
    (key : Text) (fields o : List (Text × Json))
    → Distinct name_of fields
    → lookup key (spread fields o) ≡ or_else (lookup key fields) (lookup key o)
lookup-spread key [] o d = refl
lookup-spread key (field ∷ fields) o d =
    let e = lookup-spread key fields (assign field.0 field.1 o) d.1 in
    let a = lookup-assign key field.0 field.1 o in
    elim (Bool-cases (field.0 == key)) [
      | inl here ↦
          let same : field.0 ≡ key = ground arith in
          let gone =
            lookup-absent key fields
              (subst (λ k. any (λ f. name_of f == k) fields ≡ false) same d.0) in
          rw (e, gone, a, here) refl
      | inr there ↦ rw (e, a, there) refl
    ]

lookup-delete :
    (key : Text) (o : List (Text × Json))
    → Distinct name_of o
    → lookup key (delete has_null o) ≡ stripped (lookup key o)
lookup-delete key [] d = refl
lookup-delete key ((name, json_null) ∷ o) d = elim (Bool-cases (name == key)) [
  | inl here ↦
      let same : name ≡ key = ground arith in
      let gone = lookup-absent key o (subst (λ k. any (λ f. name_of f == k) o ≡ false) same d.0) in
      rw (here, lookup-delete key o d.1, gone) refl
  | inr there ↦ rw (there) (lookup-delete key o d.1)
]
lookup-delete key ((name, json_value v) ∷ o) d = elim (Bool-cases (name == key)) [
  | inl here ↦ rw (here) refl
  | inr there ↦ rw (there) (lookup-delete key o d.1)
]
lookup-delete key ((name, json_object v) ∷ o) d = elim (Bool-cases (name == key)) [
  | inl here ↦ rw (here) refl
  | inr there ↦ rw (there) (lookup-delete key o d.1)
]

stripped-or_else : (new old : Option Json) → stripped (or_else new old) ≡ patched_field new old
stripped-or_else none old = refl
stripped-or_else (some v) old = refl

-- After a merge with an incoming object, every field has its incoming value, or its stored value where
-- the incoming object has no field of the name, and is left out where this value is null. The merge is
-- shallow: an incoming object takes the place of a stored one, and no field inside it is merged or
-- left out. The fields of the incoming object and of the stored one have different names.
pub lookup-merge_metadata :
    (key : Text) (existing : Metadata) (incoming : List (Text × Json))
    → Distinct name_of (base_of existing)
    → Distinct name_of incoming
    → lookup key (merge_metadata existing (some incoming))
      ≡ patched_field (lookup key incoming) (lookup key (base_of existing))
unfolding merge_metadata
lookup-merge_metadata key existing incoming d d' =
    lookup-delete key (spread incoming (base_of existing))
      (Distinct-spread incoming (base_of existing) d)
    ∙ ap stripped (lookup-spread key incoming (base_of existing) d')
    ∙ stripped-or_else (lookup key incoming) (lookup key (base_of existing))

-- A merge leaves an object whose fields have different names.
pub merge_metadata-Distinct :
    (existing : Metadata) (incoming : Option (List (Text × Json)))
    → Distinct name_of (base_of existing)
    → Distinct name_of (merge_metadata existing incoming)
unfolding merge_metadata
merge_metadata-Distinct existing none d = d
merge_metadata-Distinct existing (some incoming) d =
    Distinct-delete name_of has_null (spread incoming (base_of existing))
      (Distinct-spread incoming (base_of existing) d)
