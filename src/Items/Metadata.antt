-- ===== src/Items/Metadata.antt =====
-- `mergeMetadata` of src/common/utils/helpers.ts. An object is the list of its fields, which have
-- different names; `{ ...base, ...incoming }` assigns the fields of `incoming` one after another.
use legacy_made_api.Prelude.{
  Bool, true, false, Option, none, some, List, [], ◌∷◌, Text, ◌==◌, if◌then◌else◌,
}
use legacy_made_api.Prelude.Tables.{delete}
use legacy_made_api.Schema.{Json, json_null, json_value, json_object, Metadata, object, no_object}

-- `o[key] = value`
abbrev pub assign : Text → Json → List (Text × Json) → List (Text × Json)
assign key value [] = (key, value) ∷ []
assign key value (field ∷ o) =
    let rest = assign key value o in if field.0 == key then (key, value) ∷ o else field ∷ rest

-- `{ ...o, ...fields }`
abbrev pub spread : List (Text × Json) → List (Text × Json) → List (Text × Json)
spread [] o = o
spread (field ∷ fields) o = spread fields (assign field.0 field.1 o)

abbrev pub is_null : Json → Bool
is_null json_null = true
is_null (json_value _) = false
is_null (json_object _) = false

abbrev pub has_null : Text × Json → Bool
has_null field = is_null field.1

abbrev pub base_of : Metadata → List (Text × Json)
base_of (object fields) = fields
base_of (no_object _) = []

-- `mergeMetadata`
unfoldable pub merge_metadata : Metadata → Option (List (Text × Json)) → List (Text × Json)
merge_metadata existing none = base_of existing
merge_metadata existing (some incoming) = delete has_null (spread incoming (base_of existing))
