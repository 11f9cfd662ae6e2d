-- ===== src/Docs/Conformance.antt =====
-- When a reply is one that the document lists.
use double_entry_bank_go.Base.{
  Bool, true, false, ◌&&◌, ◌==◌, String, str_eq, List, [], ◌∷◌, Option, none, some, find, any, ◌||◌,
}
use double_entry_bank_go.World.{Time}
use double_entry_bank_go.Docs.{
  Primitive, string, boolean, Schema, object_of, reference, list_of, Response, Operation,
  api_definitions,
}
use double_entry_bank_go.Api.Reply.{Reply}
use double_entry_bank_go.Api.Wire.{Value, text, flag, Document, object, array, encode_payload}

abbrev has_type : Value → Primitive → Bool
has_type (text t) string = true
has_type (flag b) boolean = true
has_type _ _ = false

-- The field is among the properties, with its type.
unfoldable pub is_property : List (String × Primitive) → String × Value → Bool
is_property props field = elim (find (λ (p : String × Primitive). str_eq p.0 field.0) props) [
  | none ↦ false
  | some p ↦ has_type field.1 p.1
]

unfoldable pub are_properties : List (String × Primitive) → List (String × Value) → Bool
are_properties props [] = true
are_properties props (field ∷ fields) = is_property props field && are_properties props fields

-- The properties that a reply may leave out, which internal/api/dto.go tags with `omitempty`; the
-- document requires no property in so many words.
abbrev pub may_omit : String → String → Bool
may_omit definition name =
    str_eq definition "api.AccountResponse" && str_eq name "owner_id"
    || str_eq definition "api.EntryResponse" && str_eq name "description"

-- Every other property of the definition is among the fields.
unfoldable pub has_properties : String → List (String × Primitive) → List (String × Value) → Bool
has_properties definition [] fields = true
has_properties definition (p ∷ props) fields =
    (may_omit definition p.0 || any (λ (f : String × Value). str_eq f.0 p.0) fields)
    && has_properties definition props fields

-- The fields are those of the definition, each with its type.
unfoldable pub is_object : String → List (String × Primitive) → List (String × Value) → Bool
is_object definition props fields =
    are_properties props fields && has_properties definition props fields

unfoldable pub all_objects :
    String → List (String × Primitive) → List (List (String × Value)) → Bool
all_objects definition props [] = true
all_objects definition props (o ∷ os) =
    is_object definition props o && all_objects definition props os

-- The properties of a definition.
unfoldable pub properties_of : String → Option (List (String × Primitive))
properties_of name =
    elim (find (λ (d : String × List (String × Primitive)). str_eq d.0 name) api_definitions) [
      | none ↦ none
      | some d ↦ some d.1
    ]

unfoldable pub conforms : Document → Schema → Bool
conforms (object fields) (reference name) = elim (properties_of name) [
  | none ↦ false
  | some props ↦ is_object name props fields
]
conforms (array objects) (list_of name) = elim (properties_of name) [
  | none ↦ false
  | some props ↦ all_objects name props objects
]
conforms (object fields) (object_of props) = is_object "" props fields
conforms _ _ = false

-- The operation lists the reply's status, with a schema that its body conforms to.
unfoldable pub is_documented : (Time → String) → Operation → Reply → Bool
is_documented time_text op reply =
    elim (find (λ (r : Response). r.status == reply.status) op.responses) [
      | none ↦ false
      | some r ↦ elim (encode_payload time_text reply.body) [
        | none ↦ false
        | some body ↦ conforms body r.schema
      ]
    ]
