-- ===== src/Api/Wire.antt =====
-- internal/api/dto.go and response.go: the JSON that a reply's body is written as.
use double_entry_bank_go.Base.{
  Bool, String, str_eq, List, [], ◌∷◌, ◌++◌, map, Option, none, some, if◌then◌else◌,
}
use double_entry_bank_go.World.{Time}
use double_entry_bank_go.Api.Reply.{
  AccountResponse, EntryResponse, Payload, error_response, token_response, message_response,
  plain_text, register_response, account_response, account_list, entry_list, reconcile_response,
}

-- A value of a field.
pub data Value : Type 0 where
  text : String → Value
  flag : Bool → Value

-- An object, and an array of objects.
pub data Document : Type 0 where
  object : List (String × Value) → Document
  array : List (List (String × Value)) → Document

-- The text of a time is a parameter.
module _ (time_text : Time → String) where
  -- `AccountResponse`, which leaves out an owner that is nil.
  unfoldable pub account_fields : AccountResponse → List (String × Value)
  account_fields a =
      ("id", text a.id)
        ∷ ("name", text a.name)
        ∷ ("balance", text a.balance)
        ∷ ("currency", text a.currency)
        ∷ elim a.owner_id [ none ↦ [] | some owner ↦ ("owner_id", text owner) ∷ [] ]
      ++ ("created_at", text (time_text a.created_at)) ∷ ("is_system", flag a.is_system) ∷ []

  -- `EntryResponse`, which leaves out a description that is empty.
  unfoldable pub entry_fields : EntryResponse → List (String × Value)
  entry_fields e =
      ("created_at", text (time_text e.created_at))
      ∷ ("id", text e.id)
      ∷ ("account_id", text e.account_id)
      ∷ ("debit", text e.debit)
      ∷ ("credit", text e.credit)
      ∷ ("transaction_id", text e.transaction_id)
      ∷ ("operation_type", text e.operation_type)
      ∷ (if str_eq e.description "" then [] else ("description", text e.description) ∷ [])

  -- `respondJSON`; the body of `http.Error` is no JSON.
  unfoldable pub encode_payload : Payload → Option Document
  encode_payload (error_response t) = some (object (("error", text t) ∷ []))
  encode_payload (token_response t) = some (object (("token", text t) ∷ []))
  encode_payload (message_response t) = some (object (("message", text t) ∷ []))
  encode_payload (plain_text t) = none
  encode_payload (register_response r) = some (
      object (("user_id", text r.user_id) ∷ ("email", text r.email) ∷ ("token", text r.token) ∷ []))
  encode_payload (account_response a) = some (object (account_fields a))
  encode_payload (account_list accounts) = some (array (map account_fields accounts))
  encode_payload (entry_list entries) = some (array (map entry_fields entries))
  encode_payload (reconcile_response matched t) =
      some (object (("message", text t) ∷ ("matched", flag matched) ∷ []))
