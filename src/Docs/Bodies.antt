-- ===== src/Docs/Bodies.antt =====
-- internal/api/dto.go and docs/docs.go: the objects of the replies have the documented properties.
use double_entry_bank_go.Base.{
  Bool, true, false, String, str_eq, List, [], ◌∷◌, ◌++◌, map, Option, none, some, if◌then◌else◌,
  ◌≡◌, refl,
}
use double_entry_bank_go.World.{Time}
use double_entry_bank_go.Docs.{account_properties, entry_properties}
use double_entry_bank_go.Docs.Conformance.{
  is_property, are_properties, has_properties, is_object, all_objects,
}
use double_entry_bank_go.Api.Reply.{AccountResponse, EntryResponse}
use double_entry_bank_go.Api.Wire.{Value, text, flag, account_fields, entry_fields}

module _ (time_text : Time → String) where
  pub account_fields_lem :
      (a : AccountResponse)
      → is_object "api.AccountResponse" account_properties (account_fields time_text a) ≡ true
  unfolding is_object has_properties are_properties is_property account_fields
  account_fields_lem a = go a.owner_id
    where
      go :
          (o : Option String)
          → is_object "api.AccountResponse" account_properties (
              ("id", text a.id)
                ∷ ("name", text a.name)
                ∷ ("balance", text a.balance)
                ∷ ("currency", text a.currency)
                ∷ elim o as (λ _. List (String × Value)) [
                  | none ↦ []
                  | some owner ↦ ("owner_id", text owner) ∷ []
                ]
              ++ ("created_at", text (time_text a.created_at))
                ∷ ("is_system", flag a.is_system)
                ∷ [])
            ≡ true
      go none = refl
      go (some owner) = refl

  pub entry_fields_lem :
      (e : EntryResponse)
      → is_object "api.EntryResponse" entry_properties (entry_fields time_text e) ≡ true
  unfolding is_object has_properties are_properties is_property entry_fields
  entry_fields_lem e = go (str_eq e.description "")
    where
      go :
          (blank : Bool)
          → is_object "api.EntryResponse" entry_properties (
              ("created_at", text (time_text e.created_at))
              ∷ ("id", text e.id)
              ∷ ("account_id", text e.account_id)
              ∷ ("debit", text e.debit)
              ∷ ("credit", text e.credit)
              ∷ ("transaction_id", text e.transaction_id)
              ∷ ("operation_type", text e.operation_type)
              ∷ (if blank then [] else ("description", text e.description) ∷ []))
            ≡ true
      go true = refl
      go false = refl

  pub account_list_lem :
      (accounts : List AccountResponse)
      → all_objects "api.AccountResponse" account_properties
          (map (account_fields time_text) accounts)
        ≡ true
  unfolding all_objects
  account_list_lem [] = refl
  account_list_lem (a ∷ accounts) = rw (account_fields_lem, account_list_lem accounts) refl

  pub entry_list_lem :
      (es : List EntryResponse)
      → all_objects "api.EntryResponse" entry_properties (map (entry_fields time_text) es) ≡ true
  unfolding all_objects
  entry_list_lem [] = refl
  entry_list_lem (e ∷ es) = rw (entry_fields_lem, entry_list_lem es) refl
