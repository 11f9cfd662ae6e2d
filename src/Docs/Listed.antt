-- ===== src/Docs/Listed.antt =====
-- docs/docs.go: the replies that the handlers send are listed for their routes.
use double_entry_bank_go.Base.{Bool, true, false, ◌||◌, String, List, if◌then◌else◌, ◌≡◌, refl, ℕ}
use double_entry_bank_go.Errors.{
  GoError, errors_is, insufficient_funds, invalid_amount, currency_mismatch,
}
use double_entry_bank_go.World.{Time}
use double_entry_bank_go.Docs.Operations.{operation}
use double_entry_bank_go.Docs.Conformance.{
  is_property, are_properties, has_properties, is_object, properties_of, conforms, is_documented,
}
use double_entry_bank_go.Docs.Bodies.{account_fields_lem, account_list_lem, entry_list_lem}
use double_entry_bank_go.Api.Wire.{encode_payload}
use double_entry_bank_go.Api.Reply.{
  Reply, AccountResponse, respond_error, account_response, account_list, entry_list, EntryResponse,
}
use double_entry_bank_go.Api.Movements.{deposit_status, withdraw_status}
use double_entry_bank_go.Api.Router.{
  Endpoint, create_account_route, list_accounts_route, get_account_route, deposit_route,
  withdraw_route, entries_route, transactions_route,
}

module _ (time_text : Time → String) where
  -- The reply is one that the document lists for the route.
  abbrev pub is_listed : Endpoint → Reply → Bool
  is_listed e = is_documented time_text (operation e)

  abbrev pub Refusal : Endpoint → ℕ → Type 0
  Refusal e status = (text : String) → is_listed e (respond_error status text) ≡ true

  abbrev pub replied_with : ℕ → AccountResponse → Reply
  replied_with status a = record { status = status; body = account_response a }

  pub created-Listed :
      (a : AccountResponse) → is_listed create_account_route (replied_with 201 a) ≡ true
  unfolding is_documented conforms properties_of encode_payload
  created-Listed a = account_fields_lem time_text a

  pub account-Listed :
      (a : AccountResponse) → is_listed get_account_route (replied_with 200 a) ≡ true
  unfolding is_documented conforms properties_of encode_payload
  account-Listed a = account_fields_lem time_text a

  pub accounts-Listed :
      (l : List AccountResponse)
      → is_listed list_accounts_route (record { status = 200; body = account_list l }) ≡ true
  unfolding is_documented conforms properties_of encode_payload
  accounts-Listed l = account_list_lem time_text l

  pub entries-Listed :
      (l : List EntryResponse)
      → is_listed entries_route (record { status = 200; body = entry_list l }) ≡ true
  unfolding is_documented conforms properties_of encode_payload
  entries-Listed l = entry_list_lem time_text l

  pub transaction-Listed :
      (l : List EntryResponse)
      → is_listed transactions_route (record { status = 200; body = entry_list l }) ≡ true
  unfolding is_documented conforms properties_of encode_payload
  transaction-Listed l = entry_list_lem time_text l

  pub deposit_status-Listed : (e : GoError) → Refusal deposit_route (deposit_status e)
  unfolding is_documented conforms properties_of encode_payload is_object has_properties
      are_properties is_property deposit_status
  deposit_status-Listed e = go (errors_is e invalid_amount || errors_is e currency_mismatch)
    where
      go : (own : Bool) → Refusal deposit_route (if own then 400 else 500)
      go true _ = refl
      go false _ = refl

  pub withdraw_status-Listed : (e : GoError) → Refusal withdraw_route (withdraw_status e)
  unfolding is_documented conforms properties_of encode_payload is_object has_properties
      are_properties is_property withdraw_status
  withdraw_status-Listed e = go (
      errors_is e insufficient_funds || errors_is e invalid_amount || errors_is e currency_mismatch)
    where
      go : (own : Bool) → Refusal withdraw_route (if own then 400 else 500)
      go true _ = refl
      go false _ = refl
