-- ===== src/Api/Accounts.antt =====
-- internal/api/handler.go: CreateAccount, ListAccounts and GetAccount.
use double_entry_bank_go.Base.{false, some, map, str_eq}
use double_entry_bank_go.Sqlc.Accounts.{create_account, list_accounts_by_owner}
use double_entry_bank_go.Api.Json.{fields, text_field}
use double_entry_bank_go.Api.Reply.{
  respond_error, account_response, account_list, to_account_response,
}
use double_entry_bank_go.Api.Handling.{
  Ending, ◌>>=◌, ◌>>◌, respond, refuse_if, need, call, Server, Request, authenticate, authorize,
}

module _ (s : Server) where
  open s use {backend as b, zero_time}

  unfoldable pub create_account_handler : Request s → Ending
  create_account_handler r = do
    user_id ← authenticate s r
    ps ← need (fields r.body) 400 "name required"
    name ← need (text_field "name" "" ps) 400 "name required"
    refuse_if (str_eq name "") 400 "name required"
    acc ←
        call
          (create_account b
            (record { owner_id = some user_id; name = name; currency = "USD"; is_system = false }))
          (λ e. respond_error 500 "failed to create account")
    respond (record {
      status = 201;
      body = account_response (to_account_response b.uuid_string zero_time acc);
    })

  unfoldable pub list_accounts : Request s → Ending
  list_accounts r = do
    user_id ← authenticate s r
    accounts ←
        call (list_accounts_by_owner b (some user_id))
          (λ e. respond_error 500 "failed to list accounts")
    respond (record {
      status = 200;
      body = account_list (map (to_account_response b.uuid_string zero_time) accounts);
    })

  unfoldable pub get_account_handler : Request s → Ending
  get_account_handler r = do
    user_id ← authenticate s r
    account_id ← need (b.uuid_parse r.id) 400 "invalid account ID"
    acc ← authorize s user_id account_id "account not found"
    respond (record {
      status = 200;
      body = account_response (to_account_response b.uuid_string zero_time acc);
    })
