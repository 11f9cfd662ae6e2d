-- ===== src/Api/Router.antt =====
-- cmd/main.go, newRouter: which handler serves which request, and the middleware in front of the
-- protected ones.
use double_entry_bank_go.Base.{Bool, true, false, none, some, String}
use double_entry_bank_go.Api.Json.{Body}
use double_entry_bank_go.Api.Reply.{plain_text}
use double_entry_bank_go.Api.Auth.{Credentials, Verified, verify_request, authenticator}
use double_entry_bank_go.Api.Handling.{Ending, ◌>>=◌, next_call, respond, Server, Request}
use double_entry_bank_go.Api.Users.{register, login}
use double_entry_bank_go.Api.Accounts.{create_account_handler, list_accounts, get_account_handler}
use double_entry_bank_go.Api.Movements.{
  deposit_handler, withdraw_handler, transfer_handler, reconcile_handler,
}
use double_entry_bank_go.Api.Listing.{get_entries, get_transactions}

-- The routes that reach the store.
pub data Endpoint : Type 0 where
  -- `POST /register`, `POST /login`
  register_route login_route : Endpoint
  -- `POST /accounts`, `GET /accounts`, `GET /accounts/:id`
  create_account_route list_accounts_route get_account_route : Endpoint
  -- `POST /accounts/:id/deposit`, `POST /accounts/:id/withdraw`, `POST /transfers`
  deposit_route withdraw_route transfer_route : Endpoint
  -- `GET /accounts/:id/entries`, `GET /accounts/:id/reconcile`, `GET /transactions/:id`
  entries_route reconcile_route transactions_route : Endpoint

-- A request on one of the routes.
pub record Incoming : Type 0 where
  pub endpoint : Endpoint
  pub credentials : Credentials
  pub id : String
  pub limit : String
  pub offset : String
  pub body : Body

abbrev pub is_public : Endpoint → Bool
is_public register_route = true
is_public login_route = true
is_public _ = false

module _ (s : Server) where
  open s use {jwt}

  abbrev pub handler : Endpoint → Request s → Ending
  handler register_route = register s
  handler login_route = login s
  handler create_account_route = create_account_handler s
  handler list_accounts_route = list_accounts s
  handler get_account_route = get_account_handler s
  handler deposit_route = deposit_handler s
  handler withdraw_route = withdraw_handler s
  handler transfer_route = transfer_handler s
  handler entries_route = get_entries s
  handler reconcile_route = reconcile_handler s
  handler transactions_route = get_transactions s

  abbrev pub to_request : Verified jwt → Incoming → Request s
  to_request v i = record {
    verified = v;
    id = i.id;
    limit = i.limit;
    offset = i.offset;
    body = i.body;
  }

  -- The protected group: `Verifier`, then `Authenticator`, then the handler.
  unfoldable pub guarded : Incoming → Ending
  guarded i = do
    n ← next_call
    let v = verify_request jwt (s.unix n) i.credentials
    elim (authenticator jwt v) [
      | some text ↦ respond (record { status = 401; body = plain_text text })
      | none ↦ handler i.endpoint (to_request v i)
    ]

  unfoldable pub serve : Incoming → Ending
  serve i = elim (is_public i.endpoint) [
    | true ↦ handler i.endpoint (to_request (none, none) i)
    | false ↦ guarded i
  ]
