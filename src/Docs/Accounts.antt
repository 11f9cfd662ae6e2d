-- ===== src/Docs/Accounts.antt =====
-- docs/docs.go: the operations on accounts that move no money.
use double_entry_bank_go.Base.{true, false, [], ◌∷◌}
use double_entry_bank_go.Docs.{
  string, integer, simple, object_of, reference, list_of, in_path, in_query, in_body, Operation,
  failure,
}

-- `get /accounts`
abbrev pub list_accounts_operation : Operation
list_accounts_operation = record {
  path = "/accounts";
  method = "get";
  secured = true;
  description = "Returns list of accounts owned by authenticated user";
  consumes = [];
  produces = "application/json" ∷ [];
  tags = "accounts" ∷ [];
  summary = "List user accounts";
  parameters = [];
  responses =
      record { status = 200; description = "OK"; schema = list_of "api.AccountResponse" }
      ∷ failure 401 "Unauthorized"
      ∷ failure 500 "Internal Server Error"
      ∷ [];
}

-- `post /accounts`
abbrev pub create_account_operation : Operation
create_account_operation = record {
  path = "/accounts";
  method = "post";
  secured = true;
  description = "Creates a new user-owned account with name and currency";
  consumes = "application/json" ∷ [];
  produces = "application/json" ∷ [];
  tags = "accounts" ∷ [];
  summary = "Create a new account";
  parameters =
      record {
        place = in_body;
        name = "body";
        description = "Account details";
        required = true;
        schema = object_of (("name", string) ∷ []);
      }
      ∷ [];
  responses =
      record { status = 201; description = "Created"; schema = reference "api.AccountResponse" }
      ∷ failure 400 "Bad Request"
      ∷ failure 401 "Unauthorized"
      ∷ failure 500 "Internal Server Error"
      ∷ [];
}

-- `get /accounts/{id}`
abbrev pub get_account_operation : Operation
get_account_operation = record {
  path = "/accounts/{id}";
  method = "get";
  secured = true;
  description = "Returns details of a specific account";
  consumes = [];
  produces = "application/json" ∷ [];
  tags = "accounts" ∷ [];
  summary = "Get account details";
  parameters =
      record {
        place = in_path;
        name = "id";
        description = "Account ID";
        required = true;
        schema = simple string;
      }
      ∷ [];
  responses =
      record { status = 200; description = "OK"; schema = reference "api.AccountResponse" }
      ∷ failure 400 "Bad Request"
      ∷ failure 401 "Unauthorized"
      ∷ failure 403 "Forbidden"
      ∷ failure 404 "Not Found"
      ∷ [];
}

-- `get /accounts/{id}/entries`
abbrev pub entries_operation : Operation
entries_operation = record {
  path = "/accounts/{id}/entries";
  method = "get";
  secured = true;
  description = "Returns list of ledger entries for an account (immutable history)";
  consumes = [];
  produces = "application/json" ∷ [];
  tags = "accounts" ∷ [];
  summary = "Get account entries";
  parameters =
      record {
        place = in_path;
        name = "id";
        description = "Account ID";
        required = true;
        schema = simple string;
      }
      ∷ record {
        place = in_query;
        name = "limit";
        description = "Limit (default 20)";
        required = false;
        schema = simple integer;
      }
      ∷ record {
        place = in_query;
        name = "offset";
        description = "Offset (default 0)";
        required = false;
        schema = simple integer;
      }
      ∷ [];
  responses =
      record { status = 200; description = "OK"; schema = list_of "api.EntryResponse" }
      ∷ failure 400 "Bad Request"
      ∷ failure 401 "Unauthorized"
      ∷ failure 403 "Forbidden"
      ∷ failure 404 "Not Found"
      ∷ failure 500 "Internal Server Error"
      ∷ [];
}

-- `get /accounts/{id}/reconcile`
abbrev pub reconcile_operation : Operation
reconcile_operation = record {
  path = "/accounts/{id}/reconcile";
  method = "get";
  secured = true;
  description = "Verifies stored balance matches sum of all ledger entries (credits - debits)";
  consumes = [];
  produces = "application/json" ∷ [];
  tags = "accounts" ∷ [];
  summary = "Reconcile account balance";
  parameters =
      record {
        place = in_path;
        name = "id";
        description = "Account ID";
        required = true;
        schema = simple string;
      }
      ∷ [];
  responses =
      record { status = 200; description = "OK"; schema = reference "api.ReconcileResponse" }
      ∷ failure 400 "Bad Request"
      ∷ failure 401 "Unauthorized"
      ∷ failure 403 "Forbidden"
      ∷ failure 404 "Not Found"
      ∷ failure 500 "Internal Server Error"
      ∷ [];
}
