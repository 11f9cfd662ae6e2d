-- ===== src/Docs/Payments.antt =====
-- docs/docs.go: the operations that move money.
use double_entry_bank_go.Base.{true, [], ◌∷◌}
use double_entry_bank_go.Docs.{
  string, simple, object_of, reference, in_path, in_body, Operation, failure,
}

-- `post /accounts/{id}/deposit`
abbrev pub deposit_operation : Operation
deposit_operation = record {
  path = "/accounts/{id}/deposit";
  method = "post";
  secured = true;
  description = "Deposits fiat amount (mock) with double-entry ledger update";
  consumes = "application/json" ∷ [];
  produces = "application/json" ∷ [];
  tags = "accounts" ∷ [];
  summary = "Deposit money into account";
  parameters =
      record {
        place = in_path;
        name = "id";
        description = "Account ID";
        required = true;
        schema = simple string;
      }
      ∷ record {
        place = in_body;
        name = "body";
        description = "Deposit amount (e.g., 1000.0000)";
        required = true;
        schema = object_of (("amount", string) ∷ []);
      }
      ∷ [];
  responses =
      record { status = 200; description = "OK"; schema = reference "api.MessageResponse" }
      ∷ failure 400 "Bad Request"
      ∷ failure 401 "Unauthorized"
      ∷ failure 403 "Forbidden"
      ∷ failure 404 "Not Found"
      ∷ failure 500 "Internal Server Error"
      ∷ [];
}

-- `post /accounts/{id}/withdraw`
abbrev pub withdraw_operation : Operation
withdraw_operation = record {
  path = "/accounts/{id}/withdraw";
  method = "post";
  secured = true;
  description = "Withdraws fiat amount (mock) with double-entry ledger update";
  consumes = "application/json" ∷ [];
  produces = "application/json" ∷ [];
  tags = "accounts" ∷ [];
  summary = "Withdraw money from account";
  parameters =
      record {
        place = in_path;
        name = "id";
        description = "Account ID";
        required = true;
        schema = simple string;
      }
      ∷ record {
        place = in_body;
        name = "body";
        description = "Withdraw amount (e.g., 500.0000)";
        required = true;
        schema = object_of (("amount", string) ∷ []);
      }
      ∷ [];
  responses =
      record { status = 200; description = "OK"; schema = reference "api.MessageResponse" }
      ∷ failure 400 "Bad Request"
      ∷ failure 401 "Unauthorized"
      ∷ failure 403 "Forbidden"
      ∷ failure 404 "Not Found"
      ∷ failure 500 "Internal Server Error"
      ∷ [];
}

-- `post /transfers`
abbrev pub transfer_operation : Operation
transfer_operation = record {
  path = "/transfers";
  method = "post";
  secured = true;
  description =
      "Transfers funds between accounts with atomic double-entry updates. The amount field accepts JSON number or string. from_id/to_id are preferred; from_account_id/to_account_id are supported as legacy aliases.";
  consumes = "application/json" ∷ [];
  produces = "application/json" ∷ [];
  tags = "accounts" ∷ [];
  summary = "Transfer money between accounts";
  parameters =
      record {
        place = in_body;
        name = "body";
        description = "Transfer details";
        required = true;
        schema = object_of (("amount", string) ∷ ("from_id", string) ∷ ("to_id", string) ∷ []);
      }
      ∷ [];
  responses =
      record { status = 200; description = "OK"; schema = reference "api.MessageResponse" }
      ∷ failure 400 "Bad Request"
      ∷ failure 401 "Unauthorized"
      ∷ failure 403 "Forbidden"
      ∷ failure 404 "Not Found"
      ∷ [];
}
